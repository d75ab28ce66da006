-- ===== src/MarketData/Frozen.antt =====
-- What `FetchSnapshot` of internal/marketdata/service.go has done when it succeeds.
use signal_ledger_project.Prelude.{
  String, ◌≡◌, ◌≢◌, refl, sym, ap, ◌∙◌, Option, none, some, List, [], ◌∷◌, ◌++◌,
}
use signal_ledger_project.Domain.Records.{
  Bar, MarketDataRequest, MarketDataResult, MarketDataSnapshot, CreateMarketDataSnapshotInput,
}
use signal_ledger_project.Store.Base.{
  Result, ok, err, ok-injective, bind-ok, some_or-ok, require-ok, undecodable, violated_constraint,
  some_or,
}
use signal_ledger_project.Store.Tables.{Db}
use signal_ledger_project.Store.Postgres.{Postgres}
use signal_ledger_project.Store.Snapshots.{insert_market_data_snapshot}
use signal_ledger_project.Worker.Effects.{World, call-ok}
use signal_ledger_project.Documents.{Disk, drop_file}
use signal_ledger_project.Documents.Files.{HasFile}
use signal_ledger_project.MarketData.{RequestError, validate_request}
use signal_ledger_project.MarketData.Files.{path_below, save_snapshot, save_in-ok}
use signal_ledger_project.MarketData.Snapshots.{
  Given, csv_bytes, input_for, with_disk, record_snapshot, store_bars, store_result, if_valid,
  fetch_snapshot,
}

-- What the insertion has checked and written.
record Inserted {F : Type 0} (pg : Postgres F) (input : CreateMarketDataSnapshotInput)
    (before after : Db F) (snapshot : MarketDataSnapshot) : Type 0 where
  pub checksum : String
  pub stored : pg.char64 input.checksum ≡ some checksum
  pub checked : snapshot.checksum ≡ some checksum
  pub located : snapshot.storage_key ≡ some input.storage_key
  pub symbols : snapshot.symbols ≡ input.symbols
  pub appended : after ≡ record before { snapshots = before.snapshots ++ snapshot ∷ [] }

insert-Inserted :
    {F : Type 0} (pg : Postgres F) (to_date : String → Option String) (new_id : String)
    (input : CreateMarketDataSnapshotInput) (before after : Db F) (snapshot : MarketDataSnapshot)
    → insert_market_data_snapshot pg to_date new_id input before ≡ ok (snapshot, after)
    → Inserted pg input before after snapshot
unfolding insert_market_data_snapshot
insert-Inserted pg to_date new_id input before after snapshot h =
    let a = bind-ok (some_or (to_date input.start_date) undecodable) _ _ h in
    let b = bind-ok (some_or (to_date input.end_date) undecodable) _ _ a.2 in
    let c = bind-ok (some_or (pg.char64 input.checksum) violated_constraint) _ _ b.2 in
    let d = require-ok _ violated_constraint _ _ c.2 in
    let e = ok-injective _ _ d.1 in
    record {
      checksum = c.0;
      stored = some_or-ok _ _ _ c.1;
      checked = sym (ap (λ r. r.0.checksum) e);
      located = sym (ap (λ r. r.0.storage_key) e);
      symbols = sym (ap (λ r. r.0.symbols) e);
      appended =
          sym (ap (λ r. r.1) e)
          ∙ ap (λ s. record before { snapshots = before.snapshots ++ s ∷ [] }) (ap (λ r. r.0) e);
    }

module _ {F : Type 0} (given : Given F) where
  with_disk-ok :
      (r : Result MarketDataSnapshot × World F) (disk : Disk) (snapshot : MarketDataSnapshot)
      (after : World F × Disk)
      → with_disk given r disk ≡ (ok snapshot, after)
      → (r ≡ (ok snapshot, after.0)) × (after.1 ≡ disk)
  with_disk-ok (r, world) disk snapshot after h =
      (ap (λ v. (v.0, v.1.0)) h, sym (ap (λ v. v.1.1) h))

  -- The steps of a fetch that succeeds.
  record_snapshot-ok :
      (request : MarketDataRequest) (result : MarketDataResult F) (world : World F)
      (saved : Result String × Disk) (snapshot : MarketDataSnapshot) (after : World F × Disk)
      → record_snapshot given request result world saved ≡ (ok snapshot, after)
      → (key : String) × (saved ≡ (ok key, after.1))
        × Inserted given.postgres (input_for given request result key) world.db after.0.db snapshot
  record_snapshot-ok request result world (ok key, disk) snapshot after h =
      let a = with_disk-ok _ disk snapshot after h in
      (
        key,
        ap (λ d. (ok key, d)) (sym a.1),
        insert-Inserted given.postgres given.to_date given.snapshot_id _ world.db after.0.db
            snapshot (call-ok _ world after.0 snapshot a.0),
      )
  record_snapshot-ok request result world (err e, disk) snapshot after h = cc

  store_bars-ok :
      (request : MarketDataRequest) (result : MarketDataResult F) (bars : List (Bar F))
      (world : World F) (disk : Disk) (snapshot : MarketDataSnapshot) (after : World F × Disk)
      → store_bars given request result bars world disk ≡ (ok snapshot, after)
      → (bars ≢ [])
        × (record_snapshot given request result world (
              save_snapshot given.platform given.root given.temporary given.name
                (csv_bytes given result.bars)
                disk)
            ≡ (ok snapshot, after))
  store_bars-ok request result [] world disk snapshot after h = cc
  store_bars-ok request result (bar ∷ bars) world disk snapshot after h = (λ e. cc, h)

  store_result-ok :
      (request : MarketDataRequest) (r : Result (MarketDataResult F)) (world : World F)
      (disk : Disk) (snapshot : MarketDataSnapshot) (after : World F × Disk)
      → store_result given request r world disk ≡ (ok snapshot, after)
      → (result : MarketDataResult F) × (r ≡ ok result)
        × (store_bars given request result result.bars world disk ≡ (ok snapshot, after))
  store_result-ok request (ok result) world disk snapshot after h = (result, refl, h)
  store_result-ok request (err e) world disk snapshot after h = cc

  if_valid-ok :
      (request : MarketDataRequest) (o : Option RequestError) (world : World F) (disk : Disk)
      (snapshot : MarketDataSnapshot) (after : World F × Disk)
      → if_valid given request o world disk ≡ (ok snapshot, after)
      → (o ≡ none)
        × (store_result given request (given.fetch request) world disk ≡ (ok snapshot, after))
  if_valid-ok request none world disk snapshot after h = (refl, h)
  if_valid-ok request (some e) world disk snapshot after h = cc

  -- A snapshot that is recorded: the request is valid, the provider returned bars, the row names a file
  -- with their canonical CSV, and its checksum is that of the file's bytes.
  pub record IsFrozen (request : MarketDataRequest) (before after : World F × Disk)
      (snapshot : MarketDataSnapshot) : Type 0 where
    pub valid : validate_request given.parse_date request ≡ none
    pub result : MarketDataResult F
    pub fetched : given.fetch request ≡ ok result
    pub some_bars : result.bars ≢ []
    pub key : String
    pub path : String
    pub named : snapshot.storage_key ≡ some key
    pub placed : path_below given.platform given.root key ≡ ok path
    pub filed :
        HasFile path
          (csv_bytes given result.bars)
          (drop_file given.temporary before.1.files)
          after.1.files
    pub checksum : String
    pub hashed :
        given.postgres.char64 (given.platform.sha256_hex (csv_bytes given result.bars))
        ≡ some checksum
    pub checked : snapshot.checksum ≡ some checksum
    pub covers : snapshot.symbols ≡ request.symbols
    pub appended :
        after.0.db ≡ record before.0.db { snapshots = before.0.db.snapshots ++ snapshot ∷ [] }

  -- FetchSnapshot, when it succeeds: the request passes the checks and the provider returned bars; the
  -- snapshot is added to the table, with the request's symbols and a key below the root, and nothing
  -- else of the tables changes; the file of that key holds the canonical CSV of the bars, and but for
  -- it and the temporary file no file has changed; the snapshot's checksum is the SHA-256 of the file's
  -- bytes as the column returns it.
  pub fetch_snapshot-IsFrozen :
      (request : MarketDataRequest) (world : World F) (disk : Disk) (snapshot : MarketDataSnapshot)
      (after : World F × Disk)
      → fetch_snapshot given request world disk ≡ (ok snapshot, after)
      → IsFrozen request (world, disk) after snapshot
  unfolding fetch_snapshot save_snapshot
  fetch_snapshot-IsFrozen request world disk snapshot after h =
      let a =
        if_valid-ok request (validate_request given.parse_date request) world disk snapshot after
          h in
      let b = store_result-ok request (given.fetch request) world disk snapshot after a.1 in
      let c = store_bars-ok request b.0 b.0.bars world disk snapshot after b.2 in
      let d = record_snapshot-ok request b.0 world _ snapshot after c.1 in
      let s =
        save_in-ok given.platform given.root "market-data" given.temporary given.name _ disk after.1
          d.0 d.1 in
      let i = d.2 in
      record {
        valid = a.0;
        result = b.0;
        fetched = b.1;
        some_bars = c.0;
        key = d.0;
        path = s.0;
        named = i.located;
        placed = s.2;
        filed = s.3;
        checksum = i.checksum;
        hashed = i.stored;
        checked = i.checked;
        covers = i.symbols;
        appended = i.appended;
      }
