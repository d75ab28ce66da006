-- ===== src/MarketData/Snapshots.antt =====
-- `Service` of internal/marketdata/service.go, over the tables and the disk.
use signal_ledger_project.Prelude.{String, Option, none, some, List, [], ◌∷◌}
use signal_ledger_project.Prelude.Sorting.{Sorter}
use signal_ledger_project.Domain.Research.{Time}
use signal_ledger_project.Domain.Backtest.{RawMessage}
use signal_ledger_project.Domain.Records.{
  Bar, Job, MarketDataRequest, MarketDataResult, MarketDataSnapshot, CreateMarketDataSnapshotInput,
}
use signal_ledger_project.Store.Base.{Result, ok, err, invalid_request, no_bars}
use signal_ledger_project.Store.Postgres.{Postgres}
use signal_ledger_project.Store.Snapshots.{create_market_data_job, insert_market_data_snapshot}
use signal_ledger_project.Worker.Effects.{World, Step, fail, call}
use signal_ledger_project.Documents.{Bytes, Disk}
use signal_ledger_project.Documents.Storage.{Platform}
use signal_ledger_project.MarketData.{RequestError, validate_request, Format, canonical_csv}
use signal_ledger_project.MarketData.Files.{save_snapshot}

-- What the service is given: the parsing of dates, the encodings, the ids and times of the database,
-- and the random names.
pub record Given (F : Type 0) : Type 0 where
  pub postgres : Postgres F
  pub platform : Platform
  pub root : String
  pub parse_date : String → Option Time
  pub to_date : String → Option String
  pub encode : MarketDataRequest → RawMessage
  pub sorter : Sorter (Bar F)
  pub format : Format F
  pub bytes_of : String → Bytes
  pub fetch : MarketDataRequest → Result (MarketDataResult F)
  pub job_id : String
  pub snapshot_id : String
  pub db_now : Time
  pub temporary : String
  pub name : String

module _ {F : Type 0} (given : Given F) where
  -- RequestSnapshot
  unfoldable pub request_snapshot : MarketDataRequest → Step F Job
  request_snapshot request = elim (validate_request given.parse_date request) [
    | some error ↦ fail invalid_request
    | none ↦
        call (create_market_data_job given.postgres given.encode given.job_id given.db_now request)
  ]

  abbrev pub csv_bytes : List (Bar F) → Bytes
  csv_bytes bars = given.bytes_of (canonical_csv given.sorter given.format bars)

  abbrev pub input_for :
      MarketDataRequest → MarketDataResult F → String → CreateMarketDataSnapshotInput
  input_for request result key = record {
    provider = result.provider;
    symbols = request.symbols;
    interval = request.interval;
    start_date = request.start_date;
    end_date = request.end_date;
    storage_key = key;
    checksum = given.platform.sha256_hex (csv_bytes result.bars);
    retrieved_at = result.retrieved_at;
  }

  abbrev pub with_disk :
      Result MarketDataSnapshot × World F → Disk → Result MarketDataSnapshot × (World F × Disk)
  with_disk (r, world) disk = (r, (world, disk))

  -- By what Save returned.
  abbrev pub record_snapshot :
      MarketDataRequest
      → MarketDataResult F
      → World F
      → Result String × Disk
      → Result MarketDataSnapshot × (World F × Disk)
  record_snapshot request result world (err e, disk) = (err e, (world, disk))
  record_snapshot request result world (ok key, disk) =
      with_disk
        (call
          (insert_market_data_snapshot given.postgres given.to_date given.snapshot_id
            (input_for request result key))
          world)
        disk

  -- By the bars of the provider.
  abbrev pub store_bars :
      MarketDataRequest
      → MarketDataResult F
      → List (Bar F)
      → World F
      → Disk
      → Result MarketDataSnapshot × (World F × Disk)
  store_bars request result [] world disk = (err no_bars, (world, disk))
  store_bars request result (bar ∷ bars) world disk = record_snapshot request result world (
      save_snapshot given.platform given.root given.temporary given.name (csv_bytes result.bars)
        disk)

  abbrev pub store_result :
      MarketDataRequest
      → Result (MarketDataResult F)
      → World F
      → Disk
      → Result MarketDataSnapshot × (World F × Disk)
  store_result request (err e) world disk = (err e, (world, disk))
  store_result request (ok result) world disk = store_bars request result result.bars world disk

  abbrev pub if_valid :
      MarketDataRequest
      → Option RequestError
      → World F
      → Disk
      → Result MarketDataSnapshot × (World F × Disk)
  if_valid request (some error) world disk = (err invalid_request, (world, disk))
  if_valid request none world disk = store_result request (given.fetch request) world disk

  -- FetchSnapshot
  unfoldable pub fetch_snapshot :
      MarketDataRequest → World F → Disk → Result MarketDataSnapshot × (World F × Disk)
  fetch_snapshot request world disk =
      if_valid request (validate_request given.parse_date request) world disk
