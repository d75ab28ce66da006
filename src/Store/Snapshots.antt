-- ===== src/Store/Snapshots.antt =====
-- internal/store/marketdata.go: market data snapshots and the jobs that fetch them.
use signal_ledger_project.Prelude.{
  String, Option, some, [], ◌∷◌, ◌++◌, ◌==◌, eqb, first, count_where,
}
use signal_ledger_project.Domain.Research.{Time}
use signal_ledger_project.Domain.Backtest.{RawMessage}
use signal_ledger_project.Domain.Records.{
  Job, MarketDataRequest, MarketDataSnapshot, CreateMarketDataSnapshotInput,
}
use signal_ledger_project.Store.Base.{
  Result, ok, ◌>>=◌, ◌>>◌, require, some_or, not_found, undecodable, violated_constraint,
}
use signal_ledger_project.Store.Tables.{Db}
use signal_ledger_project.Store.Postgres.{Postgres}
use signal_ledger_project.Store.Backtests.{enqueue}

-- CreateMarketDataJob; `encode` is `json.Marshal`.
unfoldable pub create_market_data_job :
    {F : Type 0}
    → Postgres F
    → (MarketDataRequest → RawMessage)
    → String
    → Time
    → MarketDataRequest
    → Db F
    → Result (Job × Db F)
create_market_data_job pg encode job_id db_now request db = do
  enqueued ← enqueue pg job_id db_now "fetch_market_data" (encode request) db.jobs
  ok (enqueued.0, record db { jobs = enqueued.1 })

-- InsertMarketDataSnapshot; `to_date` is the cast of a text to a date and back.
unfoldable pub insert_market_data_snapshot :
    {F : Type 0}
    → Postgres F
    → (String → Option String)
    → String
    → CreateMarketDataSnapshotInput
    → Db F
    → Result (MarketDataSnapshot × Db F)
insert_market_data_snapshot pg to_date new_id input db = do
  start_date ← some_or (to_date input.start_date) undecodable
  end_date ← some_or (to_date input.end_date) undecodable
  checksum ← some_or (pg.char64 input.checksum) violated_constraint
  require (eqb (count_where (λ s. s.id == new_id) db.snapshots) 0) violated_constraint
  let snapshot : MarketDataSnapshot = record {
    id = new_id;
    provider = input.provider;
    symbols = input.symbols;
    interval = input.interval;
    start_date = start_date;
    end_date = end_date;
    storage_key = some input.storage_key;
    checksum = some checksum;
    retrieved_at = input.retrieved_at;
  }
  ok (snapshot, record db { snapshots = db.snapshots ++ snapshot ∷ [] })

-- GetMarketDataSnapshot
unfoldable pub get_market_data_snapshot : {F : Type 0} → String → Db F → Result MarketDataSnapshot
get_market_data_snapshot id db = some_or (first (λ s. s.id == id) db.snapshots) not_found
