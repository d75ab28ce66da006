-- ===== src/Http/Backtests.antt =====
-- internal/httpapi/backtest.go: the request for a backtest.
use signal_ledger_project.Prelude.{
  String, Bool, not, ◌||◌, Option, none, some, List, [], ◌∷◌, ◌==◌, if◌then◌else◌,
}
use Prim.Native.String.{◌++◌ as append}
use signal_ledger_project.Prelude.Strings.{join, trim_space}
use signal_ledger_project.Domain.Research.{Time, StoredClaim}
use signal_ledger_project.Domain.Backtest.{RawMessage, BacktestRun, CreateBacktestInput}
use signal_ledger_project.Domain.Records.{Job, Strategy, MarketDataSnapshot}
use signal_ledger_project.Strategies.Spec.{Spec}
use signal_ledger_project.Strategies.Universe.{universe_symbols, missing_symbols}
use signal_ledger_project.Store.Base.{Error, Result, ok, err}
use signal_ledger_project.Store.Tables.{Db}
use signal_ledger_project.Store.Postgres.{Postgres}
use signal_ledger_project.Store.Backtests.{create_backtest_with_run_job, is_none}
use signal_ledger_project.Store.Snapshots.{get_market_data_snapshot}
use signal_ledger_project.Store.Strategies.{get_strategy_with_citations}
use signal_ledger_project.Worker.Effects.{World, call, query}
use signal_ledger_project.Http.{
  Request, Response, write_json, write_error, method_not_allowed, valid_uuid, is_not_found,
}

pub record BacktestRequestBody : Type 0 where
  pub strategy_id : String
  pub snapshot_id : String
  pub document_cutoff_at : String
  pub parameters : RawMessage

pub record BacktestResponse : Type 0 where
  pub id : String
  pub status : String
  pub strategy_id : String
  pub market_data_snapshot_id : String
  pub document_cutoff_at : Time
  pub summary : Option RawMessage
  pub engine_version : Option String
  pub result_artifact_key : Option String
  pub result_checksum : Option String
  pub job_id : String
  pub created_at : Time
  pub completed_at : Option Time

abbrev pub job_id_of : Option Job → String
job_id_of none = ""
job_id_of (some job) = job.id

-- backtestResponseFrom
unfoldable pub backtest_response_from : BacktestRun → Option Job → BacktestResponse
backtest_response_from run job = record {
  id = run.id;
  status = run.status;
  strategy_id = run.strategy_id;
  market_data_snapshot_id = run.market_data_snapshot_id;
  document_cutoff_at = run.document_cutoff_at;
  summary = if run.summary == "" || run.summary == "{}" then none else some run.summary;
  engine_version = run.engine_version;
  result_artifact_key = run.result_artifact_key;
  result_checksum = run.result_checksum;
  job_id = job_id_of job;
  created_at = run.created_at;
  completed_at = run.completed_at;
}

-- What the handler is given: whether the services are there, the decoders, and the ids and the time of
-- the database.
pub record Given (F : Type 0) : Type 0 where
  pub configured : Bool
  pub postgres : Postgres F
  pub decode : String → Option BacktestRequestBody
  pub parse_time : String → Option Time
  pub decode_spec : RawMessage → Option (Spec F)
  pub json_valid : RawMessage → Bool
  pub by_effect : List (StoredClaim F) → List (StoredClaim F)
  pub run_id : String
  pub job_id : String
  pub db_now : Time

abbrev pub regrouped : {A B C : Type 0} → Result (A × B × C) → Result ((A × B) × C)
regrouped (ok (a, b, c)) = ok ((a, b), c)
regrouped (err e) = err e

abbrev pub strategy_refusal : Error → Response BacktestResponse
strategy_refusal e =
    if is_not_found e
    then write_error 404 "strategy_not_found" "strategy was not found"
    else write_error 500 "strategy_lookup_failed" "could not load strategy"

abbrev pub snapshot_refusal : Error → Response BacktestResponse
snapshot_refusal e =
    if is_not_found e
    then write_error 404 "snapshot_not_found" "market-data snapshot was not found"
    else write_error 500 "snapshot_lookup_failed" "could not load snapshot"

module _ {F : Type 0} (given : Given F) where
  abbrev pub Answer : Type 0
  Answer = Response BacktestResponse × World F

  abbrev pub run_created : Result (BacktestRun × Job) × World F → Answer
  run_created (ok (run, job), world) =
      (write_json 202 (backtest_response_from run (some job)), world)
  run_created (err e, world) =
      (write_error 500 "backtest_create_failed" "could not create backtest", world)

  abbrev pub input_of : BacktestRequestBody → Time → CreateBacktestInput
  input_of body cutoff = record {
    strategy_id = body.strategy_id;
    snapshot_id = body.snapshot_id;
    document_cutoff_at = cutoff;
    parameters = body.parameters;
  }

  abbrev pub create_run : CreateBacktestInput → Db F → Result ((BacktestRun × Job) × Db F)
  create_run input db = regrouped (
      create_backtest_with_run_job given.postgres given.json_valid given.run_id given.job_id
        given.db_now input db)

  -- By the symbols that the snapshot lacks.
  abbrev pub if_covered : CreateBacktestInput → List String → World F → Answer
  if_covered input [] world = run_created (call (create_run input) world)
  if_covered input (symbol ∷ missing) world = (
    write_error 409 "snapshot_universe_mismatch" (
        append "market-data snapshot does not cover the strategy universe; missing: "
          (join (symbol ∷ missing) ", ")),
    world,
  )

  -- By the universe of the strategy.
  abbrev pub with_universe :
      CreateBacktestInput → MarketDataSnapshot → Option (List String) → World F → Answer
  with_universe input snapshot none world =
      (write_error 500 "strategy_spec_unreadable" "could not read the strategy spec", world)
  with_universe input snapshot (some universe) world =
      if_covered input (missing_symbols universe snapshot.symbols) world

  -- By what the reading of the snapshot returned.
  abbrev pub with_snapshot :
      CreateBacktestInput → Strategy → Result MarketDataSnapshot × World F → Answer
  with_snapshot input strategy (err e, world) = (snapshot_refusal e, world)
  with_snapshot input strategy (ok snapshot, world) =
      if is_none snapshot.storage_key || is_none snapshot.checksum
      then (write_error 409 "snapshot_not_ready" "market-data snapshot is not ready yet", world)
      else with_universe input snapshot (universe_symbols given.decode_spec strategy.spec) world

  -- By what the reading of the strategy returned.
  abbrev pub with_strategy :
      CreateBacktestInput → Result (Strategy × List (StoredClaim F)) × World F → Answer
  with_strategy input (err e, world) = (strategy_refusal e, world)
  with_strategy input (ok (strategy, citations), world) =
      with_snapshot input strategy (query (get_market_data_snapshot input.snapshot_id) world)

  abbrev pub with_cutoff : BacktestRequestBody → Option Time → World F → Answer
  with_cutoff body none world =
      (write_error 400 "invalid_cutoff" "document_cutoff_at must use RFC3339 format", world)
  with_cutoff body (some cutoff) world =
      with_strategy (input_of body cutoff)
        (query (get_strategy_with_citations given.by_effect body.strategy_id) world)

  abbrev pub with_body : Option BacktestRequestBody → World F → Answer
  with_body none world =
      (write_error 400 "invalid_request" "request body must be a valid backtest request", world)
  with_body (some body) world =
      if not (valid_uuid body.strategy_id)
      then (write_error 400 "invalid_strategy_id" "strategy_id must be a UUID", world)
      else if not (valid_uuid body.snapshot_id)
      then (write_error 400 "invalid_snapshot_id" "market_data_snapshot_id must be a UUID", world)
      else with_cutoff body (given.parse_time (trim_space body.document_cutoff_at)) world

  -- backtests
  unfoldable pub backtests : Request → World F → Answer
  backtests request world =
      if not (request.method == "POST")
      then (method_not_allowed "POST", world)
      else if not given.configured
      then (
        write_error 503 "backtest_service_unavailable" "backtest service is not configured",
        world,
      )
      else with_body (given.decode request.body) world
