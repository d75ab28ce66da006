-- ===== src/Worker/Backtesting.antt =====
-- processBacktest, process and runOne of internal/jobs/worker.go.
pub mod Authorized
pub mod Terminal
use signal_ledger_project.Prelude.{
  ℕ, String, ◌≡◌, refl, Bool, true, false, Option, none, some, List, [], ◌∷◌, ◌==◌, ◌&&◌, not,
  if◌then◌else◌,
}
use signal_ledger_project.Prelude.Int.{ℤ}
use signal_ledger_project.Domain.Backtest.{BacktestRun, BacktestRequest, BacktestResult}
use signal_ledger_project.Domain.Candidate.{symbols}
use signal_ledger_project.Domain.Records.{Job}
use signal_ledger_project.Store.Base.{Error, Result, ok, err, not_configured, unsupported_job}
use signal_ledger_project.Store.Tables.{Db}
use signal_ledger_project.Store.Jobs.{Rows, lease_next_job, complete_job, fail_job}
use signal_ledger_project.Store.Documents.{set_document_status}
use signal_ledger_project.Store.Strategies.{get_strategy_with_citations}
use signal_ledger_project.Store.Snapshots.{get_market_data_snapshot}
use signal_ledger_project.Store.Backtests.{get_backtest_run, set_backtest_status, complete_backtest}
use signal_ledger_project.Worker.Effects.{
  World, Step, give, fail, ◌>>=◌, ◌>>◌, rescue, call, query, command, lift,
}
use signal_ledger_project.Worker.Process.{
  Options, payload_id, extract_document, process_market_data, fail_if_terminal, backtest_signals,
  ready, authorized, request_of,
}

module _ {F : Type 0} (options : Options F) where
  -- An error returns through failIfTerminal.
  abbrev pub check : Job → String → {A : Type 0} → Step F A → Step F A
  check job id m = rescue m (fail_if_terminal options job id)

  -- processBacktest from the status `running` on.
  unfoldable pub engage :
      (BacktestRequest F → Result (BacktestResult F))
      → (String → Result String)
      → Job
      → String
      → BacktestRun
      → BacktestRequest F
      → List String
      → Step F (Unit {0})
  engage engine save job id run request universe = do
    check job id (command (set_backtest_status run.id "running"))
    result ← check job id (lift (engine request))
    check job id (lift (authorized options (symbols result.candidates) universe))
    key ← check job id (lift (save result.equity_curve_csv))
    check job id (
        command (
          complete_backtest options.float options.postgres options.fresh_candidate options.db_now
            run.id result key))

  -- The rest of processBacktest, for a run that is not completed.
  unfoldable pub compute :
      (BacktestRequest F → Result (BacktestResult F))
      → (String → Result String)
      → Job
      → String
      → BacktestRun
      → Step F (Unit {0})
  compute engine save job id run = do
    cited ← check job id (query (get_strategy_with_citations options.by_effect run.strategy_id))
    snapshot ← check job id (query (get_market_data_snapshot run.market_data_snapshot_id))
    stored ← check job id (lift (ready options snapshot))
    traded ←
        check job id (lift (backtest_signals options cited.0.spec cited.1 run.document_cutoff_at))
    engage engine save job id run (request_of options cited.0 stored run traded.0) traded.1

  unfoldable pub backtest :
      (BacktestRequest F → Result (BacktestResult F))
      → (String → Result String)
      → Job
      → String
      → Step F (Unit {0})
  backtest engine save job id = do
    run ← check job id (query (get_backtest_run id))
    if run.status == "completed" then give tt else compute engine save job id run

  -- processBacktest
  unfoldable pub process_backtest : Job → Step F (Unit {0})
  process_backtest job = elim options.run_backtest [
    | none ↦ fail not_configured
    | some engine ↦ elim options.save_artifact [
      | none ↦ fail not_configured
      | some save ↦ do id ← lift (payload_id options "backtest_id" job); backtest engine save job id
    ]
  ]

  -- processExtraction, with the id that it returns next to its error.
  unfoldable pub process_extraction : Job → World F → String × (Result (Unit {0}) × World F)
  process_extraction job world = elim (payload_id options "document_id" job) [
    | err e ↦ ("", (err e, world))
    | ok id ↦ (id, extract_document options id world)
  ]

  -- process: the document of an extraction, and the outcome.
  unfoldable pub process : Job → World F → String × (Result (Unit {0}) × World F)
  process job world =
      if job.job_type == "extract_document"
      then process_extraction job world
      else if job.job_type == "fetch_market_data"
      then ("", process_market_data options job world)
      else if job.job_type == "run_backtest"
      then ("", process_backtest job world)
      else ("", (err unsupported_job, world))

  abbrev leased_job : Db F → Result (Option Job × Db F)
  leased_job db =
      let taken =
        lease_next_job options.locked options.db_now options.worker_now options.worker_id
          options.lease_duration db.jobs in
      ok (taken.0, record db { jobs = taken.1 })

  abbrev with_jobs : Db F → Result Rows → Result (Db F)
  with_jobs db (ok jobs) = ok (record db { jobs = jobs })
  with_jobs db (err e) = err e

  abbrev completed_job : String → Db F → Result (Db F)
  completed_job id db = with_jobs db (complete_job id db.jobs)

  abbrev with_released : Db F → Result (Bool × Rows) → Result (Bool × Db F)
  with_released db (ok (terminal, jobs)) = ok (terminal, record db { jobs = jobs })
  with_released db (err e) = err e

  abbrev failed_job : Job → Error → Db F → Result (Bool × Db F)
  failed_job job cause db =
      with_released db (
        fail_job options.postgres.accepts options.worker_now job (options.error_text cause) db.jobs)

  unfoldable pub note_failure : String → Bool → Step F (Unit {0})
  note_failure document_id terminal =
      if terminal && not (document_id == "")
      then command (set_document_status document_id "failed")
      else give tt

  -- What runOne does with the outcome of `process`.
  unfoldable pub conclude : Job → String → Result (Unit {0}) → Step F Bool
  conclude job document_id (ok _) = command (completed_job job.id) >> give true
  conclude job document_id (err cause) = do
    terminal ← call (failed_job job cause)
    note_failure document_id terminal >> give true

  -- runOne: whether a job was there. (An error of runOne is only logged.)
  unfoldable pub run_one : Step F Bool
  run_one = call leased_job >>= λ taken. elim taken [
    | none ↦ give false
    | some job ↦ λ world. let done = process job world in conclude job done.0 (done.1.0) (done.1.1)
  ]
