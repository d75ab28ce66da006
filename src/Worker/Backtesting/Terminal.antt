-- ===== src/Worker/Backtesting/Terminal.antt =====
-- The last attempt of a backtest job.
use signal_ledger_project.Prelude.{
  String, ◌≡◌, refl, ap, true, [], ◌∷◌, eqb, leb, count_where, update_where,
}
use signal_ledger_project.Domain.Backtest.{BacktestRequest, BacktestResult}
use signal_ledger_project.Domain.Records.{Job}
use signal_ledger_project.Store.Base.{Result, ok, err, unavailable, require, ◌>>◌, not_found}
use signal_ledger_project.Store.Tables.{Db}
use signal_ledger_project.Store.Backtests.{
  run_is, with_status, set_backtest_status, valid_backtest_status,
}
use signal_ledger_project.Worker.Process.{Options, fail_if_terminal}
use signal_ledger_project.Worker.Backtesting.{backtest}

module _ {F : Type 0} (options : Options F) where
  -- The tables with the run's status replaced by `failed`.
  abbrev pub marked_failed : String → Db F → Db F
  marked_failed id db = record db { runs = update_where (run_is id) (with_status "failed") db.runs }

  set_failed :
      (id : String) (db : Db F)
      → count_where (run_is id) db.runs ≡ 1
      → set_backtest_status id "failed" db ≡ ok (marked_failed id db)
  unfolding set_backtest_status valid_backtest_status
  set_failed id db e = ap (λ t. require (eqb t 1) not_found >> ok (marked_failed id db)) e

  -- When the retry budget is used up and the first query of a backtest job fails, the job fails with
  -- that error and the run is marked failed, whatever its status was: also when it is completed.
  pub fault_fails_run :
      (engine : BacktestRequest F → Result (BacktestResult F)) (save : String → Result String)
      (job : Job) (id : String) (db : Db F)
      → leb job.max_attempts job.attempts ≡ true
      → count_where (run_is id) db.runs ≡ 1
      → backtest options engine save job id (record { db = db; faults = true ∷ [] })
        ≡ (err unavailable, record { db = marked_failed id db; faults = [] })
  unfolding backtest fail_if_terminal
  fault_fails_run engine save job id db last one = rw (last, set_failed id db one) refl
