-- ===== src/Examples/Backtests.antt =====
-- A run of a strategy with one claim, from the job to the ranking.
use signal_ledger_project.Prelude.{
  ℕ, String, In, ◌==◌, eq_iff, sym, ◌∙◌, ◌≡◌, ◌≢◌, refl, true, false, none, some, [], ◌∷◌, keep,
  first, update_where, count_where, contains,
}
use signal_ledger_project.Prelude.Int.{pos}
use signal_ledger_project.Prelude.Sorting.{insertion_sorter}
use signal_ledger_project.Domain.Backtest.{BacktestRun}
use signal_ledger_project.Domain.Candidate.{symbols, validate_set, check_positions}
use signal_ledger_project.Domain.Records.{Job}
use signal_ledger_project.Store.Base.{ok, err, unavailable}
use signal_ledger_project.Store.Tables.{Db, CandidateRow}
use signal_ledger_project.Store.Strategies.{get_strategy_with_citations, citations_of}
use signal_ledger_project.Store.Snapshots.{get_market_data_snapshot}
use signal_ledger_project.Store.Backtests.{
  attach, candidate_row, attribute, completed_run, complete_backtest, insert_candidates,
  insert_positions, run_is, set_backtest_status, valid_backtest_status,
}
use signal_ledger_project.Store.Backtests.Completion.{
  Ranked, IsRanking, complete-IsRanking, complete-Ranked,
}
use signal_ledger_project.Store.Backtests.Histories.{complete-once}
use signal_ledger_project.Store.Backtests.Histories.Since.{start, marking}
use signal_ledger_project.Strategies.Universe.{universe_symbols, missing_symbols, missing_from}
use signal_ledger_project.Worker.Process.{Options, ready, backtest_signals, authorized}
use signal_ledger_project.Worker.Backtesting.{backtest, compute, engage}
use signal_ledger_project.Worker.Backtesting.Terminal.{marked_failed, fault_fails_run}
use signal_ledger_project.Worker.Backtesting.Authorized.{Authorized, compute-Authorized}
use signal_ledger_project.Examples.Data.{
  postgres, thousandths, testing, run, position, result, spec,
}

abbrev row : CandidateRow ℕ
row = candidate_row postgres "k1" run (pos 19) position

abbrev finished : BacktestRun
finished = completed_run (pos 21) "{}" "artifact" "sum" "v4" run

abbrev completed : Db ℕ
completed = record testing {
  runs = finished ∷ [];
  candidates = row ∷ [];
  attributions = attribute "k1" (record { claim_id = "c1"; contribution = 800 }) ∷ [];
}

complete :
    complete_backtest thousandths postgres (λ n. "k1") (pos 21) "r1" result "artifact" testing
    ≡ ok completed
unfolding complete_backtest validate_set check_positions insert_candidates insert_positions attach
    first update_where count_where contains keep
complete = refl

-- After it, the run is marked failed, and another one is created.
abbrev marked : Db ℕ
marked = record completed { runs = record finished { status = "failed" } ∷ [] }

marks : set_backtest_status "r1" "failed" completed ≡ ok marked
unfolding set_backtest_status valid_backtest_status update_where count_where
marks = refl

not_reopened : (status : String) → status ≡ "failed" → (status ≢ "queued") × (status ≢ "running")
not_reopened status e = (
  λ q. let t : ("failed" == "queued") ≡ true = (eq_iff _ _).1 (sym e ∙ q) in cc,
  λ q. let t : ("failed" == "running") ≡ true = (eq_iff _ _).1 (sym e ∙ q) in cc,
)

complete-once_example :
    complete_backtest thousandths postgres (λ n. "k2") (pos 30) "r1" result "other" marked
    ≢ ok testing
complete-once_example =
    complete-once "r1" thousandths postgres (λ n. "k1") (pos 21) result "artifact" testing completed
      complete marked (marking start "r1" "failed" (λ e. not_reopened "failed" refl) marks)
      (λ n. "k2") (pos 30) result "other" testing

-- Set back to running, the run is completed a second time.
abbrev reopened : Db ℕ
reopened = record completed { runs = record finished { status = "running" } ∷ [] }

reopens : set_backtest_status "r1" "running" completed ≡ ok reopened
unfolding set_backtest_status valid_backtest_status update_where count_where
reopens = refl

completes_twice :
    complete_backtest thousandths postgres (λ n. "k1") (pos 21) "r1" result "artifact" reopened
    ≡ ok completed
unfolding complete_backtest validate_set check_positions insert_candidates insert_positions attach
    first update_where count_where contains keep
completes_twice = refl

complete-IsRanking_example :
    (t : BacktestRun) × In t testing.runs
    × (t.id ≡ "r1")
    × IsRanking t.id t.strategy_id
        (pos 19)
        (keep (λ r. r.backtest_run_id == "r1") completed.candidates)
        (position ∷ [])
    × ((run_id : String)
        → run_id ≢ "r1"
        → keep (λ r. r.backtest_run_id == run_id) completed.candidates
          ≡ keep (λ r. r.backtest_run_id == run_id) testing.candidates)
complete-IsRanking_example =
    complete-IsRanking thousandths postgres (λ n. "k1") (pos 21) "r1" result "artifact" testing
      completed complete

none-Ranked : Ranked testing
none-Ranked t h = absurd h

complete-Ranked_example : Ranked completed
complete-Ranked_example =
    complete-Ranked thousandths postgres (λ n. "k1") (pos 21) "r1" result "artifact" testing
      completed none-Ranked complete

abbrev options : Options ℕ
options = record {
  float = thousandths;
  postgres = postgres;
  sorter = insertion_sorter;
  by_effect = λ claims. claims;
  extract_claims = λ document. err unavailable;
  fetch_snapshot = none;
  run_backtest = some (λ request. ok result);
  save_artifact = some (λ csv. ok "artifact");
  worker_id = "w";
  lease_duration = 60;
  text_field = λ field payload. some payload;
  decode_request = λ payload. none;
  decode_spec = λ raw. some spec;
  error_text = λ e. [];
  locked = λ id. false;
  db_now = pos 21;
  worker_now = pos 21;
  fresh_page = λ n. "p";
  fresh_claim = λ n. "c";
  fresh_candidate = λ n. "k1";
}

abbrev job : Job
job = record {
  id = "j1";
  job_type = "run_backtest";
  payload = "r1";
  attempts = 1;
  max_attempts = 3;
}

compute_completes :
    compute options
      (λ request. ok result)
      (λ csv. ok "artifact")
      job
      "r1"
      run
      (record { db = testing; faults = [] })
    ≡ (ok tt, record { db = completed; faults = [] })
unfolding compute engage get_strategy_with_citations citations_of get_market_data_snapshot ready
    backtest_signals universe_symbols authorized missing_symbols missing_from symbols
    set_backtest_status valid_backtest_status complete_backtest validate_set check_positions
    insert_candidates insert_positions attach first update_where count_where contains keep
compute_completes = refl

compute-Authorized_example :
    Authorized options
      (λ request. ok result)
      (λ csv. ok "artifact")
      job
      "r1"
      run
      (record { db = testing; faults = [] })
      (record { db = completed; faults = [] })
compute-Authorized_example =
    compute-Authorized options (λ request. ok result) (λ csv. ok "artifact") job "r1" run
      (record { db = testing; faults = [] }) (record { db = completed; faults = [] })
      compute_completes

abbrev last_job : Job
last_job = record job { attempts = 3 }

one_run : count_where (run_is "r1") completed.runs ≡ 1
unfolding count_where
one_run = refl

fault_fails_run_example :
    backtest options
      (λ request. ok result)
      (λ csv. ok "artifact")
      last_job
      "r1"
      (record { db = completed; faults = true ∷ [] })
    ≡ (err unavailable, record { db = marked_failed options "r1" completed; faults = [] })
fault_fails_run_example =
    fault_fails_run options (λ request. ok result) (λ csv. ok "artifact") last_job "r1" completed
      refl one_run
