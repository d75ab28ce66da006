-- ===== src/Worker/Backtesting/Authorized.antt =====
-- What a backtest job that succeeds has stored.
use signal_ledger_project.Prelude.{
  String, ◌≡◌, ◌≢◌, refl, ap, subst, Bool, true, false, List, [], ◌∷◌, map, arith, keep, leb,
  Option-cases, some, if◌then◌else◌, In, inl, inr,
}
use signal_ledger_project.Domain.Backtest.{
  RawMessage, ClaimSignal, BacktestRun, BacktestRequest, BacktestResult,
}
use signal_ledger_project.Domain.Candidate.{symbols}
use signal_ledger_project.Domain.Records.{Job, Strategy}
use signal_ledger_project.Domain.Research.{Time, StoredClaim}
use signal_ledger_project.Strategies.Universe.{
  universe_symbols, missing_symbols, missing_symbols-nil,
}
use signal_ledger_project.Store.Base.{Error, Result, ok}
use signal_ledger_project.Store.Strategies.{get_strategy_with_citations}
use signal_ledger_project.Store.Snapshots.{get_market_data_snapshot}
use signal_ledger_project.Store.Backtests.{of_run, set_backtest_status, complete_backtest}
use signal_ledger_project.Store.Backtests.Completion.{complete-symbols}
use signal_ledger_project.Worker.Effects.{
  World, Step, give, fail, ◌>>=◌, ◌>>◌, rescue, query, command, lift, bind-ok, rescue-ok, query-ok,
  command-ok,
}
use signal_ledger_project.Worker.Process.{
  Options, refuse_any, fail_if_terminal, backtest_signals, ready, authorized, request_of,
}
use signal_ledger_project.Worker.Backtesting.{check, engage, compute}

module _ {F : Type 0} (options : Options F) where
  fail-not-ok :
      {A : Type 0} (job : Job) (id : String) (a : A) (cause : Error) (w : World F)
      → (fail_if_terminal options job id cause w).0 ≢ ok a
  unfolding fail_if_terminal
  fail-not-ok {A = A} job id a cause w = never (leb job.max_attempts job.attempts)
    where
      marked : Step F (Unit {0})
      marked = rescue (command (set_backtest_status id "failed")) (λ _. give tt)

      refused :
          (t : Unit {0}) × (between : World F) × (marked w ≡ (ok t, between))
            × (fail {A = A} cause between ≡ (ok a, ((marked >>= λ _. fail {A = A} cause) w).1))
          → ⊥
      refused k = cc (k.3)

      never : (b : Bool) → ((if b then marked >> fail cause else fail cause) w).0 ≢ ok a
      never false = λ h. cc
      never true = λ h. refused (
          bind-ok marked (λ _. fail cause) w ((marked >>= λ _. fail {A = A} cause) w).1 a
            (ap (λ r. (r, ((marked >>= λ _. fail {A = A} cause) w).1)) h))

  step-ok :
      {A B : Type 0} (job : Job) (id : String) (m : Step F A) (k : A → Step F B) (w after : World F)
      (b : B)
      → (check options job id m >>= k) w ≡ (ok b, after)
      → (a : A) × (between : World F) × (m w ≡ (ok a, between)) × (k a between ≡ (ok b, after))
  step-ok job id m k w after b h =
      let s = bind-ok (check options job id m) k w after b h in
      (
        s.0,
        s.1,
        rescue-ok m (fail_if_terminal options job id) w s.1 s.0 (fail-not-ok job id s.0) s.2,
        s.3,
      )

  authorized-ok :
      (proposed universe : List String)
      → authorized options proposed universe ≡ ok tt
      → (a : String) → In a proposed
      → In a universe
  unfolding authorized
  authorized-ok proposed universe h =
      (missing_symbols-nil proposed universe).0 (empty (missing_symbols proposed universe) h)
    where
      empty : (xs : List String) → refuse_any xs ≡ ok tt → xs ≡ []
      empty [] e = refl
      empty (x ∷ xs) e = cc

  -- The signals come with the universe that the spec decodes to.
  backtest_signals-ok :
      (raw : RawMessage) (citations : List (StoredClaim F)) (cutoff : Time)
      (traded : List (ClaimSignal F) × List String)
      → backtest_signals options raw citations cutoff ≡ ok traded
      → universe_symbols options.decode_spec raw ≡ some traded.1
  unfolding backtest_signals
  backtest_signals-ok raw citations cutoff traded h =
      elim (Option-cases (universe_symbols options.decode_spec raw)) [
        | inl n ↦ ground (arith, n)
        | inr u ↦ ground (arith, u.1)
      ]

  module _ (engine : BacktestRequest F → Result (BacktestResult F)) (save : String → Result String)
      (job : Job) (id : String) (run : BacktestRun) (w after : World F) where
    engage-inside :
        (request : BacktestRequest F) (universe : List String)
        → engage options engine save job id run request universe w ≡ (ok tt, after)
        → (symbol : String)
        → In symbol (map (λ row. row.symbol) (keep (of_run run.id) after.db.candidates))
        → In symbol universe
    unfolding engage
    engage-inside request universe h symbol m =
        let e = step-ok job id (command (set_backtest_status run.id "running")) _ w after tt h in
        let f = step-ok job id (lift (engine request)) _ e.1 after tt e.3 in
        let g =
          step-ok job id (lift (authorized options (symbols f.0.candidates) universe)) _ f.1 after
            tt f.3 in
        let k = step-ok job id (lift (save f.0.equity_curve_csv)) _ g.1 after tt g.3 in
        let complete =
          complete_backtest options.float options.postgres options.fresh_candidate options.db_now
            run.id f.0 k.0 in
        let stored = command-ok complete k.1 after (
          rescue-ok (command complete) (fail_if_terminal options job id) k.1 after tt
            (fail-not-ok job id tt) k.3) in
        authorized-ok (symbols f.0.candidates) universe (ap (λ r. r.0) g.2) symbol (
          subst (In symbol)
            (complete-symbols options.float options.postgres options.fresh_candidate options.db_now
              run.id f.0 k.0 k.1.db after.db stored)
            m)

  module _ (engine : BacktestRequest F → Result (BacktestResult F)) (save : String → Result String)
      (job : Job) (id : String) (run : BacktestRun) (w after : World F) where
    -- The strategy that the run tests, its universe, and where the stored symbols stand.
    pub record Authorized : Type 0 where
      pub strategy : Strategy
      pub citations : List (StoredClaim F)
      pub universe : List String
      pub tested :
          get_strategy_with_citations options.by_effect run.strategy_id w.db
          ≡ ok (strategy, citations)
      pub decoded : universe_symbols options.decode_spec strategy.spec ≡ some universe
      pub inside :
          (symbol : String)
          → In symbol (map (λ row. row.symbol) (keep (of_run run.id) after.db.candidates))
          → In symbol universe

    -- When a backtest job succeeds on a run that was not completed, every candidate stored for the run
    -- has a symbol of the universe that the spec of the run's strategy names, whatever the engine
    -- proposed and whatever calls failed.
    pub compute-Authorized : compute options engine save job id run w ≡ (ok tt, after) → Authorized
    unfolding compute
    compute-Authorized h =
        let a =
          step-ok job id (query (get_strategy_with_citations options.by_effect run.strategy_id)) _ w
            after tt h in
        let b =
          step-ok job id (query (get_market_data_snapshot run.market_data_snapshot_id)) _ a.1 after
            tt a.3 in
        let c = step-ok job id (lift (ready options b.0)) _ b.1 after tt b.3 in
        let d =
          step-ok job id (lift (backtest_signals options a.0.0.spec a.0.1 run.document_cutoff_at)) _
            c.1 after tt c.3 in
        record {
          strategy = a.0.0;
          citations = a.0.1;
          universe = d.0.1;
          tested =
              (query-ok (get_strategy_with_citations options.by_effect run.strategy_id) w a.1 a.0
                a.2).0;
          decoded = backtest_signals-ok a.0.0.spec a.0.1 _ d.0 (ap (λ r. r.0) d.2);
          inside =
              engage-inside engine save job id run d.1 after
                (request_of options a.0.0 c.0 run d.0.0) d.0.1 d.3;
        }
