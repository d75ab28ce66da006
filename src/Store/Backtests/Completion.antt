-- ===== src/Store/Backtests/Completion.antt =====
-- What completing a run promises of the rankings.
use signal_ledger_project.Prelude.{
  ℕ, suc, String, ◌≡◌, ◌≢◌, refl, sym, ap, ◌∙◌, subst, not, some, List, [], ◌∷◌, ◌++◌, map, arith,
  ◌==◌, eq_iff, keep, if◌then◌else◌, In, In-append_cases, In-of_keep, inl, inr, first-passes,
  In-update_where,
}
use mathlib.Core.List.{append-nil}
use signal_ledger_project.Prelude.Float.{Float}
use signal_ledger_project.Domain.Research.{Time}
use signal_ledger_project.Domain.Backtest.{BacktestRun, BacktestResult}
use signal_ledger_project.Domain.Candidate.{CandidatePosition, symbols}
use signal_ledger_project.Store.Base.{ok}
use signal_ledger_project.Store.Tables.{Db, CandidateRow}
use signal_ledger_project.Store.Postgres.{Postgres}
use signal_ledger_project.Store.Backtests.{of_run, in_progress, completed_run, complete_backtest}
use signal_ledger_project.Store.Backtests.Rankings.{
  ranking_rows, ranking_rows-symbols, keep-ranking_rows, keep-append, keep-not, complete-Completed,
}

keep-other :
    (a b : String) {F : Type 0} (rows : List (CandidateRow F))
    → a ≢ b
    → keep (of_run a) (keep (λ row. not (of_run b row)) rows) ≡ keep (of_run a) rows
unfolding keep
keep-other a b [] ne = refl
keep-other a b (row ∷ rows) ne =
    ground
      (arith, keep-other a b rows ne, eq_iff row.backtest_run_id a, eq_iff row.backtest_run_id b)

none_kept :
    {F : Type 0} (pg : Postgres F) (fresh : ℕ → String) (run_id : String) (run : BacktestRun)
    → run_id ≢ run.id
    → (as_of : Time) (index : ℕ) (positions : List (CandidatePosition F))
    → keep (of_run run_id) (ranking_rows pg fresh run as_of index positions) ≡ []
unfolding keep
none_kept pg fresh run_id run ne as_of index [] = refl
none_kept pg fresh run_id run ne as_of index (p ∷ ps) =
    ground (arith, none_kept pg fresh run_id run ne as_of (suc index) ps, eq_iff run.id run_id)

ranking_rows-run :
    {F : Type 0} (pg : Postgres F) (fresh : ℕ → String) (run : BacktestRun) (as_of : Time)
    (index : ℕ) (positions : List (CandidatePosition F)) (row : CandidateRow F)
    → In row (ranking_rows pg fresh run as_of index positions)
    → row.backtest_run_id ≡ run.id
ranking_rows-run pg fresh run as_of index [] row h = absurd h
ranking_rows-run pg fresh run as_of index (p ∷ ps) row (inl e) = ap (λ r. r.backtest_run_id) e
ranking_rows-run pg fresh run as_of index (p ∷ ps) row (inr h) =
    ranking_rows-run pg fresh run as_of (suc index) ps row h

-- A row has what the engine proposed for a position.
pub record IsPosition {F : Type 0} (run_id strategy_id : String) (date : Time)
    (row : CandidateRow F) (position : CandidatePosition F) : Type 0 where
  pub run : row.backtest_run_id ≡ run_id
  pub strategy : row.strategy_id ≡ strategy_id
  pub dated : row.as_of ≡ date
  pub symbol : row.symbol ≡ position.symbol
  pub rank : row.rank ≡ position.rank
  pub weight : row.weight ≡ position.weight
  pub score : row.score ≡ position.score
  pub momentum : row.momentum ≡ position.momentum
  pub momentum_rank : row.momentum_rank ≡ some position.momentum_rank
  pub claim_support : row.claim_support ≡ position.claim_support

-- The rows are those of the positions, one for one.
abbrev pub IsRanking :
    {F : Type 0}
    → String
    → String
    → Time
    → List (CandidateRow F)
    → List (CandidatePosition F)
    → Type 0
IsRanking run_id strategy_id date [] [] = Unit
IsRanking run_id strategy_id date (row ∷ rows) (position ∷ positions) =
    IsPosition run_id strategy_id date row position
    × IsRanking run_id strategy_id date rows positions
IsRanking run_id strategy_id date _ _ = ⊥

ranking_rows-IsRanking :
    {F : Type 0} (pg : Postgres F) (fresh : ℕ → String) (run : BacktestRun) (as_of : Time)
    (index : ℕ) (positions : List (CandidatePosition F))
    → IsRanking run.id run.strategy_id
        (pg.date as_of)
        (ranking_rows pg fresh run as_of index positions)
        positions
ranking_rows-IsRanking pg fresh run as_of index [] = tt
ranking_rows-IsRanking pg fresh run as_of index (p ∷ ps) = (
  record {
    run = refl;
    strategy = refl;
    dated = refl;
    symbol = refl;
    rank = refl;
    weight = refl;
    score = refl;
    momentum = refl;
    momentum_rank = refl;
    claim_support = refl;
  },
  ranking_rows-IsRanking pg fresh run as_of (suc index) ps,
)

-- Every candidate belongs to a completed run.
abbrev pub Ranked : {F : Type 0} → Db F → Type 0
Ranked {F = F} db =
    (row : CandidateRow F)
    → In row db.candidates
    → (run : BacktestRun) × In run db.runs
      × (run.id ≡ row.backtest_run_id)
      × (run.status ≡ "completed")

module _ {F : Type 0} (fl : Float F) (pg : Postgres F) (fresh : ℕ → String) (db_now : Time)
    (id : String) (result : BacktestResult F) (artifact_key : String) (db after : Db F) where
  -- The rows of the run are those of the ranking; those of other runs are as they were.
  pub record IsStored : Type 0 where
    pub run : BacktestRun
    pub inside : In run db.runs
    pub named : run.id ≡ id
    pub rows :
        keep (of_run id) after.candidates
        ≡ ranking_rows pg fresh run result.candidates.as_of 0 result.candidates.positions
    pub others :
        (run_id : String)
        → run_id ≢ id
        → keep (of_run run_id) after.candidates ≡ keep (of_run run_id) db.candidates

  complete-IsStored :
      complete_backtest fl pg fresh db_now id result artifact_key db ≡ ok after → IsStored
  complete-IsStored h =
      let c = complete-Completed fl pg fresh db_now id result artifact_key db after h in
      let found = first-passes (in_progress id) c.run db.runs c.found in
      let named : c.run.id ≡ id = ground (arith, found.1, eq_iff c.run.id id) in
      let new = ranking_rows pg fresh c.run result.candidates.as_of 0 result.candidates.positions in
      record {
        run = c.run;
        inside = found.0;
        named = named;
        rows =
            ap (λ t. keep (of_run t) after.candidates) (sym named)
            ∙ ap (keep (of_run c.run.id)) c.candidates
            ∙ keep-append (of_run c.run.id) _ new
            ∙ ap (λ t. t ++ keep (of_run c.run.id) new) (keep-not (of_run c.run.id) db.candidates)
            ∙ keep-ranking_rows pg fresh c.run _ 0 _;
        others = λ run_id ne.
            ap (keep (of_run run_id)) c.candidates
            ∙ keep-append (of_run run_id) _ new
            ∙ ap
                (λ t.
                  keep (of_run run_id) (keep (λ row. not (of_run c.run.id row)) db.candidates) ++ t)
                (none_kept pg fresh run_id c.run (λ e. ne (e ∙ named)) _ 0 _)
            ∙ append-nil _
            ∙ keep-other run_id c.run.id db.candidates (λ e. ne (e ∙ named));
      }

  -- The symbols of the run's rows are those that the engine proposed.
  pub complete-symbols :
      complete_backtest fl pg fresh db_now id result artifact_key db ≡ ok after
      → map (λ row. row.symbol) (keep (of_run id) after.candidates) ≡ symbols result.candidates
  unfolding symbols
  complete-symbols h =
      let s = complete-IsStored h in
      ap (map (λ row. row.symbol)) s.rows ∙ ranking_rows-symbols pg fresh s.run _ 0 _

  -- The rows that CompleteBacktest leaves for the run are the positions that the engine proposed, one
  -- for one and in their order, each with its symbol, rank, weight, score, momentum, momentum rank and
  -- claim support, with the run's id and strategy and the date of the ranking; nothing is left of an
  -- earlier attempt, and the other runs' rows are unchanged.
  pub complete-IsRanking :
      complete_backtest fl pg fresh db_now id result artifact_key db ≡ ok after
      → (run : BacktestRun) × In run db.runs
        × (run.id ≡ id)
        × IsRanking run.id run.strategy_id
            (pg.date result.candidates.as_of)
            (keep (λ row. row.backtest_run_id == id) after.candidates)
            result.candidates.positions
        × ((run_id : String)
            → run_id ≢ id
            → keep (λ row. row.backtest_run_id == run_id) after.candidates
              ≡ keep (λ row. row.backtest_run_id == run_id) db.candidates)
  complete-IsRanking h =
      let s = complete-IsStored h in
      (
        s.run,
        s.inside,
        s.named,
        subst
            (λ rows.
              IsRanking s.run.id s.run.strategy_id (pg.date result.candidates.as_of) rows
                result.candidates.positions)
            (sym s.rows)
            (ranking_rows-IsRanking pg fresh s.run result.candidates.as_of 0
              result.candidates.positions),
        s.others,
      )

  -- CompleteBacktest keeps the invariant that every candidate belongs to a completed run.
  pub complete-Ranked :
      Ranked db
      → complete_backtest fl pg fresh db_now id result artifact_key db ≡ ok after
      → Ranked after
  complete-Ranked r h row k =
      let c = complete-Completed fl pg fresh db_now id result artifact_key db after h in
      let finish = completed_run db_now c.summary artifact_key c.checksum result.engine_version in
      let updated : (run : BacktestRun)
          → In run db.runs
          → In (if in_progress id run then finish run else run) after.runs =
        λ run m.
          subst (λ runs. In (if in_progress id run then finish run else run) runs) (sym c.runs)
            (In-update_where (in_progress id) finish run db.runs m) in
      elim (In-append_cases row _ _ (subst (λ rows. In row rows) c.candidates k)) [
        | inl m ↦
            let old = r row (In-of_keep (λ t. not (of_run c.run.id t)) row db.candidates m).0 in
            (
              if in_progress id old.0 then finish old.0 else old.0,
              updated old.0 old.1,
              ground (arith, old.2),
              ground (arith, old.3),
            )
        | inr m ↦
            let p = first-passes (in_progress id) c.run db.runs c.found in
            (
              if in_progress id c.run then finish c.run else c.run,
              updated c.run p.0,
              ground (arith, p.1, ranking_rows-run pg fresh c.run _ 0 _ row m),
              ground (arith, p.1),
            )
      ]
