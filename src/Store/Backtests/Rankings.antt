-- ===== src/Store/Backtests/Rankings.antt =====
-- The ranking of a completed run, and the run's way to completion.
use signal_ledger_project.Prelude.{
  ℕ, suc, String, ◌≡◌, refl, sym, ap, ◌∙◌, Bool, true, false, not, none, some, List, [], ◌∷◌, ◌++◌,
  map, arith, eq_refl, keep, first, update_where, Bool-cases, inl, inr,
}
use mathlib.Core.List.{append-nil, append_assoc}
use signal_ledger_project.Prelude.Float.{Float}
use signal_ledger_project.Domain.Research.{Time}
use signal_ledger_project.Domain.Backtest.{RawMessage, BacktestRun, BacktestResult}
use signal_ledger_project.Domain.Candidate.{CandidatePosition, validate_set}
use signal_ledger_project.Store.Base.{
  ok, some_or, bind-ok, require-ok, some_or-ok, ok-injective, violated_constraint, undecodable,
  invalid_input, not_in_progress,
}
use signal_ledger_project.Store.Tables.{Db, CandidateRow, Attribution}
use signal_ledger_project.Store.Postgres.{Postgres}
use signal_ledger_project.Store.Backtests.{
  attach, candidate_row, fits, insert_positions, insert_candidates, of_run, in_progress,
  completed_run, complete_backtest, is_none, or_empty_object,
}

module _ {F : Type 0} (pg : Postgres F) (fresh : ℕ → String) where
  -- One row for each position, in the order of the ranking.
  abbrev pub ranking_rows :
      BacktestRun → Time → ℕ → List (CandidatePosition F) → List (CandidateRow F)
  ranking_rows run as_of index [] = []
  ranking_rows run as_of index (position ∷ positions) =
      candidate_row pg (fresh index) run as_of position
      ∷ ranking_rows run as_of (suc index) positions

  insert_positions-rows :
      (claims : List String) (run : BacktestRun) (as_of : Time) (index : ℕ)
      (positions : List (CandidatePosition F)) (rows : List (CandidateRow F))
      (attributions : List (Attribution F)) (stored : List (CandidateRow F) × List (Attribution F))
      → insert_positions pg fresh claims run as_of index positions (rows, attributions) ≡ ok stored
      → stored.0 ≡ rows ++ ranking_rows run as_of index positions
  unfolding insert_positions
  insert_positions-rows claims run as_of index [] rows attributions stored h =
      sym (ap (λ p. p.0) (ok-injective _ _ h)) ∙ sym (append-nil rows)
  insert_positions-rows claims run as_of index (position ∷ positions) rows attributions stored h =
      let new = candidate_row pg (fresh index) run as_of position in
      let a = require-ok (fits new rows) violated_constraint _ _ h in
      let b = bind-ok (attach claims new.id position.evidence attributions) _ _ a.1 in
      insert_positions-rows claims run as_of (suc index) positions (rows ++ new ∷ []) b.0 stored b.2
      ∙ append_assoc rows (new ∷ []) (ranking_rows run as_of (suc index) positions)

  pub ranking_rows-symbols :
      (run : BacktestRun) (as_of : Time) (index : ℕ) (positions : List (CandidatePosition F))
      → map (λ row. row.symbol) (ranking_rows run as_of index positions)
        ≡ map (λ p. p.symbol) positions
  ranking_rows-symbols run as_of index [] = refl
  ranking_rows-symbols run as_of index (p ∷ ps) =
      ap (λ t. p.symbol ∷ t) (ranking_rows-symbols run as_of (suc index) ps)

  pub keep-ranking_rows :
      (run : BacktestRun) (as_of : Time) (index : ℕ) (positions : List (CandidatePosition F))
      → keep (of_run run.id) (ranking_rows run as_of index positions)
        ≡ ranking_rows run as_of index positions
  unfolding keep
  keep-ranking_rows run as_of index [] = refl
  keep-ranking_rows run as_of index (p ∷ ps) =
      ground (arith, keep-ranking_rows run as_of (suc index) ps, eq_refl run.id)

pub keep-append :
    {A : Type 0} (p : A → Bool) (xs ys : List A) → keep p (xs ++ ys) ≡ keep p xs ++ keep p ys
unfolding keep
keep-append p [] ys = refl
keep-append p (x ∷ xs) ys = ground (arith, keep-append p xs ys)

pub keep-not : {A : Type 0} (p : A → Bool) (xs : List A) → keep p (keep (λ x. not (p x)) xs) ≡ []
unfolding keep
keep-not p [] = refl
keep-not p (x ∷ xs) = ground (arith, keep-not p xs)

-- An update that makes its own test fail leaves nothing that passes it.
pub first-update_where :
    {A : Type 0} (p : A → Bool) (f : A → A) (xs : List A)
    → ((x : A) → p (f x) ≡ false)
    → first p (update_where p f xs) ≡ none
unfolding first update_where
first-update_where p f [] h = refl
first-update_where p f (x ∷ xs) h = elim (Bool-cases (p x)) [
  | inl t ↦ ground (arith, t, h x, first-update_where p f xs h)
  | inr n ↦ ground (arith, n, first-update_where p f xs h)
]

module _ {F : Type 0} (fl : Float F) (pg : Postgres F) (fresh : ℕ → String) (db_now : Time)
    (id : String) (result : BacktestResult F) (artifact_key : String) (db : Db F) where
  -- What a call that succeeds has checked and stored.
  pub record Completed (after : Db F) : Type 0 where
    pub valid : is_none (validate_set fl result.candidates) ≡ true
    pub run : BacktestRun
    pub found : first (in_progress id) db.runs ≡ some run
    pub summary : RawMessage
    pub checksum : String
    pub runs :
        after.runs
        ≡ update_where
            (in_progress id)
            (completed_run db_now summary artifact_key checksum result.engine_version)
            db.runs
    pub candidates :
        after.candidates
        ≡ keep (λ row. not (of_run run.id row)) db.candidates
          ++ ranking_rows pg fresh run result.candidates.as_of 0 result.candidates.positions

  pub complete-Completed :
      (after : Db F)
      → complete_backtest fl pg fresh db_now id result artifact_key db ≡ ok after
      → Completed after
  unfolding complete_backtest insert_candidates
  complete-Completed after h =
      let a = require-ok (is_none (validate_set fl result.candidates)) invalid_input _ _ h in
      let b = bind-ok (some_or (pg.jsonb (or_empty_object result.summary)) undecodable) _ _ a.1 in
      let c = bind-ok (some_or (first (in_progress id) db.runs) not_in_progress) _ _ b.2 in
      let d = bind-ok (some_or (pg.char64 result.result_checksum) violated_constraint) _ _ c.2 in
      let e =
        bind-ok
          (insert_positions pg fresh (map (λ row. row.claim.id) db.claims) c.0
            result.candidates.as_of 0 result.candidates.positions _)
          _ _ d.2 in
      let same = ok-injective _ _ e.2 in
      record {
        valid = a.0;
        run = c.0;
        found = some_or-ok _ _ _ c.1;
        summary = b.0;
        checksum = d.0;
        runs = sym (ap (λ t. t.runs) same);
        candidates =
            sym (ap (λ t. t.candidates) same)
            ∙ insert_positions-rows pg fresh _ c.0 result.candidates.as_of 0
                result.candidates.positions _ _ e.0 e.1;
      }
