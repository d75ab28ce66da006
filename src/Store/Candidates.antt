-- ===== src/Store/Candidates.antt =====
-- internal/store/candidates.go: the query behind the candidates endpoint. Ids are compared as texts,
-- and an empty id in the filter stands for NULL.
pub mod Recency
pub mod Listed
use signal_ledger_project.Prelude.{
  ℕ, zero, suc, String, Bool, true, false, ◌&&◌, ◌||◌, Option, none, some, List, [], ◌∷◌, map, ◌==◌,
  ltb, contains, keep, first, if◌then◌else◌,
}
use signal_ledger_project.Prelude.Int.{pos_part, ltb_ℤ, eqb_ℤ}
use signal_ledger_project.Prelude.Text.{str_lt}
use signal_ledger_project.Prelude.Sorting.{Sorter}
use signal_ledger_project.Domain.Research.{Time, StoredClaim}
use signal_ledger_project.Domain.Backtest.{BacktestRun}
use signal_ledger_project.Domain.Candidate.{Candidate, CandidateClaim, CandidateFilter, normalized}
use signal_ledger_project.Domain.Records.{Strategy}
use signal_ledger_project.Store.Tables.{Db, CandidateRow, Attribution}
use signal_ledger_project.Store.Listings.{by_effect}

-- completed_at DESC NULLS LAST, created_at DESC
unfoldable pub more_recent : Option Time → Option Time → Time → Time → Bool
more_recent (some a) (some b) c d = if eqb_ℤ a b then ltb_ℤ d c else ltb_ℤ b a
more_recent (some a) none c d = true
more_recent none (some b) c d = false
more_recent none none c d = ltb_ℤ d c

-- ORDER BY strategy_id, and then by recency
unfoldable pub by_recency : BacktestRun → BacktestRun → Bool
by_recency a b =
    if a.strategy_id == b.strategy_id
    then more_recent a.completed_at b.completed_at a.created_at b.created_at
    else str_lt a.strategy_id b.strategy_id

-- $1::uuid IS NULL OR id = $1::uuid
abbrev pub matches : String → String → Bool
matches wanted id = wanted == "" || id == wanted

unfoldable pub wanted_run : CandidateFilter → BacktestRun → Bool
wanted_run filter run =
    run.status == "completed"
    && matches filter.strategy_id run.strategy_id
    && matches filter.backtest_id run.id

-- DISTINCT ON (strategy_id)
unfoldable pub first_of_each : List String → List BacktestRun → List BacktestRun
first_of_each seen [] = []
first_of_each seen (run ∷ runs) =
    let rest = first_of_each (run.strategy_id ∷ seen) runs in
    if contains seen run.strategy_id then rest else run ∷ rest

-- The CTE selected_runs.
unfoldable pub selected_runs :
    Sorter BacktestRun → CandidateFilter → List BacktestRun → List BacktestRun
selected_runs sorter filter runs =
    first_of_each [] (sorter.sort by_recency (keep (wanted_run filter) runs))

abbrev pub with_row : {B : Type 0} → Option B → List B → List B
with_row none rest = rest
with_row (some y) rest = y ∷ rest

-- The joins of a query keep the rows that have partners.
unfoldable pub joined_rows : {A B : Type 0} → (A → Option B) → List A → List B
joined_rows f [] = []
joined_rows f (x ∷ xs) = with_row (f x) (joined_rows f xs)

-- LIMIT
unfoldable pub limited : {A : Type 0} → ℕ → List A → List A
limited zero xs = []
limited (suc n) [] = []
limited (suc n) (x ∷ xs) = x ∷ limited n xs

module _ {F : Type 0} where
  abbrev pub candidate_of : CandidateRow F → BacktestRun → Strategy → Candidate F
  candidate_of row run strategy = record {
    id = row.id;
    backtest_run_id = row.backtest_run_id;
    strategy_id = row.strategy_id;
    strategy_slug = strategy.slug;
    strategy_version = strategy.version;
    engine_version = run.engine_version;
    result_checksum = run.result_checksum;
    as_of = row.as_of;
    symbol = row.symbol;
    rank = row.rank;
    weight = row.weight;
    score = row.score;
    momentum = row.momentum;
    momentum_rank = row.momentum_rank;
    claim_support = row.claim_support;
    evidence = [];
  }

  abbrev pub with_strategy : CandidateRow F → BacktestRun → Option Strategy → Option (Candidate F)
  with_strategy row run none = none
  with_strategy row run (some strategy) = some (candidate_of row run strategy)

  abbrev pub with_run : List Strategy → CandidateRow F → Option BacktestRun → Option (Candidate F)
  with_run strategies row none = none
  with_run strategies row (some run) =
      with_strategy row run (first (λ s. s.id == row.strategy_id) strategies)

  -- A row with its run, if that is selected, and its strategy.
  abbrev pub joined_row : List BacktestRun → List Strategy → CandidateRow F → Option (Candidate F)
  joined_row runs strategies row =
      with_run strategies row (first (λ run. run.id == row.backtest_run_id) runs)

  -- ORDER BY slug, version DESC, rank; `collates` is the order of texts of the database.
  unfoldable pub by_rank : (String → String → Bool) → Candidate F → Candidate F → Bool
  by_rank collates a b =
      if a.strategy_slug == b.strategy_slug
      then (if ltb b.strategy_version a.strategy_version
          then true
          else if ltb a.strategy_version b.strategy_version
          then false
          else ltb_ℤ a.rank b.rank)
      else collates a.strategy_slug b.strategy_slug

  abbrev pub evidence_of : F → Option (StoredClaim F) → Option (CandidateClaim F)
  evidence_of contribution none = none
  evidence_of contribution (some claim) =
      some (record { claim = claim; contribution = contribution })

  -- attachCandidateEvidence, for one candidate.
  unfoldable pub attach_evidence : Sorter (CandidateClaim F) → Db F → Candidate F → Candidate F
  attach_evidence sorter db candidate = record candidate {
    evidence =
        sorter.sort (λ a b. by_effect a.claim b.claim)
          (joined_rows
            (λ a.
              evidence_of a.evidence.contribution
                (first (λ c. c.id == a.evidence.claim_id) (map (λ row. row.claim) db.claims)))
            (keep (λ a. a.candidate_id == candidate.id) db.attributions));
  }

  -- ListCandidates
  unfoldable pub list_candidates :
      Sorter BacktestRun
      → Sorter (Candidate F)
      → Sorter (CandidateClaim F)
      → (String → String → Bool)
      → CandidateFilter
      → Db F
      → List (Candidate F)
  list_candidates by_run by_place by_time collates filter db =
      let wanted = normalized filter in
      let runs = selected_runs by_run wanted db.runs in
      map (attach_evidence by_time db) (
        limited (pos_part wanted.limit) (
          by_place.sort (by_rank collates)
            (joined_rows (joined_row runs db.strategies) db.candidates)))
