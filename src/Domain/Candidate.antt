-- ===== src/Domain/Candidate.antt =====
-- internal/domain/candidate.go: the ranking that a run proposes, its validation, and the filter of
-- the candidates endpoint.
use signal_ledger_project.Prelude.{
  ℕ, suc, String, not, Option, none, some, List, [], ◌∷◌, map, ◌==◌, if◌then◌else◌,
}
use signal_ledger_project.Prelude.Int.{ℤ, pos, ltb_ℤ, leb_ℤ, eqb_ℤ}
use signal_ledger_project.Prelude.Float.{Float}
use signal_ledger_project.Domain.Research.{Time, StoredClaim, is_zero}

pub record CandidateEvidence (F : Type 0) : Type 0 where
  pub claim_id : String
  pub contribution : F

pub record CandidatePosition (F : Type 0) : Type 0 where
  pub symbol : String
  pub rank : ℤ
  pub weight : F
  pub score : F
  pub momentum : F
  pub momentum_rank : F
  pub claim_support : F
  pub evidence : List (CandidateEvidence F)

pub record CandidateSet (F : Type 0) : Type 0 where
  pub as_of : Time
  pub positions : List (CandidatePosition F)

-- CandidateSet.Symbols
unfoldable pub symbols : {F : Type 0} → CandidateSet F → List String
symbols set = map (λ position. position.symbol) set.positions

pub data CandidateError : Type 0 where
  no_as_of : CandidateError
  missing_symbol : ℕ → CandidateError
  wrong_rank : ℕ → ℤ → CandidateError
  non_positive_weight : String → CandidateError

module _ {F : Type 0} (fl : Float F) where
  -- The loop of `CandidateSet.Validate`, from an index on.
  unfoldable pub check_positions : ℕ → List (CandidatePosition F) → Option CandidateError
  check_positions index [] = none
  check_positions index (position ∷ positions) =
      let rest = check_positions (suc index) positions in
      if position.symbol == ""
      then some (missing_symbol index)
      else if not (eqb_ℤ position.rank (pos (suc index)))
      then some (wrong_rank index position.rank)
      else if fl.le position.weight (fl.lit 0 0)
      then some (non_positive_weight position.symbol)
      else rest

  -- CandidateSet.Validate
  unfoldable pub validate_set : CandidateSet F → Option CandidateError
  validate_set set = elim set.positions [
    | [] ↦ none
    | position ∷ positions ↦
        if is_zero set.as_of then some no_as_of else check_positions 0 (position ∷ positions)
  ]

-- A claim behind a candidate, and a candidate as the API serves it.
pub record CandidateClaim (F : Type 0) : Type 0 where
  pub claim : StoredClaim F
  pub contribution : F

pub record Candidate (F : Type 0) : Type 0 where
  pub id : String
  pub backtest_run_id : String
  pub strategy_id : String
  pub strategy_slug : String
  pub strategy_version : ℕ
  pub engine_version : Option String
  pub result_checksum : Option String
  pub as_of : Time
  pub symbol : String
  pub rank : ℤ
  pub weight : F
  pub score : F
  pub momentum : F
  pub momentum_rank : Option F
  pub claim_support : F
  pub evidence : List (CandidateClaim F)

pub record CandidateFilter : Type 0 where
  pub strategy_id : String
  pub backtest_id : String
  pub limit : ℤ

abbrev pub default_candidate_limit : ℤ
default_candidate_limit = pos 100

abbrev pub max_candidate_limit : ℤ
max_candidate_limit = pos 500

-- CandidateFilter.Normalized; the two tests run one after the other.
unfoldable pub normalized : CandidateFilter → CandidateFilter
normalized filter =
    let limit = if leb_ℤ filter.limit (pos 0) then default_candidate_limit else filter.limit in
    record filter { limit = if ltb_ℤ max_candidate_limit limit then max_candidate_limit else limit }
