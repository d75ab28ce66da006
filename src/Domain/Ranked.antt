-- ===== src/Domain/Ranked.antt =====
-- `CandidateSet.Validate` of internal/domain/candidate.go against a description of a ranking.
use signal_ledger_project.Prelude.{
  ℕ, zero, suc, ◌≡◌, ◌≢◌, refl, ap, ◌∙◌, false, ◌↔◌, Option, none, some, if◌then◌else◌, List, [],
  ◌∷◌, map, arith, length, All, eq_iff,
}
use signal_ledger_project.Prelude.Int.{ℤ, pos, eqb_ℤ_iff}
use signal_ledger_project.Prelude.Float.{Float}
use signal_ledger_project.Domain.Research.{Time, is_zero}
use signal_ledger_project.Domain.Candidate.{
  CandidatePosition, CandidateSet, CandidateError, no_as_of, check_positions, validate_set,
}

-- k + 1, k + 2, …, k + n.
abbrev pub count_on : ℕ → ℕ → List ℤ
count_on k zero = []
count_on k (suc n) = pos (suc k) ∷ count_on (suc k) n

module _ {F : Type 0} (fl : Float F) where
  -- A position with a symbol and a positive weight.
  abbrev pub IsHolding : CandidatePosition F → Type 0
  IsHolding position = (position.symbol ≢ "") × (fl.le position.weight (fl.lit 0 0) ≡ false)

  -- A ranking: the ranks are 1, 2, …, n in the order of the positions, every position is a holding,
  -- and there is a date if there is a position.
  pub record IsRanking (set : CandidateSet F) : Type 0 where
    pub dated : set.positions ≢ [] → is_zero set.as_of ≡ false
    pub ranked : map (λ position. position.rank) set.positions ≡ count_on 0 (length set.positions)
    pub held : All IsHolding set.positions

  check_positions-cons :
      (k : ℕ) (position : CandidatePosition F) (positions : List (CandidatePosition F))
      → (check_positions fl k (position ∷ positions) ≡ none) ↔ (
          IsHolding position
          × (position.rank ≡ pos (suc k))
          × (check_positions fl (suc k) positions ≡ none))
  unfolding check_positions
  check_positions-cons k position positions =
      ground (arith, eq_iff position.symbol "", eqb_ℤ_iff position.rank (pos (suc k)))

  cons-injective :
      (x y : ℤ) (xs ys : List ℤ) → ◌≡◌ {A = List ℤ} (x ∷ xs) (y ∷ ys) → (x ≡ y) × (xs ≡ ys)
  cons-injective x y xs ys h = (cc, cc)

  check_positions_iff :
      (k : ℕ) (positions : List (CandidatePosition F))
      → (check_positions fl k positions ≡ none) ↔ (
          (map (λ position. position.rank) positions ≡ count_on k (length positions))
          × All IsHolding positions)
  check_positions_iff k [] = (λ h. (refl, tt), λ h. unfold check_positions in refl)
  check_positions_iff k (position ∷ positions) =
      let step = check_positions-cons k position positions in
      let ih = check_positions_iff (suc k) positions in
      (
        λ h.
            let s = step.0 h in
            let r = ih.0 s.2 in
            (
              ap (λ x. x ∷ map (λ p. p.rank) positions) s.1 ∙ ap (λ xs. pos (suc k) ∷ xs) r.0,
              (s.0, r.1),
            ),
        λ h. let c = cons-injective _ _ _ _ h.0 in step.1 (h.1.0, c.0, ih.1 (c.1, h.1.1)),
      )

  if_dated : Time → List (CandidatePosition F) → Option CandidateError
  if_dated as_of positions = if is_zero as_of then some no_as_of else check_positions fl 0 positions

  if_dated_iff :
      (as_of : Time) (positions : List (CandidatePosition F))
      → (if_dated as_of positions ≡ none)
        ↔ ((is_zero as_of ≡ false) × (check_positions fl 0 positions ≡ none))
  unfolding if_dated
  if_dated_iff as_of positions = ground arith

  validate_parts :
      (as_of : Time) (positions : List (CandidatePosition F))
      → (validate_set fl (record { as_of = as_of; positions = positions }) ≡ none)
        ↔ IsRanking (record { as_of = as_of; positions = positions })
  unfolding validate_set if_dated
  validate_parts as_of [] =
      (λ h. record { dated = λ n. absurd (n refl); ranked = refl; held = tt }, λ r. refl)
  validate_parts as_of (position ∷ positions) =
      let step = if_dated_iff as_of (position ∷ positions) in
      let parts = check_positions_iff 0 (position ∷ positions) in
      (
        λ h.
            let s = step.0 h in
            let p = parts.0 s.1 in record { dated = λ n. s.0; ranked = p.0; held = p.1 },
        λ r. step.1 (r.dated (λ e. cc), parts.1 (r.ranked, r.held)),
      )

  -- A set is accepted exactly when it is a ranking.
  pub validate_set-none : (set : CandidateSet F) → (validate_set fl set ≡ none) ↔ IsRanking set
  validate_set-none set = validate_parts set.as_of set.positions
