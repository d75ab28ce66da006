-- ===== src/Store/Strategies/Versions.antt =====
-- The versions of a strategy: what `CreateStrategyWithCitations` numbers them, and what it checks.
use signal_ledger_project.Prelude.{
  ℕ, zero, suc, ◌+◌, ◌≤◌, String, ◌≡◌, refl, sym, ap, ◌∙◌, subst, Bool, true, false, not, inl, inr,
  some, List, [], ◌∷◌, ◌++◌, map, arith, ◌==◌, eq_iff, ltb, eqb, eqb_iff, if◌then◌else◌, length,
  keep, count_where, Bool-cases, length-append,
}
use mathlib.Core.List.{append-nil}
use signal_ledger_project.Domain.Research.{Time}
use signal_ledger_project.Domain.Records.{Strategy, CreateStrategyInput}
use signal_ledger_project.Store.Base.{
  ok, some_or, claim_not_citable, undecodable, violated_constraint, bind-ok, require-ok, some_or-ok,
  ok-injective,
}
use signal_ledger_project.Store.Tables.{Db}
use signal_ledger_project.Store.Postgres.{Postgres}
use signal_ledger_project.Store.Strategies.{
  max_version, has_duplicate, count_accepted, cite, next_version, create_strategy_with_citations,
}

-- The versions of a slug, in the order in which they were stored.
abbrev pub versions_of : String → List Strategy → List ℕ
versions_of slug rows = map (λ s. s.version) (keep (λ s. s.slug == slug) rows)

-- 1, 2, …, n.
abbrev pub one_to : ℕ → List ℕ
one_to zero = []
one_to (suc n) = one_to n ++ suc n ∷ []

-- Every slug's versions are 1, 2, …, n without a gap, in the order in which they were stored.
abbrev pub Gapless : List Strategy → Type 0
Gapless rows = (slug : String) → (n : ℕ) × (versions_of slug rows ≡ one_to n)

abbrev greatest : List ℕ → ℕ
greatest [] = 0
greatest (v ∷ vs) = let rest = greatest vs in if ltb rest v then v else rest

max_version-greatest :
    (slug : String) (rows : List Strategy)
    → max_version slug rows ≡ greatest (versions_of slug rows)
unfolding max_version keep
max_version-greatest slug [] = refl
max_version-greatest slug (s ∷ rows) = ground (arith, max_version-greatest slug rows)

greatest-append : (vs : List ℕ) (n : ℕ) → greatest vs ≤ n → greatest (vs ++ n ∷ []) ≡ n
greatest-append [] n h = ground arith
greatest-append (v ∷ vs) n h = ground (arith, greatest-append vs n)

greatest-one_to : (n : ℕ) → greatest (one_to n) ≡ n
greatest-one_to zero = refl
greatest-one_to (suc n) = greatest-append (one_to n) (suc n) (omega (arith, greatest-one_to n))

versions_of-append :
    (slug : String) (rows : List Strategy) (s : Strategy)
    → versions_of slug (rows ++ s ∷ [])
      ≡ versions_of slug rows ++ (if s.slug == slug then s.version ∷ [] else [])
unfolding keep
versions_of-append slug [] s = ground arith
versions_of-append slug (r ∷ rows) s = ground (arith, versions_of-append slug rows s)

length-one_to : (n : ℕ) → length (one_to n) ≡ n
length-one_to zero = refl
length-one_to (suc n) = omega (arith, length-append (one_to n) (suc n ∷ []), length-one_to n)

-- The number that a slug's next version gets.
max_version-length :
    (rows : List Strategy)
    → Gapless rows
    → (slug : String) → max_version slug rows ≡ length (versions_of slug rows)
max_version-length rows g slug =
    let n = (g slug).0 in
    max_version-greatest slug rows
    ∙ ap greatest (g slug).1
    ∙ greatest-one_to n
    ∙ sym (length-one_to n)
    ∙ sym (ap length (g slug).1)

Gapless-append :
    (rows : List Strategy) (s : Strategy)
    → Gapless rows
    → s.version ≡ suc (length (versions_of s.slug rows))
    → Gapless (rows ++ s ∷ [])
Gapless-append rows s g e slug =
    let tail : Bool → List ℕ = λ b. versions_of slug rows ++ (if b then s.version ∷ [] else []) in
    let number : (s.slug == slug) ≡ true → s.version ≡ suc (g slug).0 = λ t.
      e
      ∙ ap (λ u. suc (length (versions_of u rows))) ((eq_iff _ _).0 t)
      ∙ ap (λ vs. suc (length vs)) (g slug).1
      ∙ ap suc (length-one_to _) in
    elim (Bool-cases (s.slug == slug)) [
      | inr f ↦ ((g slug).0, versions_of-append slug rows s ∙ ap tail f ∙ append-nil _ ∙ (g slug).1)
      | inl t ↦ (
        suc (g slug).0,
        versions_of-append slug rows s
            ∙ ap tail t
            ∙ ap (λ vs. vs ++ s.version ∷ []) (g slug).1
            ∙ ap (λ v. one_to (g slug).0 ++ v ∷ []) (number t),
      )
    ]

-- What a call that succeeds has checked, stored and returned.
pub record Created {F : Type 0} (pg : Postgres F) (new_id : String) (db_now : Time)
    (input : CreateStrategyInput) (db : Db F) (strategy : Strategy) (after : Db F) : Type 0 where
  pub spec : String
  pub decoded : pg.jsonb input.spec ≡ some spec
  pub all_accepted : count_accepted input.claim_ids db.claims ≡ length input.claim_ids
  pub no_duplicate : has_duplicate input.claim_ids ≡ false
  pub stored : strategy ≡ (
      let version = max_version input.slug db.strategies + 1 in
      next_version new_id db_now input version (pg.set_version version spec))
  pub strategies : after.strategies ≡ db.strategies ++ strategy ∷ []
  pub citations : after.citations ≡ db.citations ++ map (cite new_id) input.claim_ids
  pub claims : after.claims ≡ db.claims

module _ {F : Type 0} (pg : Postgres F) (new_id : String) (db_now : Time)
    (input : CreateStrategyInput) (db : Db F) where
  pub create-Created :
      (strategy : Strategy) (after : Db F)
      → create_strategy_with_citations pg new_id db_now input db ≡ ok (strategy, after)
      → Created pg new_id db_now input db strategy after
  unfolding create_strategy_with_citations
  create-Created strategy after h =
      let a =
        require-ok (eqb (count_accepted input.claim_ids db.claims) (length input.claim_ids))
          claim_not_citable _ _ h in
      let j = bind-ok (some_or (pg.jsonb input.spec) undecodable) _ _ a.1 in
      let i =
        require-ok (eqb (count_where (λ s. s.id == new_id) db.strategies) 0) violated_constraint _ _
          j.2 in
      let d = require-ok (not (has_duplicate input.claim_ids)) violated_constraint _ _ i.1 in
      let same = ok-injective _ _ d.1 in
      record {
        spec = j.0;
        decoded = some_or-ok _ _ _ j.1;
        all_accepted = (eqb_iff _ _).0 a.0;
        no_duplicate = ground (arith, d.0);
        stored = sym (ap (λ r. r.0) same);
        strategies =
            sym (ap (λ r. r.1.strategies) same)
            ∙ ap (λ s. db.strategies ++ s ∷ []) (ap (λ r. r.0) same);
        citations = sym (ap (λ r. r.1.citations) same);
        claims = sym (ap (λ r. r.1.claims) same);
      }

  -- CreateStrategyWithCitations keeps every slug's versions gapless: they are 1, 2, …, n in the
  -- order of their rows. The new strategy is the slug's version n + 1, other slugs keep theirs, and
  -- no stored row is changed.
  pub create-Gapless :
      (strategy : Strategy) (after : Db F)
      → Gapless db.strategies
      → create_strategy_with_citations pg new_id db_now input db ≡ ok (strategy, after)
      → Gapless after.strategies
        × (strategy.version ≡ suc (length (versions_of input.slug db.strategies)))
        × (after.strategies ≡ db.strategies ++ strategy ∷ [])
  create-Gapless strategy after g h =
      let c = create-Created strategy after h in
      let slug_eq : strategy.slug ≡ input.slug = ap (λ s. s.slug) c.stored in
      let version_eq : strategy.version ≡ suc (length (versions_of input.slug db.strategies)) =
        ap (λ s. s.version) c.stored
        ∙ omega (arith, max_version-length db.strategies g input.slug) in
      (
        subst Gapless (sym c.strategies) (
            Gapless-append db.strategies strategy g
              (version_eq ∙ ap (λ t. suc (length (versions_of t db.strategies))) (sym slug_eq))),
        version_eq,
        c.strategies,
      )
