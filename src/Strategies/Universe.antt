-- ===== src/Strategies/Universe.antt =====
-- `MissingSymbols` and `UniverseSymbols` of internal/strategies/spec.go.
use signal_ledger_project.Prelude.{
  String, ◌≡◌, refl, subst, false, inl, inr, ◌↔◌, Option, none, some, List, [], ◌∷◌, arith,
  contains, contains_iff, if◌then◌else◌, Bool-cases, In, Distinct, eq_iff,
}
use signal_ledger_project.Domain.Backtest.{RawMessage}
use signal_ledger_project.Strategies.Spec.{Spec}

-- The loop over `required`, with the map `seen`. What the loop appends to `missing` from here on
-- is its result.
unfoldable pub missing_from : List String → List String → List String → List String
missing_from available seen [] = []
missing_from available seen (symbol ∷ required) =
    let skip = missing_from available seen required in
    let take = symbol ∷ missing_from available (symbol ∷ seen) required in
    if contains available symbol then skip else if contains seen symbol then skip else take

-- MissingSymbols(required, available)
unfoldable pub missing_symbols : List String → List String → List String
unfolding missing_from
missing_symbols required available = missing_from available [] required

-- UniverseSymbols, where `decode` is `json.Unmarshal` into a spec.
unfoldable pub universe_symbols :
    {F : Type 0} → (RawMessage → Option (Spec F)) → RawMessage → Option (List String)
universe_symbols decode raw = elim (decode raw) [
  | none ↦ none
  | some spec ↦ some spec.universe.symbols
]

missing_from_iff :
    (available seen required : List String) (a : String)
    → In a (missing_from available seen required)
      ↔ (In a required × (contains available a ≡ false) × (contains seen a ≡ false))
unfolding missing_from contains
missing_from_iff available seen [] a = (λ h. absurd h, λ h. h.0)
missing_from_iff available seen (symbol ∷ required) a = ground (
  arith,
  missing_from_iff available seen required a,
  missing_from_iff available (symbol ∷ seen) required a,
  eq_iff a symbol,
)

missing_from-Distinct :
    (available seen required : List String) → Distinct (missing_from available seen required)
unfolding missing_from
missing_from-Distinct available seen [] = tt
missing_from-Distinct available seen (symbol ∷ required) = ground (
  arith,
  missing_from-Distinct available seen required,
  missing_from-Distinct available (symbol ∷ seen) required,
  head_new,
)
  where
    head_new : ¬ In symbol (missing_from available (symbol ∷ seen) required)
    head_new h =
        let unseen = ((missing_from_iff available (symbol ∷ seen) required symbol).0 h).2 in
        cc (unseen, (contains_iff (symbol ∷ seen) symbol).1 (inl refl))

-- The result holds just the required symbols that are not available, each of them once.
pub In-missing_symbols :
    (required available : List String)
    → ((a : String)
        → In a (missing_symbols required available) ↔ (In a required × ¬ In a available))
      × Distinct (missing_symbols required available)
unfolding missing_symbols contains
In-missing_symbols required available = (
  λ a. ground (arith, missing_from_iff available [] required a, contains_iff available a),
  missing_from-Distinct available [] required,
)

-- Nothing is missing exactly when every required symbol is available.
pub missing_symbols-nil :
    (required available : List String)
    → (missing_symbols required available ≡ []) ↔ ((a : String) → In a required → In a available)
missing_symbols-nil required available = (to, from)
  where
    facts :
        (a : String)
        → In a (missing_symbols required available) ↔ (In a required × ¬ In a available)
    facts = (In-missing_symbols required available).0

    to : missing_symbols required available ≡ [] → (a : String) → In a required → In a available
    to e a h = elim (Bool-cases (contains available a)) [
      | inl k ↦ (contains_iff available a).0 k
      | inr k ↦ absurd (subst (In a) e ((facts a).1 (h, λ i. cc ((contains_iff available a).1 i))))
    ]

    empty : (xs : List String) → ((a : String) → ¬ In a xs) → xs ≡ []
    empty [] n = refl
    empty (x ∷ xs) n = absurd (n x (inl refl))

    from : ((a : String) → In a required → In a available) → missing_symbols required available ≡ []
    from sub = empty _ (λ a h. ((facts a).0 h).1 (sub a ((facts a).0 h).0))
