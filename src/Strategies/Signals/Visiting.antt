-- ===== src/Strategies/Signals/Visiting.antt =====
-- The loops of `BuildSignals` leave nothing out: every key that a claim may have is collected.
use signal_ledger_project.Prelude.{
  String, ◌≡◌, refl, sym, subst, true, false, inl, inr, List, [], ◌∷◌, ◌++◌, map, contains_iff,
  Bool-cases, In,
}
use signal_ledger_project.Domain.Research.{Time, StoredClaim}
use signal_ledger_project.Domain.Backtest.{ClaimSignal}
use signal_ledger_project.Strategies.Themes.{claim_symbols}
use signal_ledger_project.Strategies.Signals.{
  Key, has_key, signal_of, key_of, skipped, Collected, add_symbol, add_symbols, add_claims,
}
use signal_ledger_project.Strategies.Signals.Collecting.{
  keys, Added, untradable, duplicate, fresh, add_symbol_cases, Inv, Added-Inv, add_symbols-Inv,
}

module _ {F : Type 0} (universe : List String) where
  Any : ClaimSignal F → Type 0
  Any s = Unit

  keys-grown :
      (k : Key) (xs ys : List (ClaimSignal F)) → In k (map key_of xs) → In k (map key_of (xs ++ ys))
  keys-grown k [] ys h = absurd h
  keys-grown k (x ∷ xs) ys (inl e) = inl e
  keys-grown k (x ∷ xs) ys (inr h) = inr (keys-grown k xs ys h)

  keys-last :
      (xs : List (ClaimSignal F)) (s : ClaimSignal F) → In (key_of s) (map key_of (xs ++ s ∷ []))
  keys-last [] s = inl refl
  keys-last (x ∷ xs) s = inr (keys-last xs s)

  Added-mono :
      (k : Key) (claim : StoredClaim F) (symbol : String) (acc acc' : Collected F)
      → Added universe claim acc symbol acc'
      → In k (keys acc)
      → In k (keys acc')
  Added-mono k claim symbol acc acc' (untradable _) h = h
  Added-mono k claim symbol acc acc' (duplicate _) h = h
  Added-mono k claim symbol acc acc' (fresh _ _) h = keys-grown k acc.signals _ h

  Added-key :
      (claim : StoredClaim F) (symbol : String) (acc acc' : Collected F)
      → Inv Any acc
      → In symbol universe
      → Added universe claim acc symbol acc'
      → In (claim.id, symbol) (keys acc')
  Added-key claim symbol acc acc' v u (untradable out) = cc ((contains_iff universe symbol).1 u)
  Added-key claim symbol acc acc' v u (duplicate seen) = v.seen_in (claim.id, symbol) seen
  Added-key claim symbol acc acc' v u (fresh _ _) = keys-last acc.signals (signal_of claim symbol)

  add_symbols_mono :
      (k : Key) (claim : StoredClaim F) (symbols : List String) (acc : Collected F)
      → In k (keys acc)
      → In k (keys (add_symbols universe claim acc symbols))
  unfolding add_symbols
  add_symbols_mono k claim [] acc h = h
  add_symbols_mono k claim (symbol ∷ symbols) acc h =
      add_symbols_mono k claim symbols (add_symbol universe claim acc symbol)
        (Added-mono k claim symbol acc _ (add_symbol_cases universe claim acc symbol) h)

  step-Inv :
      (claim : StoredClaim F) (symbol : String) (acc : Collected F)
      → Inv Any acc
      → Inv Any (add_symbol universe claim acc symbol)
  unfolding Any
  step-Inv claim symbol acc v =
      Added-Inv Any universe claim acc _ symbol (λ u. tt)
        (add_symbol_cases universe claim acc symbol) v

  add_symbols-key :
      (claim : StoredClaim F) (symbol : String) (symbols : List String) (acc : Collected F)
      → Inv Any acc
      → In symbol universe
      → In symbol symbols
      → In (claim.id, symbol) (keys (add_symbols universe claim acc symbols))
  unfolding add_symbols
  add_symbols-key claim symbol [] acc v u h = absurd h
  add_symbols-key claim symbol (s ∷ symbols) acc v u (inl e) =
      add_symbols_mono (claim.id, symbol) claim symbols (add_symbol universe claim acc s)
        (Added-key claim symbol acc _ v u (
          subst (λ t. Added universe claim acc symbol (add_symbol universe claim acc t)) e
            (add_symbol_cases universe claim acc symbol)))
  add_symbols-key claim symbol (s ∷ symbols) acc v u (inr h) =
      add_symbols-key claim symbol symbols (add_symbol universe claim acc s)
        (step-Inv claim s acc v) u h

  module _ (cutoff : Time) where
    add_claims_skip :
        (claim : StoredClaim F) (claims : List (StoredClaim F)) (acc : Collected F)
        → skipped cutoff claim ≡ true
        → add_claims universe cutoff acc (claim ∷ claims) ≡ add_claims universe cutoff acc claims
    unfolding add_claims
    add_claims_skip claim claims acc e = rw e

    add_claims_run :
        (claim : StoredClaim F) (claims : List (StoredClaim F)) (acc : Collected F)
        → skipped cutoff claim ≡ false
        → add_claims universe cutoff acc (claim ∷ claims)
          ≡ add_claims universe cutoff (add_symbols universe claim acc (claim_symbols claim)) claims
    unfolding add_claims
    add_claims_run claim claims acc e = rw e

    add_claims_mono :
        (k : Key) (claims : List (StoredClaim F)) (acc : Collected F)
        → In k (keys acc)
        → In k (keys (add_claims universe cutoff acc claims))
    unfolding add_claims
    add_claims_mono k [] acc h = h
    add_claims_mono k (claim ∷ claims) acc h = elim (Bool-cases (skipped cutoff claim)) [
      | inl skip ↦
          subst (λ t. In k (keys t)) (sym (add_claims_skip claim claims acc skip))
            (add_claims_mono k claims acc h)
      | inr run ↦
          subst (λ t. In k (keys t)) (sym (add_claims_run claim claims acc run))
            (add_claims_mono k claims (add_symbols universe claim acc (claim_symbols claim))
              (add_symbols_mono k claim (claim_symbols claim) acc h))
    ]

    add_claims-key :
        (claim : StoredClaim F) (symbol : String) (claims : List (StoredClaim F))
        (acc : Collected F)
        → Inv Any acc
        → In claim claims
        → skipped cutoff claim ≡ false
        → In symbol (claim_symbols claim)
        → In symbol universe
        → In (claim.id, symbol) (keys (add_claims universe cutoff acc claims))
    unfolding add_claims Any
    add_claims-key claim symbol [] acc v h run named u = absurd h
    add_claims-key claim symbol (c ∷ claims) acc v (inl e) run named u =
        subst (λ t. In (claim.id, symbol) (keys (add_claims universe cutoff acc (t ∷ claims)))) e
          (subst (λ t. In (claim.id, symbol) (keys t)) (sym (add_claims_run claim claims acc run))
            (add_claims_mono (claim.id, symbol) claims
              (add_symbols universe claim acc (claim_symbols claim))
              (add_symbols-key claim symbol (claim_symbols claim) acc v u named)))
    add_claims-key claim symbol (c ∷ claims) acc v (inr h) run named u =
        elim (Bool-cases (skipped cutoff c)) [
          | inl skip ↦
              subst (λ t. In (claim.id, symbol) (keys t)) (sym (add_claims_skip c claims acc skip))
                (add_claims-key claim symbol claims acc v h run named u)
          | inr taken ↦
              subst (λ t. In (claim.id, symbol) (keys t)) (sym (add_claims_run c claims acc taken))
                (add_claims-key claim symbol claims (add_symbols universe c acc (claim_symbols c))
                  (add_symbols-Inv Any universe c (claim_symbols c) acc (λ s k w. tt) v) h run named
                  u)
        ]

    pub collected-key :
        (claim : StoredClaim F) (symbol : String) (claims : List (StoredClaim F))
        → In claim claims
        → skipped cutoff claim ≡ false
        → In symbol (claim_symbols claim)
        → In symbol universe
        → In
            (claim.id, symbol)
            (keys (add_claims universe cutoff (record { seen = []; signals = [] }) claims))
    unfolding Any has_key
    collected-key claim symbol claims = add_claims-key claim symbol claims _ (record {
      sound = λ s h. absurd h;
      seen_in = λ k h. cc;
      in_seen = λ k h. absurd h;
      distinct = tt;
    })
