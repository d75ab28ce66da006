-- ===== src/Strategies/Builder/Maps.antt =====
-- The association lists that stand for the maps of internal/strategies/builder.go.
use signal_ledger_project.Prelude.{
  String, ◌≡◌, refl, sym, ap, subst, Bool, ◌⊎◌, inl, inr, ◌↔◌, List, [], ◌∷◌, map, ◌==◌, eq_iff,
  eq_refl, arith, keep, if◌then◌else◌, In, Distinct, In-of_keep, In-map, In-map_cases, Bool-cases,
}
use signal_ledger_project.Prelude.Float.{Float}
use signal_ledger_project.Strategies.Builder.{add_at, value_at}

module _ {F : Type 0} where
  abbrev pub keys : List (String × F) → List String
  keys net = map (λ entry. entry.0) net

  pub In-add_at :
      (fl : Float F) (t k : String) (x : F) (net : List (String × F))
      → In t (keys (add_at fl k x net)) ↔ ((t ≡ k) ⊎ In t (keys net))
  unfolding add_at
  In-add_at fl t k x [] = (λ h. h, λ h. h)
  In-add_at fl t k x ((l, y) ∷ net) = ground (arith, In-add_at fl t k x net, eq_iff k l)

  pub Distinct-add_at :
      (fl : Float F) (k : String) (x : F) (net : List (String × F))
      → Distinct (keys net)
      → Distinct (keys (add_at fl k x net))
  unfolding add_at
  Distinct-add_at fl k x [] d = (λ h. h, tt)
  Distinct-add_at fl k x ((l, y) ∷ net) d =
      ground (arith, Distinct-add_at fl k x net, In-add_at fl l k x net, eq_iff k l)

  pub value_at-add_at :
      (fl : Float F) (t k : String) (x : F) (net : List (String × F))
      → value_at fl t (add_at fl k x net)
        ≡ (if t == k then fl.add (value_at fl t net) x else value_at fl t net)
  unfolding add_at value_at
  value_at-add_at fl t k x [] = refl
  value_at-add_at fl t k x ((l, y) ∷ net) =
      ground (arith, value_at-add_at fl t k x net, eq_iff t k, eq_iff t l, eq_iff k l)

  pub value_at-In :
      (fl : Float F) (t : String) (x : F) (net : List (String × F))
      → Distinct (keys net)
      → In (t, x) net
      → value_at fl t net ≡ x
  unfolding value_at
  value_at-In fl t x [] d h = absurd h
  value_at-In fl t x ((l, y) ∷ net) d (inl e) =
      rw (ap (λ z. z.0) e, eq_refl l) (sym (ap (λ z. z.1) e))
  value_at-In fl t x ((l, y) ∷ net) d (inr h) = elim (Bool-cases (t == l)) [
    | inl e ↦
        absurd
          (d.0 (subst (λ z. In z (keys net)) ((eq_iff t l).0 e) (In-map (λ z. z.0) (t, x) net h)))
    | inr e ↦ rw e (value_at-In fl t x net d.1 h)
  ]

  pub In-value_at :
      (fl : Float F) (t : String) (net : List (String × F))
      → In t (keys net)
      → In (t, value_at fl t net) net
  unfolding value_at
  In-value_at fl t [] h = absurd h
  In-value_at fl t ((l, y) ∷ net) (inl e) = rw (e, eq_refl l) (inl refl)
  In-value_at fl t ((l, y) ∷ net) (inr h) = elim (Bool-cases (t == l)) [
    | inl e ↦ rw e (inl (ap (λ z. (z, y)) ((eq_iff t l).0 e)))
    | inr e ↦
        subst (λ b. In (t, if b then y else value_at fl t net) ((l, y) ∷ net)) (sym e)
          (inr (In-value_at fl t net h))
  ]

  pub In-keys_keep :
      (p : String × F → Bool) (k : String) (net : List (String × F))
      → In k (keys (keep p net))
      → In k (keys net)
  In-keys_keep p k net h =
      let m = In-map_cases (λ z. z.0) k (keep p net) h in
      rw m.2 (In-map (λ z. z.0) m.0 net (In-of_keep p m.0 net m.1).0)

  pub Distinct-keep :
      (p : String × F → Bool) (net : List (String × F))
      → Distinct (keys net)
      → Distinct (keys (keep p net))
  unfolding keep
  Distinct-keep p [] d = tt
  Distinct-keep p (entry ∷ net) d = ground (arith, Distinct-keep p net, In-keys_keep p entry.0 net)
