-- ===== src/Strategies/Builder/Net.antt =====
-- The net view per ticker, which `netTickerSymbols` of internal/strategies/builder.go computes in a
-- map, against the sum over the claims that name the ticker.
use signal_ledger_project.Prelude.{
  String, ◌≡◌, refl, sym, ap, ◌∙◌, subst, true, false, ◌≢◌, ◌⊎◌, inl, inr, ◌↔◌, Option, none, some,
  List, [], ◌∷◌, ◌==◌, eq_iff, arith, keep, if◌then◌else◌, In, Distinct, In-of_keep, In-keep,
  In-map, In-map_cases, Bool-cases,
}
use signal_ledger_project.Prelude.Text.{str_lt, str_lt_asymm, str_lt_trans_not}
use signal_ledger_project.Prelude.Float.{Float}
use signal_ledger_project.Prelude.Sorting.{Sorter, Ordered, IsWeakOrder, In-perm, Distinct-perm}
use signal_ledger_project.Domain.Research.{StoredClaim}
use signal_ledger_project.Strategies.Builder.{
  value_at, signed_confidence, add_ticker, net_tickers, is_positive, net_ticker_symbols,
}
use mathlib.Core.List.Permᴰ
use signal_ledger_project.Strategies.Builder.Maps.{
  keys, In-add_at, Distinct-add_at, value_at-add_at, value_at-In, In-value_at, Distinct-keep,
}

module _ {F : Type 0} (fl : Float F) where
  -- A claim counts if it names the ticker.
  unfoldable pub add_named : String → Option String → F → F → F
  add_named t none x total = total
  add_named t (some ticker) x total = if t == ticker then fl.add total x else total

  -- The signed confidences of the claims on a ticker, added up in the order of the list.
  unfoldable pub sum_on : String → List (StoredClaim F) → F → F
  sum_on t [] total = total
  sum_on t (claim ∷ claims) total =
      sum_on t claims (add_named t claim.ticker (signed_confidence fl claim) total)

  -- The net view of a ticker, from one number to another: each claim on it adds its confidence if its
  -- direction is positive, the negated confidence if it is negative, and 0 otherwise.
  pub data NetView (t : String) : List (StoredClaim F) → F → F → Type 0 where
    done : {x : F} → NetView t [] x x
    elsewhere :
        {claim : StoredClaim F} {claims : List (StoredClaim F)} {x y : F}
        → ¬ (claim.ticker ≡ some t)
        → NetView t claims x y
        → NetView t (claim ∷ claims) x y
    positive :
        {claim : StoredClaim F} {claims : List (StoredClaim F)} {x y : F}
        → claim.ticker ≡ some t
        → claim.direction ≡ "positive"
        → NetView t claims (fl.add x claim.confidence) y
        → NetView t (claim ∷ claims) x y
    negative :
        {claim : StoredClaim F} {claims : List (StoredClaim F)} {x y : F}
        → claim.ticker ≡ some t
        → claim.direction ≡ "negative"
        → NetView t claims (fl.add x (fl.neg claim.confidence)) y
        → NetView t (claim ∷ claims) x y
    neither :
        {claim : StoredClaim F} {claims : List (StoredClaim F)} {x y : F}
        → claim.ticker ≡ some t
        → claim.direction ≢ "positive"
        → claim.direction ≢ "negative"
        → NetView t claims (fl.add x (fl.lit 0 0)) y
        → NetView t (claim ∷ claims) x y

  add_named-some :
      (t : String) (o : Option String) (x total : F)
      → o ≡ some t
      → add_named t o x total ≡ fl.add total x
  unfolding add_named
  add_named-some t none x total e = cc
  add_named-some t (some k) x total e = ground (arith, e, eq_iff t k)

  add_named-other :
      (t : String) (o : Option String) (x total : F)
      → ¬ (o ≡ some t)
      → add_named t o x total ≡ total
  unfolding add_named
  add_named-other t none x total n = refl
  add_named-other t (some k) x total n = elim (Bool-cases (t == k)) [
    | inl e ↦ absurd (n (ap some (sym ((eq_iff t k).0 e))))
    | inr e ↦ rw e refl
  ]

  named_cases : (t : String) (o : Option String) → (o ≡ some t) ⊎ (¬ (o ≡ some t))
  named_cases t none = inr (λ e. cc)
  named_cases t (some k) = elim (Bool-cases (k == t)) [
    | inl e ↦ inl (ap some ((eq_iff k t).0 e))
    | inr e ↦ inr (λ q. let same : k ≡ t = cc in ground (arith, e, (eq_iff k t).1 same))
  ]

  sum_on-NetView :
      (t : String) (claims : List (StoredClaim F)) (x : F) → NetView t claims x (sum_on t claims x)
  unfolding sum_on signed_confidence
  sum_on-NetView t [] x = done
  sum_on-NetView t (claim ∷ claims) x = elim (named_cases t claim.ticker) [
    | inr n ↦ elsewhere n (
        subst (λ z. NetView t claims x (sum_on t claims z))
          (sym (add_named-other t claim.ticker _ x n)) (sum_on-NetView t claims x))
    | inl e ↦
        let on : (c : F)
            → signed_confidence fl claim ≡ c
            → NetView t claims (fl.add x c)
                (sum_on t claims (add_named t claim.ticker (signed_confidence fl claim) x)) =
          λ c q.
            subst (λ z. NetView t claims (fl.add x c) (sum_on t claims z))
              (sym (add_named-some t claim.ticker _ x e ∙ ap (fl.add x) q))
              (sum_on-NetView t claims (fl.add x c)) in
        elim (Bool-cases (claim.direction == "positive")) [
          | inl p ↦
              positive e ((eq_iff claim.direction "positive").0 p)
                (on claim.confidence (ground (arith, p)))
          | inr p ↦ elim (Bool-cases (claim.direction == "negative")) [
            | inl q ↦
                negative e ((eq_iff claim.direction "negative").0 q)
                  (on (fl.neg claim.confidence) (ground (arith, p, q)))
            | inr q ↦
                neither e (λ k. ground (arith, p, (eq_iff claim.direction "positive").1 k))
                  (λ k. ground (arith, q, (eq_iff claim.direction "negative").1 k))
                  (on (fl.lit 0 0) (ground (arith, p, q)))
          ]
        ]
  ]

  NetView-unique :
      (t : String) {claims : List (StoredClaim F)} {x y : F}
      → NetView t claims x y
      → y ≡ sum_on t claims x
  unfolding sum_on signed_confidence
  NetView-unique t done = refl
  NetView-unique t (elsewhere {claim} {claims} {x} n v) =
      NetView-unique t v ∙ ap (sum_on t claims) (sym (add_named-other t claim.ticker _ x n))
  NetView-unique t (positive {claim} {claims} {x} e d v) =
      NetView-unique t v
      ∙ ap (sum_on t claims) (
          sym (
            add_named-some t claim.ticker _ x e
            ∙ ap (fl.add x) (ground (arith, (eq_iff claim.direction "positive").1 d))))
  NetView-unique t (negative {claim} {claims} {x} e d v) =
      let no : (claim.direction == "positive") ≡ false =
        subst (λ z. (z == "positive") ≡ false) (sym d) refl in
      NetView-unique t v
      ∙ ap (sum_on t claims) (
          sym (
            add_named-some t claim.ticker _ x e
            ∙ ap (fl.add x) (ground (arith, no, (eq_iff claim.direction "negative").1 d))))
  NetView-unique t (neither {claim} {claims} {x} e p q v) =
      NetView-unique t v
      ∙ ap (sum_on t claims) (
          sym (
            add_named-some t claim.ticker _ x e
            ∙ ap (fl.add x) (
                ground (
                  arith,
                  p,
                  q,
                  eq_iff claim.direction "positive",
                  eq_iff claim.direction "negative",
                ))))

  -- Some claim is on the ticker.
  abbrev pub IsNamed : String → List (StoredClaim F) → Type 0
  IsNamed t [] = ⊥
  IsNamed t (claim ∷ claims) = (claim.ticker ≡ some t) ⊎ IsNamed t claims

  Distinct-add_ticker :
      (o : Option String) (x : F) (net : List (String × F))
      → Distinct (keys net)
      → Distinct (keys (add_ticker fl o x net))
  Distinct-add_ticker none x net d = d
  Distinct-add_ticker (some k) x net d = Distinct-add_at fl k x net d

  In-add_ticker :
      (t : String) (o : Option String) (x : F) (net : List (String × F))
      → In t (keys (add_ticker fl o x net)) ↔ ((o ≡ some t) ⊎ In t (keys net))
  In-add_ticker t none x net = (inr, λ h. elim h [ inl e ↦ cc | inr k ↦ k ])
  In-add_ticker t (some k) x net = (
    λ h. elim ((In-add_at fl t k x net).0 h) [ inl e ↦ inl (ap some (sym e)) | inr l ↦ inr l ],
    λ h. (In-add_at fl t k x net).1 (elim h [ inl e ↦ inl cc | inr l ↦ inr l ]),
  )

  value_at-add_ticker :
      (t : String) (o : Option String) (x : F) (net : List (String × F))
      → value_at fl t (add_ticker fl o x net) ≡ add_named t o x (value_at fl t net)
  unfolding add_named
  value_at-add_ticker t none x net = refl
  value_at-add_ticker t (some k) x net = value_at-add_at fl t k x net

  Distinct-net_tickers :
      (claims : List (StoredClaim F)) (net : List (String × F))
      → Distinct (keys net)
      → Distinct (keys (net_tickers fl claims net))
  unfolding net_tickers
  Distinct-net_tickers [] net d = d
  Distinct-net_tickers (claim ∷ claims) net d =
      Distinct-net_tickers claims _
        (Distinct-add_ticker claim.ticker (signed_confidence fl claim) net d)

  In-net_tickers :
      (t : String) (claims : List (StoredClaim F)) (net : List (String × F))
      → In t (keys (net_tickers fl claims net)) ↔ (IsNamed t claims ⊎ In t (keys net))
  unfolding net_tickers
  In-net_tickers t [] net = (inr, λ h. elim h [ inl e ↦ absurd e | inr k ↦ k ])
  In-net_tickers t (claim ∷ claims) net =
      let x = signed_confidence fl claim in
      let ih = In-net_tickers t claims (add_ticker fl claim.ticker x net) in
      let step = In-add_ticker t claim.ticker x net in
      (
        λ h. elim (ih.0 h) [
          | inl n ↦ inl (inr n)
          | inr k ↦ elim (step.0 k) [ inl e ↦ inl (inl e) | inr l ↦ inr l ]
        ],
        λ h. ih.1 (elim h [
          | inl n ↦ elim n [ inl e ↦ inr (step.1 (inl e)) | inr m ↦ inl m ]
          | inr l ↦ inr (step.1 (inr l))
        ]),
      )

  value_at-net_tickers :
      (t : String) (claims : List (StoredClaim F)) (net : List (String × F))
      → value_at fl t (net_tickers fl claims net) ≡ sum_on t claims (value_at fl t net)
  unfolding net_tickers sum_on
  value_at-net_tickers t [] net = refl
  value_at-net_tickers t (claim ∷ claims) net =
      let x = signed_confidence fl claim in
      value_at-net_tickers t claims (add_ticker fl claim.ticker x net)
      ∙ ap (sum_on t claims) (value_at-add_ticker t claim.ticker x net)

  str_lt_order : IsWeakOrder str_lt
  str_lt_order = record { asymm = str_lt_asymm; trans_not = str_lt_trans_not }

  -- What netTickerSymbols ranges over, before it sorts.
  In-positive :
      (t : String) (claims : List (StoredClaim F))
      → In t (keys (keep (λ entry. is_positive fl entry.1) (net_tickers fl claims [])))
        ↔ (IsNamed t claims × (is_positive fl (sum_on t claims (fl.lit 0 0)) ≡ true))
  unfolding value_at
  In-positive t claims =
      let net = net_tickers fl claims [] in
      let d = Distinct-net_tickers claims [] tt in
      let v = value_at-net_tickers t claims [] in
      (
        λ h.
            let m = In-map_cases (λ z. z.0) t _ h in
            let k = In-of_keep (λ z. is_positive fl z.1) m.0 net m.1 in
            let at_t : In (t, m.0.1) net = subst (λ z. In (z, m.0.1) net) (sym m.2) k.0 in
            (
              elim ((In-net_tickers t claims []).0 (In-map (λ z. z.0) (t, m.0.1) net at_t)) [
                | inl n ↦ n
                | inr e ↦ absurd e
              ],
              subst (λ z. is_positive fl z ≡ true) (sym (value_at-In fl t m.0.1 net d at_t) ∙ v)
                  k.1,
            ),
        λ h.
            In-map (λ z. z.0) (t, value_at fl t net) _
              (In-keep (λ z. is_positive fl z.1) (t, value_at fl t net) net
                (In-value_at fl t net ((In-net_tickers t claims []).1 (inl h.0)))
                (subst (λ z. is_positive fl z ≡ true) (sym v) h.1)),
      )

  -- netTickerSymbols gives a ticker exactly if some claim is on it and the claims on it, taken in
  -- their order, add up to more than 0, where a positive claim adds its confidence, a negative one
  -- the negated confidence, and any other 0; it gives no ticker twice, and gives them in the order of
  -- texts.
  pub net_ticker_symbols_lem :
      (sorter : Sorter String) (claims : List (StoredClaim F))
      → ((t : String)
          → In t (net_ticker_symbols fl sorter claims) ↔ (
              IsNamed t claims
              × ((view : F) × NetView t claims (fl.lit 0 0) view
                  × (fl.lt (fl.lit 0 0) view ≡ true))))
        × Distinct (net_ticker_symbols fl sorter claims)
        × Ordered str_lt (net_ticker_symbols fl sorter claims)
  unfolding net_ticker_symbols
  net_ticker_symbols_lem sorter claims =
      let positive = keep (λ entry. is_positive fl entry.1) (net_tickers fl claims []) in
      let p = sorter.perm str_lt (keys positive) in
      (
        λ t. (
          λ h.
              let k = (In-positive t claims).0 (In-perm t (Permᴰ.symm p) h) in
              (k.0, (sum_on t claims (fl.lit 0 0), sum_on-NetView t claims (fl.lit 0 0), k.1)),
          λ h. In-perm t p (
              (In-positive t claims).1
                (h.0, subst (λ z. fl.lt (fl.lit 0 0) z ≡ true) (NetView-unique t h.1.1) h.1.2)),
        ),
        Distinct-perm p (Distinct-keep _ _ (Distinct-net_tickers claims [] tt)),
        sorter.ordered str_lt _ str_lt_order,
      )
