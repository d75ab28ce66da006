-- ===== src/Strategies/Signals/Collecting.antt =====
-- What the loops of `BuildSignals` collect: which signals, and none twice.
use signal_ledger_project.Prelude.{
  String, ◌≡◌, ◌≢◌, refl, sym, subst, true, false, ◌⊎◌, inl, inr, List, [], ◌∷◌, ◌++◌, map, arith,
  eq_iff, contains, contains_iff, Bool-cases, In, Distinct, In-append_cases,
}
use signal_ledger_project.Prelude.Int.{◌≤ℤ◌}
use signal_ledger_project.Domain.Research.{Time, StoredClaim}
use signal_ledger_project.Domain.Backtest.{ClaimSignal}
use signal_ledger_project.Strategies.Themes.{claim_symbols}
use signal_ledger_project.Strategies.Signals.{
  Key, has_key, signal_of, key_of, skipped, Collected, add_symbol, add_symbols, add_claims,
}

pub has_key→In : (xs : List Key) (k : Key) → has_key xs k ≡ true → In k xs
unfolding has_key
has_key→In [] k h = cc
has_key→In ((b, t) ∷ xs) (a, s) h = ground (arith, eq_iff a b, eq_iff s t, has_key→In xs (a, s))

pub In→has_key : (xs : List Key) (k : Key) → In k xs → has_key xs k ≡ true
unfolding has_key
In→has_key [] k h = absurd h
In→has_key ((b, t) ∷ xs) (a, s) h = ground (arith, eq_iff a b, eq_iff s t, In→has_key xs (a, s))

has_key-cons :
    (xs : List Key) (j k : Key) → has_key (j ∷ xs) k ≡ true → (k ≡ j) ⊎ (has_key xs k ≡ true)
has_key-cons xs j k h = elim (has_key→In (j ∷ xs) k h) [
  | inl e ↦ inl e
  | inr i ↦ inr (In→has_key xs k i)
]

module _ {F : Type 0} where
  -- The signal comes from one of the claims: accepted by a reviewer, with a direction, effective at
  -- or before the cutoff, and naming a symbol of the universe.
  pub record IsProjected (claims : List (StoredClaim F)) (universe : List String) (cutoff : Time)
      (s : ClaimSignal F) : Type 0 where
    pub claim : StoredClaim F
    pub from : In claim claims
    pub accepted : claim.validation_status ≡ "accepted"
    pub directed : claim.direction ≢ "neutral"
    pub in_time : claim.effective_at ≤ℤ cutoff
    pub names : In s.symbol (claim_symbols claim)
    pub tradable : In s.symbol universe
    pub projection : s ≡ signal_of claim s.symbol

  skipped-false :
      (cutoff : Time) (claim : StoredClaim F)
      → skipped cutoff claim ≡ false
      → (claim.validation_status ≡ "accepted")
        × (claim.direction ≢ "neutral")
        × (claim.effective_at ≤ℤ cutoff)
  unfolding skipped
  skipped-false cutoff claim h =
      ground (arith, eq_iff claim.validation_status "accepted", eq_iff claim.direction "neutral")

  pub skipped_of :
      (cutoff : Time) (claim : StoredClaim F)
      → claim.validation_status ≡ "accepted"
      → claim.direction ≢ "neutral"
      → claim.effective_at ≤ℤ cutoff
      → skipped cutoff claim ≡ false
  unfolding skipped
  skipped_of cutoff claim a d t =
      ground (arith, eq_iff claim.validation_status "accepted", eq_iff claim.direction "neutral")

  abbrev pub keys : Collected F → List Key
  keys acc = map key_of acc.signals

  abbrev pub grown : StoredClaim F → Collected F → String → Collected F
  grown claim acc symbol = record {
    seen = (claim.id, symbol) ∷ acc.seen;
    signals = acc.signals ++ signal_of claim symbol ∷ [];
  }

  pub data Added (universe : List String) (claim : StoredClaim F) (acc : Collected F)
      (symbol : String) : Collected F → Type 0 where
    untradable : contains universe symbol ≡ false → Added universe claim acc symbol acc
    duplicate : has_key acc.seen (claim.id, symbol) ≡ true → Added universe claim acc symbol acc
    fresh :
        contains universe symbol ≡ true
        → has_key acc.seen (claim.id, symbol) ≡ false
        → Added universe claim acc symbol (grown claim acc symbol)

  pub add_symbol_cases :
      (universe : List String) (claim : StoredClaim F) (acc : Collected F) (symbol : String)
      → Added universe claim acc symbol (add_symbol universe claim acc symbol)
  unfolding add_symbol
  add_symbol_cases universe claim acc symbol = elim (Bool-cases (contains universe symbol)) [
    | inr out ↦ rw out (untradable out)
    | inl ok ↦ elim (Bool-cases (has_key acc.seen (claim.id, symbol))) [
      | inl dup ↦ rw (ok, dup) (duplicate dup)
      | inr new ↦ rw (ok, new) (fresh ok new)
    ]
  ]

  -- What holds after every step of the loops: `Q` of each signal; `seen` has just their keys; no
  -- key stands twice.
  pub record Inv (Q : ClaimSignal F → Type 0) (acc : Collected F) : Type 0 where
    pub sound : (s : ClaimSignal F) → In s acc.signals → Q s
    pub seen_in : (k : Key) → has_key acc.seen k ≡ true → In k (keys acc)
    pub in_seen : (k : Key) → In k (keys acc) → has_key acc.seen k ≡ true
    pub distinct : Distinct (keys acc)

  In-keys_append :
      (k : Key) (xs : List (ClaimSignal F)) (s : ClaimSignal F)
      → In k (map key_of (xs ++ s ∷ []))
      → In k (map key_of xs) ⊎ (k ≡ key_of s)
  In-keys_append k [] s (inl e) = inr e
  In-keys_append k [] s (inr h) = absurd h
  In-keys_append k (x ∷ xs) s (inl e) = inl (inl e)
  In-keys_append k (x ∷ xs) s (inr h) = elim (In-keys_append k xs s h) [
    | inl j ↦ inl (inr j)
    | inr e ↦ inr e
  ]

  keys_append-In :
      (k : Key) (xs : List (ClaimSignal F)) (s : ClaimSignal F)
      → In k (map key_of xs) ⊎ (k ≡ key_of s)
      → In k (map key_of (xs ++ s ∷ []))
  keys_append-In k [] s (inl h) = absurd h
  keys_append-In k [] s (inr e) = inl e
  keys_append-In k (x ∷ xs) s (inl (inl e)) = inl e
  keys_append-In k (x ∷ xs) s (inl (inr h)) = inr (keys_append-In k xs s (inl h))
  keys_append-In k (x ∷ xs) s (inr e) = inr (keys_append-In k xs s (inr e))

  Distinct-keys_append :
      (xs : List (ClaimSignal F)) (s : ClaimSignal F)
      → Distinct (map key_of xs)
      → ¬ In (key_of s) (map key_of xs)
      → Distinct (map key_of (xs ++ s ∷ []))
  Distinct-keys_append [] s d n = (λ h. h, tt)
  Distinct-keys_append (x ∷ xs) s d n = (
    λ h. elim (In-keys_append (key_of x) xs s h) [ inl k ↦ d.0 k | inr e ↦ n (inl (sym e)) ],
    Distinct-keys_append xs s d.1 (λ h. n (inr h)),
  )

  module _ (Q : ClaimSignal F → Type 0) (universe : List String) where
    pub Added-Inv :
        (claim : StoredClaim F) (acc acc' : Collected F) (symbol : String)
        → (In symbol universe → Q (signal_of claim symbol))
        → Added universe claim acc symbol acc'
        → Inv Q acc
        → Inv Q acc'
    Added-Inv claim acc acc' symbol new (untradable _) v = v
    Added-Inv claim acc acc' symbol new (duplicate _) v = v
    Added-Inv claim acc acc' symbol new (fresh ok unseen) v = record {
      sound = λ s h. elim (In-append_cases s acc.signals (signal_of claim symbol ∷ []) h) [
        | inl k ↦ v.sound s k
        | inr (inl e) ↦ subst Q (sym e) (new ((contains_iff universe symbol).0 ok))
        | inr (inr k) ↦ absurd k
      ];
      seen_in = λ k h.
          keys_append-In k acc.signals (signal_of claim symbol)
            (elim (has_key-cons acc.seen (claim.id, symbol) k h) [
              | inl e ↦ inr e
              | inr i ↦ inl (v.seen_in k i)
            ]);
      in_seen = λ k h.
          In→has_key ((claim.id, symbol) ∷ acc.seen) k
            (elim (In-keys_append k acc.signals (signal_of claim symbol) h) [
              | inl i ↦ inr (has_key→In acc.seen k (v.in_seen k i))
              | inr e ↦ inl e
            ]);
      distinct =
          Distinct-keys_append acc.signals (signal_of claim symbol) v.distinct
            (λ h. cc (v.in_seen (claim.id, symbol) h));
    }

    pub add_symbols-Inv :
        (claim : StoredClaim F) (symbols : List String) (acc : Collected F)
        → ((symbol : String) → In symbol symbols → In symbol universe → Q (signal_of claim symbol))
        → Inv Q acc
        → Inv Q (add_symbols universe claim acc symbols)
    unfolding add_symbols
    add_symbols-Inv claim [] acc new v = v
    add_symbols-Inv claim (symbol ∷ symbols) acc new v =
        add_symbols-Inv claim symbols (add_symbol universe claim acc symbol)
          (λ t k u. new t (inr k) u)
          (Added-Inv claim acc _ symbol (new symbol (inl refl))
            (add_symbol_cases universe claim acc symbol) v)

    add_claims-Inv :
        (cutoff : Time) (claims : List (StoredClaim F)) (acc : Collected F)
        → ((claim : StoredClaim F) (symbol : String)
            → In claim claims
            → skipped cutoff claim ≡ false
            → In symbol (claim_symbols claim)
            → In symbol universe
            → Q (signal_of claim symbol))
        → Inv Q acc
        → Inv Q (add_claims universe cutoff acc claims)
    unfolding add_claims
    add_claims-Inv cutoff [] acc new v = v
    add_claims-Inv cutoff (claim ∷ claims) acc new v = elim (Bool-cases (skipped cutoff claim)) [
      | inl skip ↦ rw skip (add_claims-Inv cutoff claims acc (λ c s h. new c s (inr h)) v)
      | inr run ↦ rw run (
          add_claims-Inv cutoff claims _ (λ c s h. new c s (inr h))
            (add_symbols-Inv claim (claim_symbols claim) acc
              (λ symbol h. new claim symbol (inl refl) run h) v))
    ]

  -- The keys of what is collected are distinct, and each signal is projected from a claim.
  pub collect-Inv :
      (claims : List (StoredClaim F)) (universe : List String) (cutoff : Time)
      → Inv
          (IsProjected claims universe cutoff)
          (add_claims universe cutoff (record { seen = []; signals = [] }) claims)
  collect-Inv claims universe cutoff =
      add_claims-Inv (IsProjected claims universe cutoff) universe cutoff claims _
        (λ claim symbol h run named ok.
          let (a, d, t) = skipped-false cutoff claim run in
          record {
            claim = claim;
            from = h;
            accepted = a;
            directed = d;
            in_time = t;
            names = named;
            tradable = ok;
            projection = refl;
          })
        (record {
          sound = λ s h. absurd h;
          seen_in = λ k h. absurd (has_key→In [] k h);
          in_seen = λ k h. absurd h;
          distinct = tt;
        })
