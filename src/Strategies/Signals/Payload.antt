-- ===== src/Strategies/Signals/Payload.antt =====
-- The payload of `BuildSignals`: what is in it, and that it is determined by its inputs.
use signal_ledger_project.Prelude.{
  String, ◌≡◌, refl, sym, ap, subst, ◌∙◌, Bool, true, false, not, keep, inl, inr, ◌↔◌, List, [],
  ◌∷◌, map, arith, ◌==◌, eq_iff, if◌then◌else◌, Bool-cases, In, Distinct, In-map, In-map_cases,
}
use signal_ledger_project.Prelude.Int.{ltb_ℤ, eqb_ℤ}
use signal_ledger_project.Prelude.Text.{str_lt, str_lt_asymm, str_lt_total, str_lt_trans_not}
use signal_ledger_project.Prelude.Sorting.{Sorter, IsWeakOrder, In-perm, Distinct-perm, sort_unique}
use signal_ledger_project.Domain.Research.{Time, StoredClaim}
use signal_ledger_project.Domain.Backtest.{ClaimSignal}
use signal_ledger_project.Strategies.Signals.{
  Collected, signal_of, key_of, skipped, add_claims, before, collect, build_signals,
}
use signal_ledger_project.Strategies.Signals.Collecting.{IsProjected, collect-Inv, skipped_of}
use signal_ledger_project.Strategies.Signals.Visiting.{collected-key}
use mathlib.Core.List.Permᴰ

module _ {F : Type 0} where
  before_asymm : (a b : ClaimSignal F) → before a b ≡ true → before b a ≡ false
  unfolding before
  before_asymm a b h = ground (
    arith,
    eq_iff a.symbol b.symbol,
    eq_iff b.symbol a.symbol,
    str_lt_asymm a.symbol b.symbol,
    str_lt_asymm a.claim_id b.claim_id,
  )

  -- Signals that the order does not tell apart have the same key.
  before_total :
      (a b : ClaimSignal F) → before a b ≡ false → before b a ≡ false → key_of a ≡ key_of b
  unfolding before
  before_total a b h k = ground (
    arith,
    eq_iff a.symbol b.symbol,
    eq_iff b.symbol a.symbol,
    str_lt_total a.symbol b.symbol,
    str_lt_total a.claim_id b.claim_id,
  )

  -- The order on instants and claim ids that decides between signals of one symbol.
  later_before : ClaimSignal F → ClaimSignal F → Bool
  later_before a b =
      if not (eqb_ℤ a.effective_at b.effective_at)
      then ltb_ℤ a.effective_at b.effective_at
      else str_lt a.claim_id b.claim_id

  before_lem :
      (a b : ClaimSignal F)
      → before a b ≡ (if a.symbol == b.symbol then later_before a b else str_lt a.symbol b.symbol)
  unfolding before later_before
  before_lem a b = ground arith

  later_trans_not :
      (a b c : ClaimSignal F)
      → later_before b a ≡ false
      → later_before c b ≡ false
      → later_before c a ≡ false
  unfolding later_before
  later_trans_not a b c h k = ground (arith, str_lt_trans_not a.claim_id b.claim_id c.claim_id)

  before_trans_not :
      (a b c : ClaimSignal F) → before b a ≡ false → before c b ≡ false → before c a ≡ false
  before_trans_not a b c h k = rw (before_lem c a) (
      ground (
        arith,
        before_lem b a,
        before_lem c b,
        eq_iff b.symbol a.symbol,
        eq_iff c.symbol b.symbol,
        eq_iff c.symbol a.symbol,
        later_trans_not a b c,
        str_lt_trans_not a.symbol b.symbol c.symbol,
        str_lt_total b.symbol a.symbol,
        str_lt_total c.symbol b.symbol,
      ))

  before-IsWeakOrder : IsWeakOrder (before {F = F})
  before-IsWeakOrder = record { asymm = before_asymm; trans_not = before_trans_not }

  -- Of claims with distinct ids, the one with an id is unique.
  id_unique :
      (claims : List (StoredClaim F)) (c d : StoredClaim F)
      → Distinct (map (λ claim. claim.id) claims)
      → In c claims
      → In d claims
      → c.id ≡ d.id
      → c ≡ d
  id_unique [] c d n h k e = absurd h
  id_unique (x ∷ claims) c d n (inl p) (inl q) e = p ∙ sym q
  id_unique (x ∷ claims) c d n (inl p) (inr k) e = absurd (
      n.0 (
        subst (λ t. In t (map (λ claim. claim.id) claims)) (sym e ∙ ap (λ t. t.id) p)
          (In-map (λ claim. claim.id) d claims k)))
  id_unique (x ∷ claims) c d n (inr h) (inl q) e = absurd (
      n.0 (
        subst (λ t. In t (map (λ claim. claim.id) claims)) (e ∙ ap (λ t. t.id) q)
          (In-map (λ claim. claim.id) c claims h)))
  id_unique (x ∷ claims) c d n (inr h) (inr k) e = id_unique claims c d n.1 h k e

  -- A projection is determined by its key.
  IsProjected-unique :
      (claims : List (StoredClaim F)) (universe : List String) (cutoff : Time) (s t : ClaimSignal F)
      → Distinct (map (λ claim. claim.id) claims)
      → IsProjected claims universe cutoff s
      → IsProjected claims universe cutoff t
      → key_of s ≡ key_of t
      → s ≡ t
  IsProjected-unique claims universe cutoff s t n p q e =
      p.projection
      ∙ ap (λ c. signal_of c s.symbol) (id_unique claims p.claim q.claim n p.from q.from ids)
      ∙ ap (signal_of q.claim) (ap (λ k. k.1) e)
      ∙ sym q.projection
    where
      ids : p.claim.id ≡ q.claim.id
      ids =
          sym (ap (λ x. x.claim_id) p.projection)
          ∙ ap (λ k. k.0) e
          ∙ ap (λ x. x.claim_id) q.projection

  Distinct-of_map : (xs : List (ClaimSignal F)) → Distinct (map key_of xs) → Distinct xs
  Distinct-of_map [] d = tt
  Distinct-of_map (x ∷ xs) d = (λ h. d.0 (In-map key_of x xs h), Distinct-of_map xs d.1)

  IsProjected-mono :
      {claims claims' : List (StoredClaim F)} {universe universe' : List String} {cutoff : Time}
      (s : ClaimSignal F)
      → ((c : StoredClaim F) → In c claims → In c claims')
      → ((a : String) → In a universe → In a universe')
      → IsProjected claims universe cutoff s
      → IsProjected claims' universe' cutoff s
  IsProjected-mono s more_claims more_symbols p = record {
    claim = p.claim;
    from = more_claims p.claim p.from;
    accepted = p.accepted;
    directed = p.directed;
    in_time = p.in_time;
    names = p.names;
    tradable = more_symbols s.symbol p.tradable;
    projection = p.projection;
  }

  late_skipped :
      (cutoff : Time) (claim : StoredClaim F)
      → ltb_ℤ cutoff claim.effective_at ≡ true
      → skipped cutoff claim ≡ true
  unfolding skipped
  late_skipped cutoff claim h = ground arith

  add_claims-keep :
      (universe : List String) (cutoff : Time) (claims : List (StoredClaim F)) (acc : Collected F)
      → add_claims universe cutoff acc claims
        ≡ add_claims universe cutoff acc (keep (λ c. not (ltb_ℤ cutoff c.effective_at)) claims)
  unfolding add_claims keep
  add_claims-keep universe cutoff [] acc = refl
  add_claims-keep universe cutoff (claim ∷ claims) acc =
      elim (Bool-cases (ltb_ℤ cutoff claim.effective_at)) [
        | inl late ↦
            rw (late, late_skipped cutoff claim late) (add_claims-keep universe cutoff claims acc)
        | inr early ↦ rw early (add_claims-keep universe cutoff claims _)
      ]

  module _ (claims : List (StoredClaim F)) (universe : List String) (cutoff : Time) where
    collect_sound :
        (s : ClaimSignal F)
        → In s (collect claims universe cutoff)
        → IsProjected claims universe cutoff s
    unfolding collect
    collect_sound = (collect-Inv claims universe cutoff).sound

    collect_complete :
        (s : ClaimSignal F)
        → Distinct (map (λ claim. claim.id) claims)
        → IsProjected claims universe cutoff s
        → In s (collect claims universe cutoff)
    unfolding collect
    collect_complete s n p =
        let run = skipped_of cutoff p.claim p.accepted p.directed p.in_time in
        let k =
          collected-key universe cutoff p.claim s.symbol claims p.from run p.names p.tradable in
        let (t, h, e) =
          In-map_cases key_of (p.claim.id, s.symbol) (collect claims universe cutoff) k in
        subst (λ u. In u (collect claims universe cutoff))
          (sym (
            IsProjected-unique claims universe cutoff s t n p (collect_sound t h)
              (ap key_of p.projection ∙ e)))
          h

    collect-Distinct : Distinct (map key_of (collect claims universe cutoff))
    unfolding collect
    collect-Distinct = (collect-Inv claims universe cutoff).distinct

  module _ (sorter : Sorter (ClaimSignal F)) where
    -- For claims with distinct ids, the payload holds exactly the projections of the accepted claims
    -- with a direction that are effective at or before the cutoff onto the symbols of the universe
    -- that they name.
    pub In-build_signals :
        (claims : List (StoredClaim F)) (universe : List String) (cutoff : Time) (s : ClaimSignal F)
        → Distinct (map (λ claim. claim.id) claims)
        → In s (build_signals sorter claims universe cutoff) ↔ IsProjected claims universe cutoff s
    unfolding build_signals
    In-build_signals claims universe cutoff s n =
        let same = sorter.perm before (collect claims universe cutoff) in
        (
          λ h. collect_sound claims universe cutoff s (In-perm s (Permᴰ.symm same) h),
          λ p. In-perm s same (collect_complete claims universe cutoff s n p),
        )

    -- No claim signals a symbol twice, whatever ids the claims have.
    pub build_signals-Distinct :
        (claims : List (StoredClaim F)) (universe : List String) (cutoff : Time)
        → Distinct (map key_of (build_signals sorter claims universe cutoff))
    unfolding build_signals
    build_signals-Distinct claims universe cutoff =
        Distinct-perm (Permᴰ.map key_of (sorter.perm before (collect claims universe cutoff)))
          (collect-Distinct claims universe cutoff)

    -- The payload depends only on which claims there are and which symbols the universe has: for
    -- claims with distinct ids neither their order nor that of the symbols, nor a symbol that stands
    -- twice, changes it, whichever sorting algorithm runs.
    pub build_signals_deterministic :
        (claims claims' : List (StoredClaim F)) (universe universe' : List String) (cutoff : Time)
        → Distinct (map (λ claim. claim.id) claims)
        → Distinct (map (λ claim. claim.id) claims')
        → ((c : StoredClaim F) → In c claims ↔ In c claims')
        → ((a : String) → In a universe ↔ In a universe')
        → build_signals sorter claims universe cutoff
          ≡ build_signals sorter claims' universe' cutoff
    unfolding build_signals
    build_signals_deterministic claims claims' universe universe' cutoff n n' same_claims
          same_symbols =
        sort_unique sorter before before-IsWeakOrder _ _
          (λ a b h k p q.
            IsProjected-unique claims universe cutoff a b n
              (collect_sound claims universe cutoff a h) (collect_sound claims universe cutoff b k)
              (before_total a b p q))
          (Distinct-of_map _ (collect-Distinct claims universe cutoff))
          (Distinct-of_map _ (collect-Distinct claims' universe' cutoff))
          (λ a h. collect_complete claims' universe' cutoff a n' (
            IsProjected-mono a (λ c. (same_claims c).0) (λ b. (same_symbols b).0)
              (collect_sound claims universe cutoff a h)))
          (λ a h. collect_complete claims universe cutoff a n (
            IsProjected-mono a (λ c. (same_claims c).1) (λ b. (same_symbols b).1)
              (collect_sound claims' universe' cutoff a h)))

    -- Claims that are effective after the cutoff do not reach the payload: without them it is the
    -- same list.
    pub build_signals_no_look_ahead :
        (claims : List (StoredClaim F)) (universe : List String) (cutoff : Time)
        → build_signals sorter claims universe cutoff
          ≡ build_signals sorter
              (keep (λ c. not (ltb_ℤ cutoff c.effective_at)) claims)
              universe
              cutoff
    unfolding build_signals collect
    build_signals_no_look_ahead claims universe cutoff =
        ap (λ acc. sorter.sort before acc.signals)
          (add_claims-keep universe cutoff claims (record { seen = []; signals = [] }))
