-- ===== src/Store/Candidates/Recency.antt =====
-- The run that `DISTINCT ON` keeps of each strategy is its most recent one.
use signal_ledger_project.Prelude.{
  String, ◌≡◌, refl, sym, ap, ◌∙◌, subst, Bool, true, false, inl, inr, ◌⊎◌, ◌↔◌, Bool-cases, Option,
  none, some, List, [], ◌∷◌, eq_iff, arith, contains, contains_iff, keep, In, All-In, In-of_keep,
  In-keep, if◌then◌else◌,
}
use signal_ledger_project.Prelude.Int.{eqb_ℤ, ◌≤ℤ◌}
use signal_ledger_project.Prelude.Text.{str_lt_asymm, str_lt_trans_not, str_lt_total}
use signal_ledger_project.Prelude.Sorting.{Sorter, Ordered, IsWeakOrder, In-perm}
use signal_ledger_project.Domain.Research.{Time}
use signal_ledger_project.Domain.Backtest.{BacktestRun}
use signal_ledger_project.Domain.Candidate.{CandidateFilter}
use signal_ledger_project.Store.Candidates.{
  more_recent, by_recency, wanted_run, first_of_each, selected_runs,
}
use mathlib.Core.List.Permᴰ

more_recent_asymm :
    (a b : Option Time) (c d : Time) → more_recent a b c d ≡ true → more_recent b a d c ≡ false
unfolding more_recent
more_recent_asymm (some a) (some b) c d h = ground arith
more_recent_asymm (some a) none c d h = refl
more_recent_asymm none (some b) c d h = cc
more_recent_asymm none none c d h = ground arith

more_recent_trans_not :
    (a b e : Option Time) (c d f : Time)
    → more_recent b a d c ≡ false
    → more_recent e b f d ≡ false
    → more_recent e a f c ≡ false
unfolding more_recent
more_recent_trans_not (some a) (some b) (some e) c d f h k = ground arith
more_recent_trans_not (some a) (some b) none c d f h k = refl
more_recent_trans_not (some a) none (some e) c d f h k = cc
more_recent_trans_not (some a) none none c d f h k = refl
more_recent_trans_not none (some b) e c d f h k = cc
more_recent_trans_not none none (some e) c d f h k = cc
more_recent_trans_not none none none c d f h k = ground arith

by_recency_order : IsWeakOrder by_recency
unfolding by_recency
by_recency_order = record {
  asymm = λ a b h. ground (
    arith,
    h,
    eq_iff a.strategy_id b.strategy_id,
    eq_iff b.strategy_id a.strategy_id,
    str_lt_asymm a.strategy_id b.strategy_id,
    more_recent_asymm a.completed_at b.completed_at a.created_at b.created_at,
  );
  trans_not = λ a b e h k. ground (
    arith,
    h,
    k,
    eq_iff a.strategy_id b.strategy_id,
    eq_iff b.strategy_id a.strategy_id,
    eq_iff e.strategy_id b.strategy_id,
    eq_iff e.strategy_id a.strategy_id,
    str_lt_trans_not a.strategy_id b.strategy_id e.strategy_id,
    str_lt_total b.strategy_id a.strategy_id,
    str_lt_asymm e.strategy_id b.strategy_id,
    str_lt_asymm b.strategy_id a.strategy_id,
    more_recent_trans_not a.completed_at b.completed_at e.completed_at a.created_at b.created_at
        e.created_at,
  );
}

-- A run is kept as the first of its strategy, or behind it.
first_of_each-cons :
    (seen : List String) (r : BacktestRun) (runs : List BacktestRun) (run : BacktestRun)
    → In run (first_of_each seen (r ∷ runs))
    → In run (first_of_each (r.strategy_id ∷ seen) runs)
      ⊎ ((run ≡ r) × (contains seen r.strategy_id ≡ false))
unfolding first_of_each
first_of_each-cons seen r runs run h = by_test (contains seen r.strategy_id) refl h
  where
    by_test :
        (t : Bool)
        → contains seen r.strategy_id ≡ t
        → In run (
            if t
            then first_of_each (r.strategy_id ∷ seen) runs
            else r ∷ first_of_each (r.strategy_id ∷ seen) runs)
        → In run (first_of_each (r.strategy_id ∷ seen) runs)
          ⊎ ((run ≡ r) × (contains seen r.strategy_id ≡ false))
    by_test true e m = inl m
    by_test false e (inl q) = inr (q, e)
    by_test false e (inr m) = inl m

-- What is kept of a list is not after another element of its strategy.
first_of_each-In :
    (seen : List String) (runs : List BacktestRun) (run : BacktestRun)
    → In run (first_of_each seen runs)
    → In run runs × (¬ In run.strategy_id seen)
unfolding first_of_each
first_of_each-In seen [] run h = absurd h
first_of_each-In seen (r ∷ runs) run h = elim (first_of_each-cons seen r runs run h) [
  | inl m ↦
      let ih = first_of_each-In (r.strategy_id ∷ seen) runs run m in (inr ih.0, λ k. ih.1 (inr k))
  | inr (e, f) ↦ (
    inl e,
    λ k.
        let there : contains seen r.strategy_id ≡ true =
          (contains_iff seen r.strategy_id).1 (subst (λ z. In z.strategy_id seen) e k) in
        absurd (ground (arith, there, f)),
  )
]

first_of_each-first :
    (seen : List String) (runs : List BacktestRun) (run other : BacktestRun)
    → Ordered by_recency runs
    → In run (first_of_each seen runs)
    → In other runs
    → other.strategy_id ≡ run.strategy_id
    → (other ≡ run) ⊎ (by_recency other run ≡ false)
unfolding first_of_each
first_of_each-first seen [] run other o h k e = absurd h
first_of_each-first seen (r ∷ runs) run other o h k e =
    elim (first_of_each-cons seen r runs run h) [
      | inl m ↦
          let fresh = (first_of_each-In (r.strategy_id ∷ seen) runs run m).1 in
          elim k [
            | inl q ↦ absurd (fresh (inl (sym e ∙ ap (λ z. z.strategy_id) q)))
            | inr l ↦ first_of_each-first (r.strategy_id ∷ seen) runs run other o.1 m l e
          ]
      | inr (q, f) ↦ elim k [
        | inl p ↦ inl (p ∙ sym q)
        | inr l ↦ inr (
            subst (λ z. by_recency other z ≡ false) (sym q)
              (All-In (λ y. by_recency y r ≡ false) other runs o.0 l))
      ]
    ]

-- A completed run that the filter admits; an empty id in the filter admits every one.
abbrev pub IsWanted : CandidateFilter → BacktestRun → Type 0
IsWanted filter run =
    (run.status ≡ "completed")
    × ((filter.strategy_id ≡ "") ⊎ (run.strategy_id ≡ filter.strategy_id))
    × ((filter.backtest_id ≡ "") ⊎ (run.id ≡ filter.backtest_id))

wanted_run_iff :
    (filter : CandidateFilter) (run : BacktestRun)
    → (wanted_run filter run ≡ true) ↔ IsWanted filter run
unfolding wanted_run
wanted_run_iff filter run = ground (
  arith,
  eq_iff run.status "completed",
  eq_iff filter.strategy_id "",
  eq_iff run.strategy_id filter.strategy_id,
  eq_iff filter.backtest_id "",
  eq_iff run.id filter.backtest_id,
)

-- The other run does not come before this one by recency: it was completed earlier, or has no time of
-- completion, or it was completed at the same time and created no later.
pub data IsNotNewer (other run : BacktestRun) : Type 0 where
  before :
      (t u : Time)
      → other.completed_at ≡ some t
      → run.completed_at ≡ some u
      → t ≤ℤ u
      → ¬ (u ≤ℤ t)
      → IsNotNewer other run
  tied :
      (t u : Time)
      → other.completed_at ≡ some t
      → run.completed_at ≡ some u
      → t ≤ℤ u
      → u ≤ℤ t
      → other.created_at ≤ℤ run.created_at
      → IsNotNewer other run
  unknown :
      (u : Time) → other.completed_at ≡ none → run.completed_at ≡ some u → IsNotNewer other run
  both_unknown :
      other.completed_at ≡ none
      → run.completed_at ≡ none
      → other.created_at ≤ℤ run.created_at
      → IsNotNewer other run

more_recent-IsNotNewer :
    (other run : BacktestRun) (a b : Option Time)
    → other.completed_at ≡ a
    → run.completed_at ≡ b
    → more_recent a b other.created_at run.created_at ≡ false
    → IsNotNewer other run
unfolding more_recent
more_recent-IsNotNewer other run (some t) (some u) p q h = elim (Bool-cases (eqb_ℤ t u)) [
  | inl e ↦ tied t u p q (ground (arith, e)) (ground (arith, e)) (ground (arith, e, h))
  | inr e ↦ before t u p q (ground (arith, e, h)) (λ k. ground (arith, e, h, k))
]
more_recent-IsNotNewer other run (some t) none p q h = cc
more_recent-IsNotNewer other run none (some u) p q h = unknown u p q
more_recent-IsNotNewer other run none none p q h = both_unknown p q (ground (arith, h))

-- A selected run is a wanted one of the table, and no wanted run of its strategy is more recent.
pub record IsLatest (filter : CandidateFilter) (runs : List BacktestRun) (run : BacktestRun)
    : Type 0 where
  pub stored : In run runs
  pub wanted : IsWanted filter run
  pub latest :
      (other : BacktestRun)
      → In other runs
      → IsWanted filter other
      → other.strategy_id ≡ run.strategy_id
      → (other ≡ run) ⊎ IsNotNewer other run

pub selected_runs-IsLatest :
    (sorter : Sorter BacktestRun) (filter : CandidateFilter) (runs : List BacktestRun)
    (run : BacktestRun)
    → In run (selected_runs sorter filter runs)
    → IsLatest filter runs run
unfolding selected_runs by_recency
selected_runs-IsLatest sorter filter runs run h =
    let wanted = keep (wanted_run filter) runs in
    let p = sorter.perm by_recency wanted in
    let o = sorter.ordered by_recency wanted by_recency_order in
    let m =
      In-of_keep (wanted_run filter) run runs
        (In-perm run (Permᴰ.symm p) (first_of_each-In [] _ run h).0) in
    record {
      stored = m.0;
      wanted = (wanted_run_iff filter run).0 m.1;
      latest = λ other k w e.
          elim (first_of_each-first [] _ run other o h
            (In-perm other p
              (In-keep (wanted_run filter) other runs k ((wanted_run_iff filter other).1 w)))
            e) [
              | inl q ↦ inl q
              | inr f ↦ inr (
                  more_recent-IsNotNewer other run other.completed_at run.completed_at refl refl
                    (ground (arith, f, eq_iff other.strategy_id run.strategy_id)))
            ];
    }
