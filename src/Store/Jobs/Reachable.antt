-- ===== src/Store/Jobs/Reachable.antt =====
-- What holds of a queue after any sequence of calls, by any workers at any times.
use signal_ledger_project.Prelude.{◌≡◌, refl, subst, Bool, false, In, Distinct}
use signal_ledger_project.Prelude.Int.{leb_ℤ}
use signal_ledger_project.Domain.Research.{Time}
use signal_ledger_project.Store.Tables.{
  JobRow, JobState, queued, leased, retryable, completed, failed,
}
use signal_ledger_project.Store.Jobs.{Rows, eligible, is_due}
use signal_ledger_project.Store.Jobs.Next.{ids}
use signal_ledger_project.Store.Jobs.Lease.{IsDue-eligible}
use signal_ledger_project.Store.Jobs.Lifecycle.{
  Moves, stays, leases, finishes, retries, gives_up, Reach, here, next, Step-Distinct, Step-Moves,
}

abbrev pub IsFinished : JobState → Type 0
IsFinished completed = Unit
IsFinished failed = Unit
IsFinished _ = ⊥

finished_ineligible : (now : Time) (r : JobRow) → IsFinished r.state → eligible now r ≡ false
unfolding eligible
finished_ineligible now r h = finished_by r.state h
  where
    finished_by :
        (s : JobState)
        → IsFinished s
        → elim s as (λ _. Bool) [
          | queued ↦ leb_ℤ r.available_at now
          | retryable ↦ leb_ℤ r.available_at now
          | leased ↦ is_due r.leased_until now
          | completed ↦ false
          | failed ↦ false
        ]
          ≡ false
    finished_by completed k = refl
    finished_by failed k = refl
    finished_by queued k = absurd k
    finished_by leased k = absurd k
    finished_by retryable k = absurd k

leased_unfinished : (r : JobRow) → r.state ≡ leased → ¬ IsFinished r.state
leased_unfinished r e h = subst IsFinished e h

finished_stays : (r r' : JobRow) → Moves r r' → IsFinished r.state → r' ≡ r
finished_stays r r' (stays e) h = e
finished_stays r r' (leases worker until db_now due v) h =
    cc (finished_ineligible db_now r h, IsDue-eligible db_now r due)
finished_stays r r' (finishes e v) h = absurd (leased_unfinished r e h)
finished_stays r r' (retries e v) h = absurd (leased_unfinished r e h)
finished_stays r r' (gives_up e v) h = absurd (leased_unfinished r e h)

-- The ids stay distinct, and the row of a completed or failed job is never changed or removed.
pub Reach-finished :
    {rows rows' : Rows}
    → Reach rows rows'
    → Distinct (ids rows)
    → (r : JobRow) → In r rows
    → IsFinished r.state
    → Distinct (ids rows') × In r rows'
Reach-finished here d r h f = (d, h)
Reach-finished (next {last = last} path step) d r h f =
    let (d', k) = Reach-finished path d r h f in
    let (r', i, m) = Step-Moves step d' r k in
    (Step-Distinct step d', subst (λ t. In t last) (finished_stays r r' m f) i)
