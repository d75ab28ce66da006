-- ===== src/Examples/Queue.antt =====
-- The job queue with two jobs.
use signal_ledger_project.Prelude.{
  ℕ, ◌<◌, String, ◌≡◌, ◌≢◌, refl, Bool, false, none, some, [], ◌∷◌, arith, eq_iff, In, Distinct,
  update_where, inl, ◌⊎◌,
}
use signal_ledger_project.Prelude.Int.{pos, ◌+ℤ◌, ◌≤ℤ◌}
use signal_ledger_project.Store.Tables.{JobRow, leased}
use signal_ledger_project.Store.Jobs.{
  Rows, new_row, lease, job_of, finish, lease_next_job, eligible, earlier, pick, next_job,
}
use signal_ledger_project.Store.Jobs.Next.{ids}
use signal_ledger_project.Store.Jobs.Lease.{IsDue, IsFirst, IsTaken, lease_next_job_lem}
use signal_ledger_project.Store.Jobs.Lifecycle.{Step, Reach}
use signal_ledger_project.Store.Jobs.Reachable.{Reach-finished}
use signal_ledger_project.Store.Jobs.Exclusive.{Running, lease_exclusive}
use signal_ledger_project.Store.Jobs.Crashes.{Leases, attempts_unbounded}
use signal_ledger_project.Domain.Records.{Job}

abbrev row1 : JobRow
row1 = new_row "j1" (pos 1) "extract_document" "{}"

abbrev row2 : JobRow
row2 = new_row "j2" (pos 2) "run_backtest" "{}"

abbrev rows : Rows
rows = row1 ∷ row2 ∷ []

abbrev nobody : String → Bool
nobody id = false

rows-Distinct : Distinct (ids rows)
rows-Distinct = (λ h. ground (arith, eq_iff "j1" "j2"), (λ h. h, tt))

abbrev leased1 : Rows
leased1 = lease "w" (pos 10 +ℤ pos 5) row1 ∷ row2 ∷ []

lease_first :
    lease_next_job nobody (pos 10) (pos 10) "w" 5 rows
    ≡ (some (job_of (lease "w" (pos 15) row1)), leased1)
unfolding lease_next_job next_job pick eligible earlier update_where
lease_first = refl

lease_first_job :
    (lease_next_job nobody (pos 10) (pos 10) "w" 5 rows).0 ≡ some (job_of (lease "w" (pos 15) row1))
unfolding lease_next_job next_job pick eligible earlier update_where
lease_first_job = refl

-- The second worker takes the other job, and a third one finds none, while the lease runs.
abbrev after_first : Rows
after_first = (lease_next_job nobody (pos 10) (pos 10) "w" 5 rows).1

abbrev two_leased : Rows
two_leased = (lease_next_job nobody (pos 11) (pos 11) "u" 1 after_first).1

lease_third_job :
    (lease_next_job nobody (pos 13) (pos 13) "v" 5 two_leased).0
    ≡ some (record (job_of row2) { attempts = 2 })
unfolding lease_next_job next_job pick eligible earlier update_where ◌+ℤ◌
lease_third_job = refl

still_running : (now : ℕ) → now < 15 → ¬ (pos 10 +ℤ pos 5 ≤ℤ pos now)
unfolding ◌+ℤ◌
still_running now h k = omega (arith, h, k)

lease_exclusive_example : (job_of row2).id ≢ (job_of row1).id
lease_exclusive_example =
    lease_exclusive rows nobody (pos 10) (pos 10) "w" 5 (job_of (lease "w" (pos 15) row1))
      rows-Distinct lease_first_job two_leased
      (Running.leasing Running.start nobody (pos 11) (pos 11) "u" 1
        (still_running 11 (omega arith)))
      nobody (pos 13) (pos 13) "v" 5 (record (job_of row2) { attempts = 2 })
      (still_running 13 (omega arith)) lease_third_job

lease_next_job_lem_example :
    (((r : JobRow) → In r rows → nobody r.id ≡ false → ¬ IsDue (pos 10) r)
      × (lease_next_job nobody (pos 10) (pos 10) "w" 5 rows ≡ (none, rows)))
    ⊎ ((row : JobRow) × (job : Job) × IsFirst nobody (pos 10) rows row
        × ((lease_next_job nobody (pos 10) (pos 10) "w" 5 rows).0 ≡ some job)
        × IsTaken "w" (pos 10 +ℤ pos 5) row rows after_first job)
lease_next_job_lem_example = lease_next_job_lem nobody (pos 10) (pos 10) "w" 5 rows

abbrev done1 : JobRow
done1 = finish (lease "w" (pos 15) row1)

abbrev settled : Rows
settled = done1 ∷ row2 ∷ []

abbrev step2 : Step settled (lease_next_job nobody (pos 20) (pos 20) "w" 5 settled).1
step2 = Step.leases_next nobody (pos 20) (pos 20) "w" 5

Reach-finished_example :
    Distinct (ids (lease_next_job nobody (pos 20) (pos 20) "w" 5 settled).1)
    × In done1 (lease_next_job nobody (pos 20) (pos 20) "w" 5 settled).1
Reach-finished_example =
    Reach-finished (Reach.next Reach.here step2) rows-Distinct done1 (inl refl) tt

attempts_unbounded_example :
    (row : JobRow) × Leases (new_row "j1" (pos 0) "run_backtest" "{}" ∷ []) 8 (row ∷ [])
    × (row.attempts ≡ 8)
    × (row.max_attempts ≡ 3)
    × (row.state ≡ leased)
attempts_unbounded_example = attempts_unbounded "j1" "run_backtest" "{}" "w" 30 7
