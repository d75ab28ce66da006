-- ===== src/Store/Jobs/Crashes.antt =====
-- A job whose leases run out, one after the other.
use signal_ledger_project.Prelude.{
  ℕ, zero, suc, ◌+◌, ◌*◌, String, ◌≡◌, refl, subst, ◌∙◌, Bool, true, false, some, [], ◌∷◌, arith,
  eq_refl, update_where,
}
use signal_ledger_project.Prelude.Int.{pos, ◌+ℤ◌}
use signal_ledger_project.Domain.Research.{Time}
use signal_ledger_project.Domain.Records.{Job}
use signal_ledger_project.Store.Tables.{JobRow, leased}
use signal_ledger_project.Store.Jobs.{
  Rows, eligible, lease, lease_next_job, job_of, new_row, pick, next_job,
}

-- A history of so many calls of LeaseNextJob, each of which returns a job, and of no other call.
pub data Leases (rows : Rows) : ℕ → Rows → Type 0 where
  start : Leases rows 0 rows
  again :
      {n : ℕ} {mid : Rows}
      → Leases rows n mid
      → (locked : String → Bool) (db_now worker_now : Time) (worker : String) (duration : ℕ)
        (job : Job)
      → (lease_next_job locked db_now worker_now worker duration mid).0 ≡ some job
      → Leases rows (suc n) (lease_next_job locked db_now worker_now worker duration mid).1

-- A queue of one row that is eligible is leased.
lease_single :
    (now : Time) (worker : String) (duration : ℕ) (r : JobRow)
    → eligible now r ≡ true
    → (lease_next_job (λ _. false) now now worker duration (r ∷ [])).1
      ≡ lease worker (now +ℤ pos duration) r ∷ []
unfolding lease_next_job next_job pick update_where
lease_single now worker duration r e = ground (arith, e, eq_refl r.id)

lease_single-job :
    (now : Time) (worker : String) (duration : ℕ) (r : JobRow)
    → eligible now r ≡ true
    → (lease_next_job (λ _. false) now now worker duration (r ∷ [])).0
      ≡ some (job_of (lease worker (now +ℤ pos duration) r))
unfolding lease_next_job next_job pick
lease_single-job now worker duration r e = ground (arith, e)

pos_add : (m n : ℕ) → pos m +ℤ pos n ≡ pos (m + n)
unfolding ◌+ℤ◌
pos_add m n = ground arith

new_row-eligible :
    (id job_type payload : String) → eligible (pos 0) (new_row id (pos 0) job_type payload) ≡ true
unfolding eligible
new_row-eligible id job_type payload = refl

module _ (id job_type payload worker : String) (duration : ℕ) where
  -- The row after a number of leases that all ran out, each taken when the one before it ended.
  crashed : ℕ → JobRow
  crashed zero = lease worker (pos 0 +ℤ pos duration) (new_row id (pos 0) job_type payload)
  crashed (suc n) = lease worker (pos (suc n * duration) +ℤ pos duration) (crashed n)

  crashed_until : (n : ℕ) → (crashed n).leased_until ≡ some (pos (suc n * duration))
  unfolding crashed
  crashed_until zero = ground (arith, pos_add 0 duration)
  crashed_until (suc n) = ground (arith, pos_add (suc n * duration) duration)

  crashed_next :
      (n : ℕ)
      → lease worker (pos (suc n * duration) +ℤ pos duration) (crashed n) ∷ []
        ≡ crashed (suc n) ∷ []
  unfolding crashed
  crashed_next n = refl

  crashed_state : (n : ℕ) → (crashed n).state ≡ leased
  unfolding crashed
  crashed_state zero = refl
  crashed_state (suc n) = refl

  crashed_attempts : (n : ℕ) → ((crashed n).attempts ≡ suc n) × ((crashed n).max_attempts ≡ 3)
  unfolding crashed
  crashed_attempts zero = (refl, refl)
  crashed_attempts (suc n) = omega (arith, crashed_attempts n)

  crashed-eligible : (n : ℕ) → eligible (pos (suc n * duration)) (crashed n) ≡ true
  unfolding eligible
  crashed-eligible n = ground (arith, crashed_state n, crashed_until n)

  crashed-Leases :
      (n : ℕ) → Leases (new_row id (pos 0) job_type payload ∷ []) (suc n) (crashed n ∷ [])
  unfolding crashed
  crashed-Leases zero =
      let row = new_row id (pos 0) job_type payload in
      let due = new_row-eligible id job_type payload in
      subst (Leases (row ∷ []) 1) (lease_single (pos 0) worker duration row due) (
        again start (λ _. false) (pos 0) (pos 0) worker duration _
          (lease_single-job (pos 0) worker duration row due))
  crashed-Leases (suc n) =
      let now = pos (suc n * duration) in
      let due = crashed-eligible n in
      subst (Leases (new_row id (pos 0) job_type payload ∷ []) (suc (suc n)))
        (lease_single now worker duration (crashed n) due ∙ crashed_next n)
        (again (crashed-Leases n) (λ _. false) now now worker duration _
          (lease_single-job now worker duration (crashed n) due))

  -- The retry budget does not bound the attempts. A worker that dies during its lease leaves the row
  -- eligible once the lease has run out: for every number there is a history of that many calls of
  -- LeaseNextJob and one more, each of which returns a job, and of no other call, after which a new job
  -- with a budget of three has been tried that many times and is leased again.
  pub attempts_unbounded :
      (n : ℕ)
      → (row : JobRow) × Leases (new_row id (pos 0) job_type payload ∷ []) (suc n) (row ∷ [])
        × (row.attempts ≡ suc n)
        × (row.max_attempts ≡ 3)
        × (row.state ≡ leased)
  attempts_unbounded n =
      (crashed n, crashed-Leases n, (crashed_attempts n).0, (crashed_attempts n).1, crashed_state n)
