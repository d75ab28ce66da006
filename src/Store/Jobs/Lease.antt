-- ===== src/Store/Jobs/Lease.antt =====
-- Which row `LeaseNextJob` takes, and what it does to the table.
use signal_ledger_project.Prelude.{
  ℕ, ◌+◌, String, ◌≡◌, ◌≢◌, refl, sym, ap, subst, ◌∙◌, Bool, true, false, ◌⊎◌, inl, inr, Option,
  none, some, arith, ◌==◌, update_where, Bool-cases, In, In-update_where, In-update_where_cases,
  eq_iff, eq_refl, if◌then◌else◌,
}
use signal_ledger_project.Prelude.Int.{pos, ◌+ℤ◌, ◌≤ℤ◌}
use signal_ledger_project.Domain.Research.{Time}
use signal_ledger_project.Domain.Records.{Job}
use signal_ledger_project.Store.Tables.{
  JobRow, JobState, queued, leased, retryable, completed, failed,
}
use signal_ledger_project.Store.Jobs.{
  Rows, eligible, earlier, is_due, lease, lease_next_job, job_of,
}
use signal_ledger_project.Store.Jobs.Next.{lease_next_job-row}

-- A job may be leased at a time: it waits and is available, or it is leased and the lease has run out.
abbrev pub IsDue : Time → JobRow → Type 0
IsDue now row =
    (((row.state ≡ queued) ⊎ (row.state ≡ retryable)) × (row.available_at ≤ℤ now))
    ⊎ ((row.state ≡ leased) × ((until : Time) × (row.leased_until ≡ some until) × (until ≤ℤ now)))

is_due-some :
    (o : Option Time) (now : Time)
    → is_due o now ≡ true
    → (until : Time) × (o ≡ some until) × (until ≤ℤ now)
is_due-some none now h = cc
is_due-some (some until) now h = (until, refl, ground (arith, h))

eligible_at :
    (now : Time) (row : JobRow) (s : JobState)
    → row.state ≡ s
    → eligible now (record row { state = s }) ≡ true
    → IsDue now row
unfolding eligible
eligible_at now row queued e h = inl (inl e, ground (arith, h))
eligible_at now row retryable e h = inl (inr e, ground (arith, h))
eligible_at now row leased e h = inr (e, is_due-some row.leased_until now h)
eligible_at now row completed e h = cc
eligible_at now row failed e h = cc

pub eligible-IsDue : (now : Time) (row : JobRow) → eligible now row ≡ true → IsDue now row
eligible-IsDue now row h = eligible_at now row row.state refl h

pub IsDue-eligible : (now : Time) (row : JobRow) → IsDue now row → eligible now row ≡ true
unfolding eligible
IsDue-eligible now row (inl (inl e, k)) = ground (arith, e, k)
IsDue-eligible now row (inl (inr e, k)) = ground (arith, e, k)
IsDue-eligible now row (inr (e, (until, u, k))) = ground (arith, e, u, k)

-- The row is available no later than the other, and if at the same time, was created no later.
abbrev pub IsAtOrBefore : JobRow → JobRow → Type 0
IsAtOrBefore a b =
    (a.available_at ≤ℤ b.available_at)
    × (b.available_at ≤ℤ a.available_at → a.created_at ≤ℤ b.created_at)

earlier-IsAtOrBefore : (a b : JobRow) → earlier b a ≡ false → IsAtOrBefore a b
unfolding earlier
earlier-IsAtOrBefore a b h = (ground (arith, h), λ k. ground (arith, h, k))

-- A row of the table that may be leased, and that no such row precedes.
pub record IsFirst (locked : String → Bool) (db_now : Time) (rows : Rows) (row : JobRow)
    : Type 0 where
  pub inside : In row rows
  pub due : IsDue db_now row
  pub unlocked : locked row.id ≡ false
  pub first : (r : JobRow) → In r rows → IsDue db_now r → locked r.id ≡ false → IsAtOrBefore row r

-- The row after a lease.
pub record IsLeased (worker : String) (until : Time) (row row' : JobRow) : Type 0 where
  pub same_id : row'.id ≡ row.id
  pub same_type : row'.job_type ≡ row.job_type
  pub same_payload : row'.payload ≡ row.payload
  pub state : row'.state ≡ leased
  pub attempts : row'.attempts ≡ row.attempts + 1
  pub same_budget : row'.max_attempts ≡ row.max_attempts
  pub same_time : row'.available_at ≡ row.available_at
  pub leased_until : row'.leased_until ≡ some until
  pub leased_by : row'.leased_by ≡ some worker
  pub same_error : row'.last_error ≡ row.last_error
  pub same_creation : row'.created_at ≡ row.created_at

pub lease-IsLeased :
    (worker : String) (until : Time) (row : JobRow)
    → IsLeased worker until row (lease worker until row)
lease-IsLeased worker until row = record {
  same_id = refl;
  same_type = refl;
  same_payload = refl;
  state = refl;
  attempts = refl;
  same_budget = refl;
  same_time = refl;
  leased_until = refl;
  leased_by = refl;
  same_error = refl;
  same_creation = refl;
}

-- The row is leased and returned as a job, and no other row of the table changes.
pub record IsTaken (worker : String) (until : Time) (row : JobRow) (before after : Rows) (job : Job)
    : Type 0 where
  pub row' : JobRow
  pub leased_row : IsLeased worker until row row'
  pub inside : In row' after
  pub others : (r : JobRow) → In r before → r.id ≢ row.id → In r after
  pub only : (r : JobRow) → In r after → r.id ≢ row.id → In r before
  pub returned :
      (job.id ≡ row'.id)
      × (job.job_type ≡ row'.job_type)
      × (job.payload ≡ row'.payload)
      × (job.attempts ≡ row'.attempts)
      × (job.max_attempts ≡ row'.max_attempts)

lease-IsTaken :
    (worker : String) (until : Time) (row : JobRow) (rows : Rows)
    → In row rows
    → IsTaken worker until row rows
        (update_where (λ r. r.id == row.id) (lease worker until) rows)
        (record (job_of row) { attempts = row.attempts + 1 })
lease-IsTaken worker until row rows h =
    let p : JobRow → Bool = (λ r. r.id == row.id) in
    record {
      row' = lease worker until row;
      leased_row = lease-IsLeased worker until row;
      inside =
          subst
            (λ b.
              In (if b then lease worker until row else row)
                (update_where p (lease worker until) rows))
            (eq_refl row.id) (In-update_where p (lease worker until) row rows h);
      others = λ r m n. elim (Bool-cases (p r)) [
        | inl t ↦ absurd (n ((eq_iff r.id row.id).0 t))
        | inr t ↦
            subst
              (λ b.
                In (if b then lease worker until r else r)
                  (update_where p (lease worker until) rows))
              t (In-update_where p (lease worker until) r rows m)
      ];
      only = λ r m n.
          let k = In-update_where_cases p (lease worker until) r rows m in
          elim (Bool-cases (p k.0)) [
            | inl t ↦
                let q : r ≡ lease worker until k.0 = k.2 ∙ rw t refl in
                absurd (n (ap (λ z. z.id) q ∙ (eq_iff k.0.id row.id).0 t))
            | inr t ↦ subst (λ z. In z rows) (sym (k.2 ∙ rw t refl)) k.1
          ];
      returned = (refl, refl, refl, refl, refl);
    }

-- LeaseNextJob takes a row that is not locked and that waits and is available, or whose lease has run
-- out; no such row was available earlier, or at the same time and created earlier. It returns the job
-- of that row with one more attempt, leased by the worker for the duration, and changes no other row.
-- Without such a row it returns nothing and changes nothing.
pub lease_next_job_lem :
    (locked : String → Bool) (db_now worker_now : Time) (worker : String) (duration : ℕ)
    (rows : Rows)
    → (((r : JobRow) → In r rows → locked r.id ≡ false → ¬ IsDue db_now r)
        × (lease_next_job locked db_now worker_now worker duration rows ≡ (none, rows)))
      ⊎ ((row : JobRow) × (job : Job) × IsFirst locked db_now rows row
          × ((lease_next_job locked db_now worker_now worker duration rows).0 ≡ some job)
          × IsTaken worker
              (worker_now +ℤ pos duration)
              row
              rows
              (lease_next_job locked db_now worker_now worker duration rows).1
              job)
lease_next_job_lem locked db_now worker_now worker duration rows =
    elim (lease_next_job-row locked db_now worker_now worker duration rows) [
      | inl (n, e) ↦ inl (λ r h l d. n r h (IsDue-eligible db_now r d, l), e)
      | inr (row, v, e) ↦ inr (
        row,
        record (job_of row) { attempts = row.attempts + 1 },
        record {
          inside = v.inside;
          due = eligible-IsDue db_now row v.free.0;
          unlocked = v.free.1;
          first =
              λ r h d l. earlier-IsAtOrBefore row r (v.first r h (IsDue-eligible db_now r d, l));
        },
        ap (λ t. t.0) e,
        subst
            (λ t.
              IsTaken worker (worker_now +ℤ pos duration) row rows t
                (record (job_of row) { attempts = row.attempts + 1 }))
            (sym (ap (λ t. t.1) e))
            (lease-IsTaken worker (worker_now +ℤ pos duration) row rows v.inside),
      )
    ]
