-- ===== src/Store/Jobs/Exclusive.antt =====
-- The calls of the queue while a lease runs.
use signal_ledger_project.Prelude.{
  ℕ, List, String, ◌≡◌, ◌≢◌, sym, ap, subst, ◌∙◌, Bool, false, inl, inr, some, arith, ◌==◌, eq_iff,
  if◌then◌else◌, In, In-append_left, In-update_where, Distinct, update_where, Bool-cases,
}
use signal_ledger_project.Prelude.Int.{pos, ◌+ℤ◌, ◌≤ℤ◌}
use signal_ledger_project.Domain.Research.{Time}
use signal_ledger_project.Domain.Backtest.{RawMessage}
use signal_ledger_project.Domain.Records.{Job}
use signal_ledger_project.Store.Base.{ok}
use signal_ledger_project.Store.Tables.{JobRow, leased}
use signal_ledger_project.Store.Jobs.{
  Rows, lease_next_job, insert_job, complete_job, fail_job, finish, release, holds,
}
use signal_ledger_project.Store.Jobs.Next.{ids, row_unique}
use signal_ledger_project.Store.Jobs.Lease.{IsDue, lease_next_job_lem}
use signal_ledger_project.Store.Jobs.Lifecycle.{
  inserts, leases_next, completes, fails, Step-Distinct, update_one-eq, fail_job-eq, insert_job-eq,
}

-- A history of calls of the queue, by any workers, in which the clock of the database stays before a
-- time at every lease, and no call reports an outcome of the job.
pub data Running (id : String) (until : Time) (rows : Rows) : Rows → Type 0 where
  start : Running id until rows rows
  inserting :
      {mid last : Rows}
      → Running id until rows mid
      → (new_id : String) (now : Time) (job_type : String) (payload : RawMessage) {job : Job}
      → insert_job new_id now job_type payload mid ≡ ok (job, last)
      → Running id until rows last
  leasing :
      {mid : Rows}
      → Running id until rows mid
      → (locked : String → Bool) (db_now worker_now : Time) (worker : String) (duration : ℕ)
      → ¬ (until ≤ℤ db_now)
      → Running id until rows (lease_next_job locked db_now worker_now worker duration mid).1
  completing :
      {mid last : Rows}
      → Running id until rows mid
      → (other : String) → id ≢ other
      → complete_job other mid ≡ ok last
      → Running id until rows last
  failing :
      {mid last : Rows}
      → Running id until rows mid
      → (accepts : List ℕ → Bool) (now : Time) (job : Job) (cause : List ℕ) {terminal : Bool}
      → id ≢ job.id
      → fail_job accepts now job cause mid ≡ ok (terminal, last)
      → Running id until rows last

-- The leased row is in the table, unchanged, and the ids are distinct.
abbrev IsKept : JobRow → Rows → Type 0
IsKept r rows = Distinct (ids rows) × In r rows

other_kept :
    (id other : String) (f : JobRow → JobRow) (rows : Rows) (r : JobRow)
    → r.id ≡ id
    → id ≢ other
    → In r rows
    → In r (update_where (holds other) f rows)
other_kept id other f rows r named ne h =
    let no : holds other r ≡ false = elim (Bool-cases (r.id == other)) [
      | inl t ↦ absurd (ne (sym named ∙ (eq_iff r.id other).0 t))
      | inr t ↦ ground (arith, t)
    ] in
    subst (λ b. In (if b then f r else r) (update_where (holds other) f rows)) no
      (In-update_where (holds other) f r rows h)

not-IsDue :
    (until db_now : Time) (r : JobRow)
    → r.state ≡ leased
    → r.leased_until ≡ some until
    → ¬ (until ≤ℤ db_now)
    → ¬ IsDue db_now r
not-IsDue until db_now r e u late (inl (inl q, k)) = cc (e, q)
not-IsDue until db_now r e u late (inl (inr q, k)) = cc (e, q)
not-IsDue until db_now r e u late (inr (q, (t, v, k))) =
    let same : t ≡ until = cc (sym v ∙ u) in late (subst (λ z. z ≤ℤ db_now) same k)

module _ (id : String) (until : Time) (r : JobRow) (named : r.id ≡ id) (state : r.state ≡ leased)
    (end : r.leased_until ≡ some until) where
  lease_kept :
      (locked : String → Bool) (db_now worker_now : Time) (worker : String) (duration : ℕ)
      (rows : Rows)
      → ¬ (until ≤ℤ db_now)
      → IsKept r rows
      → In r (lease_next_job locked db_now worker_now worker duration rows).1
  lease_kept locked db_now worker_now worker duration rows late (d, h) =
      elim (lease_next_job_lem locked db_now worker_now worker duration rows) [
        | inl (_, e) ↦ subst (In r) (sym (ap (λ t. t.1) e)) h
        | inr (row, job, v, _, t) ↦ t.others r h (λ same.
            not-IsDue until db_now r state end late
              (subst (IsDue db_now) (row_unique rows row r d v.inside h (sym same)) v.due))
      ]

  Running-IsKept :
      {rows rows' : Rows} → Running id until rows rows' → IsKept r rows → IsKept r rows'
  Running-IsKept start k = k
  Running-IsKept (inserting {mid} {last} path new_id now job_type payload {job} e) k =
      let (d, h) = Running-IsKept path k in
      let (_, same) = insert_job-eq new_id now job_type payload mid last job e in
      (
        Step-Distinct (inserts new_id now job_type payload e) d,
        subst (In r) (sym same) (In-append_left r mid _ h),
      )
  Running-IsKept (leasing {mid} path locked db_now worker_now worker duration late) k =
      let (d, h) = Running-IsKept path k in
      (
        Step-Distinct (leases_next locked db_now worker_now worker duration) d,
        lease_kept locked db_now worker_now worker duration mid late (d, h),
      )
  Running-IsKept (completing {mid} {last} path other ne e) k =
      let (d, h) = Running-IsKept path k in
      (
        Step-Distinct (completes other e) d,
        subst (In r) (sym (update_one-eq (holds other) finish mid last (unfold complete_job in e)))
            (other_kept id other finish mid r named ne h),
      )
  Running-IsKept (failing {mid} {last} path accepts now job cause {terminal} ne e) k =
      let (d, h) = Running-IsKept path k in
      let (t, at, message, same) = fail_job-eq accepts now job cause mid last terminal e in
      (
        Step-Distinct (fails accepts now job cause e) d,
        subst (In r) (sym same) (other_kept id job.id (release t at message) mid r named ne h),
      )

-- While a lease runs, no other call takes its job: after LeaseNextJob has returned a job, and any
-- further calls of the queue that do not report an outcome of that job, whose leases are all made
-- before the end of this one by the clock of the database, a call of LeaseNextJob before that end
-- returns nothing or another job.
pub lease_exclusive :
    (rows : Rows) (locked : String → Bool) (db_now worker_now : Time) (worker : String)
    (duration : ℕ) (job : Job)
    → Distinct (ids rows)
    → (lease_next_job locked db_now worker_now worker duration rows).0 ≡ some job
    → (now : Rows)
    → Running job.id
        (worker_now +ℤ pos duration)
        (lease_next_job locked db_now worker_now worker duration rows).1
        now
    → (locked' : String → Bool) (later worker_later : Time) (worker' : String) (duration' : ℕ)
      (job' : Job)
    → ¬ (worker_now +ℤ pos duration ≤ℤ later)
    → (lease_next_job locked' later worker_later worker' duration' now).0 ≡ some job'
    → job'.id ≢ job.id
lease_exclusive rows locked db_now worker_now worker duration job d e now path locked' later
      worker_later worker' duration' job' late e' same =
    elim (lease_next_job_lem locked db_now worker_now worker duration rows) [
      | inl (_, q) ↦ absurd (cc (sym (ap (λ t. t.0) q) ∙ e))
      | inr (row, taken, v, q, t) ↦
          let named : t.row'.id ≡ job.id =
            (let s : taken ≡ job = cc (sym q ∙ e) in sym t.returned.0 ∙ ap (λ z. z.id) s) in
          let held =
            Running-IsKept job.id (worker_now +ℤ pos duration) t.row' named t.leased_row.state
              t.leased_row.leased_until path
              (Step-Distinct (leases_next locked db_now worker_now worker duration) d, t.inside) in
          elim (lease_next_job_lem locked' later worker_later worker' duration' now) [
            | inl (_, q') ↦ absurd (cc (sym (ap (λ t. t.0) q') ∙ e'))
            | inr (row', taken', v', q', t') ↦
                let s' : taken' ≡ job' = cc (sym q' ∙ e') in
                let named' : row'.id ≡ job'.id =
                  sym t'.leased_row.same_id ∙ sym t'.returned.0 ∙ ap (λ z. z.id) s' in
                not-IsDue (worker_now +ℤ pos duration) later t.row' t.leased_row.state
                  t.leased_row.leased_until late
                  (subst (IsDue later)
                    (row_unique now row' t.row' held.0 v'.inside held.1 (named' ∙ same ∙ sym named))
                    v'.due)
          ]
    ]
