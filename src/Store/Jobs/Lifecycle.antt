-- ===== src/Store/Jobs/Lifecycle.antt =====
-- The states that a job passes through, whatever the workers do.
use signal_ledger_project.Prelude.{
  ℕ, String, ◌≡◌, ◌≢◌, refl, sym, ap, subst, ◌∙◌, Bool, true, false, inl, inr, List, [], ◌∷◌, ◌++◌,
  arith, ◌==◌, eq_iff, leb, if◌then◌else◌, update_where, count_where, Bool-cases, In, none,
  In-update_where, In-append_left, In-append_cases, Distinct, In-map, In-map_cases,
}
use signal_ledger_project.Prelude.Int.{pos, ◌+ℤ◌}
use signal_ledger_project.Domain.Research.{Time}
use signal_ledger_project.Domain.Backtest.{RawMessage}
use signal_ledger_project.Domain.Records.{Job}
use signal_ledger_project.Store.Base.{ok}
use signal_ledger_project.Store.Tables.{JobRow, JobState, leased, completed, retryable, failed}
use signal_ledger_project.Store.Jobs.{
  Rows, eligible, lease, lease_next_job, insert_job, complete_job, fail_job, finish, release, holds,
  new_row, update_one, retry_delay, take_bytes, max_stored_error_length,
}
use signal_ledger_project.Store.Jobs.Next.{ids, row_unique, lease_next_job-row}
use signal_ledger_project.Store.Jobs.Lease.{IsDue, IsLeased, lease-IsLeased, eligible-IsDue}

-- The row after its lease has ended.
pub record IsReleased (state : JobState) (r r' : JobRow) : Type 0 where
  pub same_id : r'.id ≡ r.id
  pub same_type : r'.job_type ≡ r.job_type
  pub same_payload : r'.payload ≡ r.payload
  pub state_after : r'.state ≡ state
  pub same_attempts : r'.attempts ≡ r.attempts
  pub same_budget : r'.max_attempts ≡ r.max_attempts
  pub no_lease : (r'.leased_until ≡ none) × (r'.leased_by ≡ none)
  pub same_creation : r'.created_at ≡ r.created_at

finish-IsReleased : (r : JobRow) → IsReleased completed r (finish r)
finish-IsReleased r = record {
  same_id = refl;
  same_type = refl;
  same_payload = refl;
  state_after = refl;
  same_attempts = refl;
  same_budget = refl;
  no_lease = (refl, refl);
  same_creation = refl;
}

release-IsReleased :
    (terminal : Bool) (at : Time) (message : List ℕ) (r : JobRow)
    → IsReleased (if terminal then failed else retryable) r (release terminal at message r)
release-IsReleased terminal at message r = record {
  same_id = refl;
  same_type = refl;
  same_payload = refl;
  state_after = refl;
  same_attempts = refl;
  same_budget = refl;
  no_lease = (refl, refl);
  same_creation = refl;
}

-- What one operation of the queue may do to a row: nothing; lease a job that waits and is available, or
-- whose lease has run out; or end a lease, with the job completed, to be tried again, or failed.
pub data Moves (r r' : JobRow) : Type 0 where
  stays : r' ≡ r → Moves r r'
  leases :
      (worker : String) (until db_now : Time)
      → IsDue db_now r
      → IsLeased worker until r r'
      → Moves r r'
  finishes : r.state ≡ leased → IsReleased completed r r' → Moves r r'
  retries : r.state ≡ leased → IsReleased retryable r r' → Moves r r'
  gives_up : r.state ≡ leased → IsReleased failed r r' → Moves r r'

release-Moves :
    (terminal : Bool) (at : Time) (message : List ℕ) (r : JobRow)
    → r.state ≡ leased
    → Moves r (release terminal at message r)
release-Moves true at message r e = gives_up e (release-IsReleased true at message r)
release-Moves false at message r e = retries e (release-IsReleased false at message r)

-- One call of the queue, by any worker at any time.
pub data Step (rows : Rows) : Rows → Type 0 where
  inserts :
      (new_id : String) (now : Time) (job_type : String) (payload : RawMessage) {job : Job}
      {rows' : Rows}
      → insert_job new_id now job_type payload rows ≡ ok (job, rows')
      → Step rows rows'
  leases_next :
      (locked : String → Bool) (db_now worker_now : Time) (worker : String) (duration : ℕ)
      → Step rows (lease_next_job locked db_now worker_now worker duration rows).1
  completes : (id : String) {rows' : Rows} → complete_job id rows ≡ ok rows' → Step rows rows'
  fails :
      (accepts : List ℕ → Bool) (now : Time) (job : Job) (cause : List ℕ) {terminal : Bool}
      {rows' : Rows}
      → fail_job accepts now job cause rows ≡ ok (terminal, rows')
      → Step rows rows'

pub data Reach (rows : Rows) : Rows → Type 0 where
  here : Reach rows rows
  next : {mid last : Rows} → Reach rows mid → Step mid last → Reach rows last

ids-update_where :
    (p : JobRow → Bool) (f : JobRow → JobRow) (rows : Rows)
    → ((r : JobRow) → (f r).id ≡ r.id)
    → ids (update_where p f rows) ≡ ids rows
unfolding update_where
ids-update_where p f [] e = refl
ids-update_where p f (x ∷ rows) e = ground (arith, ids-update_where p f rows e, e x)

pub update_one-eq :
    (p : JobRow → Bool) (f : JobRow → JobRow) (rows rows' : Rows)
    → update_one p f rows ≡ ok rows'
    → rows' ≡ update_where p f rows
unfolding update_one
update_one-eq p f rows rows' e = ground arith

pub fail_job-eq :
    (accepts : List ℕ → Bool) (now : Time) (job : Job) (cause : List ℕ) (rows rows' : Rows)
    (terminal : Bool)
    → fail_job accepts now job cause rows ≡ ok (terminal, rows')
    → (t : Bool) × (at : Time) × (message : List ℕ) × (rows'
        ≡ update_where (holds job.id) (release t at message) rows)
unfolding fail_job
fail_job-eq accepts now job cause rows rows' terminal e = (
  leb job.max_attempts job.attempts,
  (if leb job.max_attempts job.attempts then now else now +ℤ pos (retry_delay job.attempts)),
  take_bytes max_stored_error_length cause,
  ground arith,
)

count_where-zero :
    (p : JobRow → Bool) (rows : Rows) (r : JobRow)
    → count_where p rows ≡ 0
    → In r rows
    → p r ≡ false
unfolding count_where
count_where-zero p [] r e h = absurd h
count_where-zero p (x ∷ rows) r e (inl q) = elim (Bool-cases (p r)) [
  | inl yes_r ↦ let t : p x ≡ true = subst (λ z. p z ≡ true) q yes_r in absurd (ground (arith, t))
  | inr no_r ↦ no_r
]
count_where-zero p (x ∷ rows) r e (inr h) = count_where-zero p rows r (ground arith) h

pub insert_job-eq :
    (new_id : String) (now : Time) (job_type : String) (payload : RawMessage) (rows rows' : Rows)
    (job : Job)
    → insert_job new_id now job_type payload rows ≡ ok (job, rows')
    → (count_where (λ row. row.id == new_id) rows ≡ 0)
      × (rows' ≡ rows ++ new_row new_id now job_type payload ∷ [])
unfolding insert_job
insert_job-eq new_id now job_type payload rows rows' job e = (ground arith, ground arith)

Distinct-append_new :
    (rows : Rows) (row : JobRow)
    → Distinct (ids rows)
    → ((r : JobRow) → In r rows → r.id ≢ row.id)
    → Distinct (ids (rows ++ row ∷ []))
Distinct-append_new [] row d n = (λ h. h, tt)
Distinct-append_new (x ∷ rows) row d n = (
  λ h.
      let (r, k, e) = In-map_cases (λ t. t.id) x.id (rows ++ row ∷ []) h in
      elim (In-append_cases r rows (row ∷ []) k) [
        | inl i ↦ d.0 (subst (λ t. In t (ids rows)) (sym e) (In-map (λ t. t.id) r rows i))
        | inr (inl q) ↦ n x (inl refl) (e ∙ ap (λ t. t.id) q)
        | inr (inr i) ↦ absurd i
      ],
  Distinct-append_new rows row d.1 (λ r h. n r (inr h)),
)

new_id_unused :
    (new_id : String) (rows : Rows)
    → count_where (λ row. row.id == new_id) rows ≡ 0
    → (r : JobRow) → In r rows
    → r.id ≢ new_id
new_id_unused new_id rows e r h q =
    ground (arith, count_where-zero (λ row. row.id == new_id) rows r e h, eq_iff r.id new_id)

lease-id : (worker : String) (until : Time) (r : JobRow) → (lease worker until r).id ≡ r.id
lease-id worker until r = refl

-- The ids of the jobs stay distinct.
pub Step-Distinct :
    {rows rows' : Rows} → Step rows rows' → Distinct (ids rows) → Distinct (ids rows')
Step-Distinct {rows} (inserts new_id now job_type payload {job} {rows'} e) d =
    let (fresh, same) = insert_job-eq new_id now job_type payload rows rows' job e in
    subst (λ t. Distinct (ids t)) (sym same)
      (Distinct-append_new rows (new_row new_id now job_type payload) d
        (new_id_unused new_id rows fresh))
Step-Distinct {rows} (leases_next locked db_now worker_now worker duration) d =
    elim (lease_next_job-row locked db_now worker_now worker duration rows) [
      | inl (_, e) ↦ subst (λ t. Distinct (ids t.1)) (sym e) d
      | inr (row, _, e) ↦
          subst (λ t. Distinct (ids t.1)) (sym e)
            (subst Distinct
              (sym (
                ids-update_where (λ r. r.id == row.id) _ rows
                  (lease-id worker (worker_now +ℤ pos duration))))
              d)
    ]
Step-Distinct {rows} (completes id {rows'} e) d =
    subst (λ t. Distinct (ids t))
      (sym (update_one-eq (holds id) finish rows rows' (unfold complete_job in e)))
      (subst Distinct (sym (ids-update_where (holds id) finish rows (λ r. refl))) d)
Step-Distinct {rows} (fails accepts now job cause {terminal} {rows'} e) d =
    let (t, at, message, same) = fail_job-eq accepts now job cause rows rows' terminal e in
    subst (λ u. Distinct (ids u)) (sym same)
      (subst Distinct
        (sym (ids-update_where (holds job.id) (release t at message) rows (λ r. refl))) d)

holds-leased : (id : String) (r : JobRow) → holds id r ≡ true → r.state ≡ leased
holds-leased id r h = ground arith

-- Where only rows that may make a move are changed, every row makes one.
update_where-Moves :
    (p : JobRow → Bool) (f : JobRow → JobRow) (rows : Rows) (r : JobRow)
    → In r rows
    → (p r ≡ true → Moves r (f r))
    → (r' : JobRow) × In r' (update_where p f rows) × Moves r r'
update_where-Moves p f rows r h m = elim (Bool-cases (p r)) [
  | inl yes_r ↦ (
    f r,
    subst (λ b. In (if b then f r else r) (update_where p f rows)) yes_r
        (In-update_where p f r rows h),
    m yes_r,
  )
  | inr no_r ↦ (
    r,
    subst (λ b. In (if b then f r else r) (update_where p f rows)) no_r
        (In-update_where p f r rows h),
    stays refl,
  )
]

pub Step-Moves :
    {rows rows' : Rows}
    → Step rows rows'
    → Distinct (ids rows)
    → (r : JobRow) → In r rows
    → (r' : JobRow) × In r' rows' × Moves r r'
Step-Moves {rows} (inserts new_id now job_type payload {job} {rows'} e) d r h =
    let (fresh, same) = insert_job-eq new_id now job_type payload rows rows' job e in
    (r, subst (In r) (sym same) (In-append_left r rows _ h), stays refl)
Step-Moves {rows} (leases_next locked db_now worker_now worker duration) d r h =
    elim (lease_next_job-row locked db_now worker_now worker duration rows) [
      | inl (_, e) ↦ (r, subst (λ t. In r t.1) (sym e) h, stays refl)
      | inr (row, v, e) ↦
          subst (λ t. (r' : JobRow) × In r' t.1 × Moves r r') (sym e)
            (update_where-Moves (λ s. s.id == row.id) (lease worker (worker_now +ℤ pos duration))
              rows r h
              (λ same.
                leases worker _ db_now
                  (eligible-IsDue db_now r (
                    subst (λ t. eligible db_now t ≡ true)
                      (row_unique rows row r d v.inside h (sym ((eq_iff r.id row.id).0 same)))
                      v.free.0))
                  (lease-IsLeased worker _ r)))
    ]
Step-Moves {rows} (completes id {rows'} e) d r h =
    subst (λ t. (r' : JobRow) × In r' t × Moves r r')
      (sym (update_one-eq (holds id) finish rows rows' (unfold complete_job in e)))
      (update_where-Moves (holds id) finish rows r h
        (λ k. finishes (holds-leased id r k) (finish-IsReleased r)))
Step-Moves {rows} (fails accepts now job cause {terminal} {rows'} e) d r h =
    let (t, at, message, same) = fail_job-eq accepts now job cause rows rows' terminal e in
    subst (λ u. (r' : JobRow) × In r' u × Moves r r') (sym same)
      (update_where-Moves (holds job.id) (release t at message) rows r h
        (λ k. release-Moves t at message r (holds-leased job.id r k)))
