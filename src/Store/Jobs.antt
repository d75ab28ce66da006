-- ===== src/Store/Jobs.antt =====
-- The job queue of internal/store/store.go, on the rows of the table `jobs`: `insertJob`,
-- `LeaseNextJob`, `CompleteJob`, `FailJob` and `retryDelay`. The clock of the database and that of
-- the worker are separate arguments.
pub mod Retry
pub mod Next
pub mod Lease
pub mod Lifecycle
pub mod Reachable
pub mod Exclusive
pub mod Crashes
use signal_ledger_project.Prelude.{
  ℕ, zero, suc, ◌+◌, ◌-◌, ◌*◌, ◌^◌, String, ◌≡◌, refl, Bool, true, false, ◌&&◌, ◌||◌, not, Option,
  none, some, List, [], ◌∷◌, ◌++◌, ◌==◌, ltb, leb, eqb, if◌then◌else◌, update_where, count_where,
}
use signal_ledger_project.Prelude.Int.{ℤ, pos, ◌+ℤ◌, leb_ℤ, ltb_ℤ, eqb_ℤ}
use signal_ledger_project.Domain.Research.{Time}
use signal_ledger_project.Domain.Backtest.{RawMessage}
use signal_ledger_project.Domain.Records.{Job}
use signal_ledger_project.Store.Base.{Result, ok, err, not_leased, unavailable, violated_constraint}
use signal_ledger_project.Store.Tables.{
  JobRow, JobState, queued, leased, retryable, completed, failed,
}

abbrev pub Rows : Type 0
Rows = List JobRow

-- One second, in nanoseconds.
abbrev pub second : ℕ
second = 1_000_000_000

-- retryDelay, in nanoseconds.
unfoldable pub retry_delay : ℕ → ℕ
retry_delay attempts =
    if ltb attempts 1
    then second
    else let exponent = attempts - 1 in 2 ^ (if ltb 6 exponent then 6 else exponent) * second

abbrev pub job_of : JobRow → Job
job_of row = record {
  id = row.id;
  job_type = row.job_type;
  payload = row.payload;
  attempts = row.attempts;
  max_attempts = row.max_attempts;
}

-- The defaults of the table.
abbrev pub new_row : String → Time → String → RawMessage → JobRow
new_row new_id db_now job_type payload = record {
  id = new_id;
  job_type = job_type;
  payload = payload;
  state = queued;
  attempts = 0;
  max_attempts = 3;
  available_at = db_now;
  leased_until = none;
  leased_by = none;
  last_error = none;
  created_at = db_now;
}

-- insertJob. An id that is taken violates the primary key.
unfoldable pub insert_job : String → Time → String → RawMessage → Rows → Result (Job × Rows)
insert_job new_id db_now job_type payload rows =
    let row = new_row new_id db_now job_type payload in
    if eqb (count_where (λ r. r.id == new_id) rows) 0
    then ok (job_of row, rows ++ row ∷ [])
    else err violated_constraint

abbrev pub is_due : Option Time → Time → Bool
is_due none now = false
is_due (some until) now = leb_ℤ until now

-- The WHERE of `next_job`.
unfoldable pub eligible : Time → JobRow → Bool
eligible db_now row = elim row.state [
  | queued ↦ leb_ℤ row.available_at db_now
  | retryable ↦ leb_ℤ row.available_at db_now
  | leased ↦ is_due row.leased_until db_now
  | completed ↦ false
  | failed ↦ false
]

-- ORDER BY available_at, created_at
unfoldable pub earlier : JobRow → JobRow → Bool
earlier a b =
    ltb_ℤ a.available_at b.available_at
    || (eqb_ℤ a.available_at b.available_at && ltb_ℤ a.created_at b.created_at)

-- The first of the rows in that order that are eligible and that no other transaction has locked.
-- Of rows that the order does not tell apart the database may take any; here it is the last.
unfoldable pub pick : Bool → JobRow → Option JobRow → Option JobRow
pick free row none = if free then some row else none
pick free row (some best) =
    if free then (if earlier row best then some row else some best) else some best

unfoldable pub next_job : (String → Bool) → Time → Rows → Option JobRow
unfolding pick
next_job locked db_now [] = none
next_job locked db_now (row ∷ rows) =
    pick (eligible db_now row && not (locked row.id)) row (next_job locked db_now rows)

abbrev pub lease : String → Time → JobRow → JobRow
lease worker until row = record row {
  state = leased;
  attempts = row.attempts + 1;
  leased_until = some until;
  leased_by = some worker;
}

-- LeaseNextJob. `locked` tells the rows that another transaction holds, which are skipped.
unfoldable pub lease_next_job :
    (String → Bool) → Time → Time → String → ℕ → Rows → Option Job × Rows
lease_next_job locked db_now worker_now worker duration rows = elim (next_job locked db_now rows) [
  | none ↦ (none, rows)
  | some row ↦
      let until = worker_now +ℤ pos duration in
      (
        some (job_of (lease worker until row)),
        update_where (λ r. r.id == row.id) (lease worker until) rows,
      )
]

abbrev pub is_leased : JobState → Bool
is_leased leased = true
is_leased _ = false

-- WHERE id = $1 AND state = 'leased'
abbrev pub holds : String → JobRow → Bool
holds id row = row.id == id && is_leased row.state

-- An update that must affect one row.
unfoldable pub update_one : (JobRow → Bool) → (JobRow → JobRow) → Rows → Result Rows
update_one p f rows =
    if eqb (count_where p rows) 1 then ok (update_where p f rows) else err not_leased

abbrev pub finish : JobRow → JobRow
finish row = record row { state = completed; leased_until = none; leased_by = none }

-- CompleteJob
unfoldable pub complete_job : String → Rows → Result Rows
unfolding update_one
complete_job id rows = update_one (holds id) finish rows

abbrev pub max_stored_error_length : ℕ
max_stored_error_length = 2000

unfoldable pub take_bytes : ℕ → List ℕ → List ℕ
take_bytes zero xs = []
take_bytes (suc n) [] = []
take_bytes (suc n) (x ∷ xs) = x ∷ take_bytes n xs

abbrev pub release : Bool → Time → List ℕ → JobRow → JobRow
release terminal available_at message row = record row {
  state = if terminal then failed else retryable;
  available_at = available_at;
  leased_until = none;
  leased_by = none;
  last_error = some message;
}

-- FailJob. `accepts` tells the byte strings that the database takes as text; `cause` is the text of
-- the error, in bytes. The result tells whether the retry budget is exhausted.
unfoldable pub fail_job : (List ℕ → Bool) → Time → Job → List ℕ → Rows → Result (Bool × Rows)
unfolding update_one
fail_job accepts worker_now job cause rows =
    let terminal = leb job.max_attempts job.attempts in
    let available_at =
      if terminal then worker_now else worker_now +ℤ pos (retry_delay job.attempts) in
    let message = take_bytes max_stored_error_length cause in
    if accepts message
    then (elim (update_one (holds job.id) (release terminal available_at message) rows) [
      | ok updated ↦ ok (terminal, updated)
      | err e ↦ err e
    ])
    else err unavailable
