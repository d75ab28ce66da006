-- ===== src/Store/Backtests.antt =====
-- internal/store/backtest.go: backtest runs, and the rankings that complete them.
pub mod Rankings
pub mod Completion
pub mod Histories
use signal_ledger_project.Prelude.{
  ℕ, zero, suc, ◌+◌, String, ◌≡◌, refl, Bool, true, false, ◌&&◌, ◌||◌, not, Option, none, some,
  List, [], ◌∷◌, ◌++◌, map, ◌==◌, eqb, contains, keep, first, update_where, count_where,
  if◌then◌else◌,
}
use signal_ledger_project.Prelude.Int.{ℤ, eqb_ℤ}
use signal_ledger_project.Prelude.Float.{Float}
use signal_ledger_project.Domain.Research.{Time}
use signal_ledger_project.Domain.Backtest.{
  RawMessage, BacktestRun, CreateBacktestInput, BacktestInputError, validate_input, BacktestResult,
}
use signal_ledger_project.Domain.Candidate.{
  CandidateSet, CandidatePosition, CandidateEvidence, CandidateError, validate_set,
}
use signal_ledger_project.Domain.Records.{Job}
use signal_ledger_project.Store.Base.{
  Result, ok, err, ◌>>=◌, ◌>>◌, require, some_or, not_found, not_in_progress, invalid_status,
  invalid_input, violated_constraint, undecodable,
}
use signal_ledger_project.Store.Tables.{Db, CandidateRow, Attribution}
use signal_ledger_project.Store.Postgres.{Postgres}
use signal_ledger_project.Store.Jobs.{Rows, insert_job}

abbrev pub is_none {ℓ} : {A : Type ℓ} → Option A → Bool
is_none none = true
is_none (some a) = false

-- `{}` stands for an empty message.
abbrev pub or_empty_object : RawMessage → RawMessage
or_empty_object message = if message == "" then "{}" else message

-- `$2::jsonb` of `insertJob`, and the row.
abbrev pub enqueue :
    {F : Type 0} → Postgres F → String → Time → String → RawMessage → Rows → Result (Job × Rows)
enqueue pg new_id db_now job_type payload rows = do
  stored ← some_or (pg.jsonb payload) undecodable
  insert_job new_id db_now job_type stored rows

abbrev pub new_run : String → Time → CreateBacktestInput → RawMessage → BacktestRun
new_run new_id db_now input parameters = record {
  id = new_id;
  strategy_id = input.strategy_id;
  market_data_snapshot_id = input.snapshot_id;
  document_cutoff_at = input.document_cutoff_at;
  status = "queued";
  parameters = parameters;
  summary = "{}";
  engine_version = none;
  result_artifact_key = none;
  result_checksum = none;
  created_at = db_now;
  completed_at = none;
}

-- CreateBacktestWithRunJob. The strategy and the snapshot are foreign keys.
unfoldable pub create_backtest_with_run_job :
    {F : Type 0}
    → Postgres F
    → (RawMessage → Bool)
    → String
    → String
    → Time
    → CreateBacktestInput
    → Db F
    → Result (BacktestRun × Job × Db F)
create_backtest_with_run_job pg json_valid run_id job_id db_now input db = do
  require (is_none (validate_input json_valid input)) invalid_input
  parameters ← some_or (pg.jsonb (or_empty_object input.parameters)) undecodable
  require (eqb (count_where (λ r. r.id == run_id) db.runs) 0) violated_constraint
  require (contains (map (λ s. s.id) db.strategies) input.strategy_id) violated_constraint
  require (contains (map (λ s. s.id) db.snapshots) input.snapshot_id) violated_constraint
  let run = new_run run_id db_now input parameters
  enqueued ← enqueue pg job_id db_now "run_backtest" (pg.id_payload "backtest_id" run_id) db.jobs
  ok (run, enqueued.0, record db { runs = db.runs ++ run ∷ []; jobs = enqueued.1 })

abbrev pub run_is : String → BacktestRun → Bool
run_is id run = run.id == id

-- GetBacktestRun
unfoldable pub get_backtest_run : {F : Type 0} → String → Db F → Result BacktestRun
get_backtest_run id db = some_or (first (run_is id) db.runs) not_found

unfoldable pub valid_backtest_status : String → Bool
valid_backtest_status status =
    status == "queued" || status == "running" || status == "completed" || status == "failed"

abbrev pub with_status : String → BacktestRun → BacktestRun
with_status status run = record run { status = status }

-- SetBacktestStatus
unfoldable pub set_backtest_status : {F : Type 0} → String → String → Db F → Result (Db F)
set_backtest_status id status db = do
  require (valid_backtest_status status) invalid_status
  require (eqb (count_where (run_is id) db.runs) 1) not_found
  ok (record db { runs = update_where (run_is id) (with_status status) db.runs })

module _ {F : Type 0} where
  abbrev pub attribute : String → CandidateEvidence F → Attribution F
  attribute candidate_id evidence = record { candidate_id = candidate_id; evidence = evidence }

  -- The rows of `candidate_claims` for one position: the claim is a foreign key, and one that is
  -- there already is left alone.
  unfoldable pub attach :
      List String
      → String
      → List (CandidateEvidence F)
      → List (Attribution F)
      → Result (List (Attribution F))
  attach claims candidate_id [] rows = ok rows
  attach claims candidate_id (evidence ∷ evidences) rows =
      let there =
        eqb
          (count_where
            (λ a. a.candidate_id == candidate_id && a.evidence.claim_id == evidence.claim_id) rows)
          0 in
      let added = if there then rows ++ attribute candidate_id evidence ∷ [] else rows in
      let rest = attach claims candidate_id evidences added in
      require (contains claims evidence.claim_id) violated_constraint >> rest

  abbrev pub candidate_row :
      Postgres F → String → BacktestRun → Time → CandidatePosition F → CandidateRow F
  candidate_row pg id run as_of position = record {
    id = id;
    backtest_run_id = run.id;
    strategy_id = run.strategy_id;
    symbol = position.symbol;
    rank = position.rank;
    weight = position.weight;
    score = position.score;
    momentum = position.momentum;
    momentum_rank = some position.momentum_rank;
    claim_support = position.claim_support;
    as_of = pg.date as_of;
  }

  -- UNIQUE of `portfolio_candidates`, and its primary key; its CHECKs hold of what Validate accepts.
  abbrev pub fits : CandidateRow F → List (CandidateRow F) → Bool
  fits new rows =
      eqb (count_where (λ r. r.id == new.id) rows) 0
      && eqb
          (count_where (λ r. r.backtest_run_id == new.backtest_run_id && r.symbol == new.symbol)
            rows)
          0
      && eqb
          (count_where (λ r. r.backtest_run_id == new.backtest_run_id && eqb_ℤ r.rank new.rank)
            rows)
          0

  -- The loop of `insertCandidates`, on the two tables that a ranking is stored in; `fresh` gives the
  -- id of each new row.
  unfoldable pub insert_positions :
      Postgres F
      → (ℕ → String)
      → List String
      → BacktestRun
      → Time
      → ℕ
      → List (CandidatePosition F)
      → List (CandidateRow F) × List (Attribution F)
      → Result (List (CandidateRow F) × List (Attribution F))
  insert_positions pg fresh claims run as_of index [] (rows, attributions) = ok (rows, attributions)
  insert_positions pg fresh claims run as_of index (position ∷ positions) (rows, attributions) = do
    let new = candidate_row pg (fresh index) run as_of position
    require (fits new rows) violated_constraint
    attached ← attach claims new.id position.evidence attributions
    insert_positions pg fresh claims run as_of (suc index) positions (rows ++ new ∷ [], attached)

  abbrev pub of_run : String → CandidateRow F → Bool
  of_run id row = row.backtest_run_id == id

  -- insertCandidates. Deleting a candidate deletes what it is attributed to.
  unfoldable pub insert_candidates :
      Postgres F → (ℕ → String) → BacktestRun → CandidateSet F → Db F → Result (Db F)
  insert_candidates pg fresh run set db = do
    let gone = map (λ row. row.id) (keep (of_run run.id) db.candidates)
    let rows = keep (λ row. not (of_run run.id row)) db.candidates
    let attributions = keep (λ a. not (contains gone a.candidate_id)) db.attributions
    let claims = map (λ row. row.claim.id) db.claims
    stored ← insert_positions pg fresh claims run set.as_of 0 set.positions (rows, attributions)
    ok (record db { candidates = stored.0; attributions = stored.1 })

-- WHERE id = $1 AND status IN ('queued', 'running')
abbrev pub in_progress : String → BacktestRun → Bool
in_progress id run = run.id == id && (run.status == "queued" || run.status == "running")

abbrev pub completed_run : Time → RawMessage → String → String → String → BacktestRun → BacktestRun
completed_run db_now summary artifact_key checksum engine_version run = record run {
  status = "completed";
  summary = summary;
  result_artifact_key = some artifact_key;
  result_checksum = some checksum;
  engine_version = some engine_version;
  completed_at = some db_now;
}

-- CompleteBacktest
unfoldable pub complete_backtest :
    {F : Type 0}
    → Float F
    → Postgres F
    → (ℕ → String)
    → Time
    → String
    → BacktestResult F
    → String
    → Db F
    → Result (Db F)
complete_backtest fl pg fresh db_now id result artifact_key db = do
  require (is_none (validate_set fl result.candidates)) invalid_input
  summary ← some_or (pg.jsonb (or_empty_object result.summary)) undecodable
  run ← some_or (first (in_progress id) db.runs) not_in_progress
  checksum ← some_or (pg.char64 result.result_checksum) violated_constraint
  let finished = completed_run db_now summary artifact_key checksum result.engine_version
  insert_candidates pg fresh run result.candidates
      (record db { runs = update_where (in_progress id) finished db.runs })
