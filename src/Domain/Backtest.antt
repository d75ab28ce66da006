-- ===== src/Domain/Backtest.antt =====
-- internal/domain/backtest.go: a backtest's records and the validation of a request for one.
use signal_ledger_project.Prelude.{
  String, Bool, ◌&&◌, not, Option, none, some, List, ◌==◌, if◌then◌else◌,
}
use signal_ledger_project.Prelude.Int.{ℤ}
use signal_ledger_project.Domain.Research.{Time, is_zero}
use signal_ledger_project.Domain.Candidate.{CandidateSet}

-- A `json.RawMessage` is its text; the empty text is the empty message.
abbrev pub RawMessage : Type 0
RawMessage = String

pub record BacktestRun : Type 0 where
  pub id : String
  pub strategy_id : String
  pub market_data_snapshot_id : String
  pub document_cutoff_at : Time
  pub status : String
  pub parameters : RawMessage
  pub summary : RawMessage
  pub engine_version : Option String
  pub result_artifact_key : Option String
  pub result_checksum : Option String
  pub created_at : Time
  pub completed_at : Option Time

pub record CreateBacktestInput : Type 0 where
  pub strategy_id : String
  pub snapshot_id : String
  pub document_cutoff_at : Time
  pub parameters : RawMessage

pub data BacktestInputError : Type 0 where
  no_strategy_id no_snapshot_id no_cutoff invalid_parameters : BacktestInputError

-- CreateBacktestInput.Validate; `json_valid` is `json.Valid`.
unfoldable pub validate_input :
    (RawMessage → Bool) → CreateBacktestInput → Option BacktestInputError
validate_input json_valid input =
    if input.strategy_id == ""
    then some no_strategy_id
    else if input.snapshot_id == ""
    then some no_snapshot_id
    else if is_zero input.document_cutoff_at
    then some no_cutoff
    else if not (input.parameters == "") && not (json_valid input.parameters)
    then some invalid_parameters
    else none

pub record ClaimSignal (F : Type 0) : Type 0 where
  pub claim_id : String
  pub symbol : String
  pub direction : String
  pub confidence : F
  pub effective_at : Time
  pub horizon_days : Option ℤ

pub record BacktestRequest (F : Type 0) : Type 0 where
  pub backtest_id : String
  pub spec : RawMessage
  pub snapshot_storage_key : String
  pub snapshot_checksum : String
  pub document_cutoff_at : Time
  pub parameters : RawMessage
  pub signals : List (ClaimSignal F)

pub record BacktestResult (F : Type 0) : Type 0 where
  pub summary : RawMessage
  pub equity_curve_csv : String
  pub result_checksum : String
  pub engine_version : String
  pub candidates : CandidateSet F
