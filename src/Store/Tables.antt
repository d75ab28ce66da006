-- ===== src/Store/Tables.antt =====
-- The tables of migrations/*.up.sql, as far as the code reads them.
use signal_ledger_project.Prelude.{ℕ, String, Option, List}
use signal_ledger_project.Prelude.Int.{ℤ}
use signal_ledger_project.Domain.Research.{Time, StoredClaim}
use signal_ledger_project.Domain.Backtest.{RawMessage, BacktestRun}
use signal_ledger_project.Domain.Candidate.{CandidateEvidence}
use signal_ledger_project.Domain.Records.{Document, Strategy, MarketDataSnapshot}

pub data JobState : Type 0 where
  queued leased retryable completed failed : JobState

pub record JobRow : Type 0 where
  pub id : String
  pub job_type : String
  pub payload : RawMessage
  pub state : JobState
  pub attempts : ℕ
  pub max_attempts : ℕ
  pub available_at : Time
  pub leased_until : Option Time
  pub leased_by : Option String
  pub last_error : Option (List ℕ)  -- bytes
  pub created_at : Time

pub record PageRow : Type 0 where
  pub id : String
  pub document_id : String
  pub number : ℤ
  pub content : String

-- A claim with the page that it is stored under. `claim.page_number` is that page's number, which
-- the queries join in.
pub record ClaimRow (F : Type 0) : Type 0 where
  pub page_id : String
  pub claim : StoredClaim F

-- A row of `strategy_claims`.
pub record Citation : Type 0 where
  pub strategy_id : String
  pub claim_id : String

pub record CandidateRow (F : Type 0) : Type 0 where
  pub id : String
  pub backtest_run_id : String
  pub strategy_id : String
  pub symbol : String
  pub rank : ℤ
  pub weight : F
  pub score : F
  pub momentum : F
  pub momentum_rank : Option F
  pub claim_support : F
  pub as_of : Time

-- A row of `candidate_claims`.
pub record Attribution (F : Type 0) : Type 0 where
  pub candidate_id : String
  pub evidence : CandidateEvidence F

pub record Db (F : Type 0) : Type 0 where
  pub documents : List Document
  pub pages : List PageRow
  pub claims : List (ClaimRow F)
  pub strategies : List Strategy
  pub citations : List Citation
  pub snapshots : List MarketDataSnapshot
  pub runs : List BacktestRun
  pub candidates : List (CandidateRow F)
  pub attributions : List (Attribution F)
  pub jobs : List JobRow
