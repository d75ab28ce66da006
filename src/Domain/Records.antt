-- ===== src/Domain/Records.antt =====
-- The records of internal/domain/document.go, job.go, strategy.go and marketdata.go.
use signal_ledger_project.Prelude.{ℕ, String, Option, List}
use signal_ledger_project.Prelude.Int.{ℤ}
use signal_ledger_project.Domain.Research.{Time}
use signal_ledger_project.Domain.Backtest.{RawMessage}

pub record Document : Type 0 where
  pub id : String
  pub filename : String
  pub storage_key : String
  pub sha256 : String
  pub status : String
  pub uploaded_at : Time
  pub source_published_at : Option Time

pub record CreateDocumentInput : Type 0 where
  pub filename : String
  pub storage_key : String
  pub sha256 : String
  pub size_bytes : ℤ
  pub mime_type : String
  pub source_published_at : Option Time

-- The two counters are columns that a constraint keeps from being negative.
pub record Job : Type 0 where
  pub id : String
  pub job_type : String
  pub payload : RawMessage
  pub attempts : ℕ
  pub max_attempts : ℕ

pub record Strategy : Type 0 where
  pub id : String
  pub slug : String
  pub version : ℕ
  pub name : String
  pub spec : RawMessage
  pub created_at : Time

pub record CreateStrategyInput : Type 0 where
  pub slug : String
  pub name : String
  pub spec : RawMessage
  pub claim_ids : List String

pub record MarketDataRequest : Type 0 where
  pub symbols : List String
  pub start_date : String
  pub end_date : String
  pub interval : String

pub record Bar (F : Type 0) : Type 0 where
  pub symbol : String
  pub date : String
  pub opening : F
  pub high : F
  pub low : F
  pub closing : F
  pub adj_close : F
  pub volume : ℤ

pub record MarketDataResult (F : Type 0) : Type 0 where
  pub provider : String
  pub bars : List (Bar F)
  pub retrieved_at : Time

pub record MarketDataSnapshot : Type 0 where
  pub id : String
  pub provider : String
  pub symbols : List String
  pub interval : String
  pub start_date : String
  pub end_date : String
  pub storage_key : Option String
  pub checksum : Option String
  pub retrieved_at : Time

pub record CreateMarketDataSnapshotInput : Type 0 where
  pub provider : String
  pub symbols : List String
  pub interval : String
  pub start_date : String
  pub end_date : String
  pub storage_key : String
  pub checksum : String
  pub retrieved_at : Time
