-- ===== src/Quant/Extracting.antt =====
-- `ExtractClaims` of internal/quant/client.go.
use signal_ledger_project.Prelude.{ℕ, String, Option, none, some, List, map}
use signal_ledger_project.Prelude.Int.{ℤ}
use signal_ledger_project.Prelude.Float.{Float}
use signal_ledger_project.Domain.Research.{Time, Page, Claim, Extraction, ExtractionError, validate}
use signal_ledger_project.Domain.Backtest.{RawMessage}
use signal_ledger_project.Domain.Records.{Document}
use signal_ledger_project.Store.Base.{Result, ok, err, ◌>>=◌, invalid_response}
use signal_ledger_project.Quant.{Client, exchange}

pub record ExtractionRequest : Type 0 where
  pub document_id : String
  pub storage_key : String
  pub effective_at : Time

pub record ExtractionPage : Type 0 where
  pub page_number : ℤ
  pub content : String

pub record ExtractionClaim (F : Type 0) : Type 0 where
  pub page_number : ℤ
  pub ticker : Option String
  pub claim : String
  pub evidence_quote : String
  pub claim_kind : String
  pub direction : String
  pub horizon_days : Option ℤ
  pub confidence : F
  pub effective_at : Time

pub record ExtractionResponse (F : Type 0) : Type 0 where
  pub pages : List ExtractionPage
  pub claims : List (ExtractionClaim F)

-- The time of publication, or else of the upload.
unfoldable pub effective_time : Document → Time
effective_time document = elim document.source_published_at [
  | none ↦ document.uploaded_at
  | some published ↦ published
]

abbrev pub request_for : Document → ExtractionRequest
request_for document = record {
  document_id = document.id;
  storage_key = document.storage_key;
  effective_at = effective_time document;
}

abbrev pub to_page : ExtractionPage → Page
to_page page = record { number = page.page_number; content = page.content }

module _ {F : Type 0} where
  abbrev pub to_claim : ExtractionClaim F → Claim F
  to_claim claim = record {
    page_number = claim.page_number;
    ticker = claim.ticker;
    kind = claim.claim_kind;
    direction = claim.direction;
    text = claim.claim;
    evidence_quote = claim.evidence_quote;
    horizon_days = claim.horizon_days;
    confidence = claim.confidence;
    effective_at = claim.effective_at;
  }

  unfoldable pub to_extraction : ExtractionResponse F → Extraction F
  to_extraction result = record {
    pages = map to_page result.pages;
    claims = map to_claim result.claims;
  }

  abbrev pub unless_invalid : Extraction F → Option ExtractionError → Result (Extraction F)
  unless_invalid extraction none = ok extraction
  unless_invalid extraction (some error) = err invalid_response

module _ {F : Type 0} (fl : Float F) (client : Client)
    (encode : ExtractionRequest → Option RawMessage)
    (decode : List ℕ → Option (ExtractionResponse F)) where
  -- ExtractClaims
  unfoldable pub extract_claims : Document → Result (Extraction F)
  extract_claims document = do
    result ← exchange client "/v1/extract-claims" (encode (request_for document)) decode
    unless_invalid (to_extraction result) (validate fl (to_extraction result))
