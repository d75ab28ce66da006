-- ===== src/Quant/Extracted.antt =====
-- What `ExtractClaims` of internal/quant/client.go returns.
use signal_ledger_project.Prelude.{
  ℕ, ◌≡◌, refl, sym, ap, String, subst, ◌↔◌, Option, none, some, List,
}
use signal_ledger_project.Prelude.Float.{Float}
use signal_ledger_project.Domain.Research.{Extraction, ExtractionError, validate}
use signal_ledger_project.Domain.Extracted.{IsExtraction, validate-none}
use signal_ledger_project.Domain.Backtest.{RawMessage}
use signal_ledger_project.Domain.Records.{Document}
use signal_ledger_project.Store.Base.{ok, ok-injective, bind-ok}
use signal_ledger_project.Quant.{Client, exchange}
use signal_ledger_project.Quant.Accepted.{IsAnswer, exchange_iff}
use signal_ledger_project.Quant.Extracting.{
  ExtractionRequest, ExtractionResponse, request_for, to_extraction, unless_invalid, extract_claims,
}

unless_invalid-ok :
    {F : Type 0} (extraction out : Extraction F) (e : Option ExtractionError)
    → unless_invalid extraction e ≡ ok out
    → (e ≡ none) × (extraction ≡ out)
unless_invalid-ok extraction out none h = (refl, ok-injective _ _ h)
unless_invalid-ok extraction out (some x) h = cc

module _ {F : Type 0} (fl : Float F) (client : Client)
    (encode : ExtractionRequest → Option RawMessage)
    (decode : List ℕ → Option (ExtractionResponse F)) where
  -- ExtractClaims returns an extraction exactly if the service answers the request for the document
  -- with a complete response of success, the extraction is what the response decodes to, and it may
  -- be stored: it has pages with different numbers from 1 on, and every claim is on one of them, has
  -- a text, a quote, a kind, a direction and a time, and is in the ranges of confidence and horizon.
  pub extract_claims_iff :
      (document : Document) (extraction : Extraction F)
      → (extract_claims fl client encode decode document ≡ ok extraction) ↔ (
          (response : ExtractionResponse F) × IsAnswer client "/v1/extract-claims"
            (encode (request_for document))
            decode
            response
          × (to_extraction response ≡ extraction)
          × IsExtraction fl extraction)
  unfolding extract_claims
  extract_claims_iff document extraction =
      let path : String = "/v1/extract-claims" in
      let answered = exchange_iff client path (encode (request_for document)) decode in
      (
        λ h.
            let a =
              bind-ok (exchange client path (encode (request_for document)) decode) _ extraction
                h in
            let u = unless_invalid-ok (to_extraction a.0) extraction _ a.2 in
            (
              a.0,
              (answered a.0).0 a.1,
              u.1,
              subst (IsExtraction fl) u.1 ((validate-none fl (to_extraction a.0)).0 u.0),
            ),
        λ h.
            let valid : validate fl (to_extraction h.0) ≡ none =
              (validate-none fl (to_extraction h.0)).1 (subst (IsExtraction fl) (sym h.2) h.3) in
            rw ((answered h.0).1 h.1, valid) (ap ok h.2),
      )
