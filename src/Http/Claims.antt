-- ===== src/Http/Claims.antt =====
-- internal/httpapi/claims.go: the claims of a document, and the review of a claim.
use signal_ledger_project.Prelude.{
  String, Bool, not, Option, none, some, List, map, ◌==◌, if◌then◌else◌,
}
use signal_ledger_project.Prelude.Int.{ℤ}
use signal_ledger_project.Prelude.Sorting.{Sorter}
use signal_ledger_project.Domain.Research.{Time, StoredClaim, valid_claim_review_status}
use signal_ledger_project.Store.Base.{Error, Result, ok, err}
use signal_ledger_project.Store.Listings.{list_claims_by_document}
use signal_ledger_project.Store.Strategies.{set_claim_validation_status}
use signal_ledger_project.Worker.Effects.{World, call, query}
use signal_ledger_project.Http.{
  Request, Response, write_json, write_error, method_not_allowed, is_not_found, valid_uuid,
  trim_prefix,
}

pub record ClaimResponse (F : Type 0) : Type 0 where
  pub id : String
  pub document_id : String
  pub page_number : ℤ
  pub ticker : Option String
  pub claim_kind : String
  pub direction : String
  pub claim : String
  pub evidence_quote : String
  pub horizon_days : Option ℤ
  pub confidence : F
  pub effective_at : Time
  pub validation_status : String

-- claimResponseFrom
abbrev pub claim_response_from : {F : Type 0} → StoredClaim F → ClaimResponse F
claim_response_from claim = record {
  id = claim.id;
  document_id = claim.document_id;
  page_number = claim.page_number;
  ticker = claim.ticker;
  claim_kind = claim.kind;
  direction = claim.direction;
  claim = claim.text;
  evidence_quote = claim.evidence_quote;
  horizon_days = claim.horizon_days;
  confidence = claim.confidence;
  effective_at = claim.effective_at;
  validation_status = claim.validation_status;
}

-- The answers to an error of the store.
abbrev pub list_refusal : {A : Type 0} → Error → Response A
list_refusal e =
    if is_not_found e
    then write_error 404 "document_not_found" "document was not found"
    else write_error 500 "claims_list_failed" "could not list claims"

abbrev pub review_refusal : {A : Type 0} → Error → Response A
review_refusal e =
    if is_not_found e
    then write_error 404 "claim_not_found" "claim was not found"
    else write_error 500 "claim_review_failed" "could not update claim"

-- `configured` tells whether there is a claims service, and `decode` is the JSON decoder for a body
-- with a validation_status, at most 1 MiB long and with no other fields.
module _ {F : Type 0} (configured : Bool) where
  abbrev pub claims_listed :
      Result (List (StoredClaim F)) × World F → Response (List (ClaimResponse F)) × World F
  claims_listed (ok claims, world) = (write_json 200 (map claim_response_from claims), world)
  claims_listed (err e, world) = (list_refusal e, world)

  -- documentClaims
  unfoldable pub document_claims :
      Sorter (StoredClaim F)
      → Request
      → String
      → World F
      → Response (List (ClaimResponse F)) × World F
  document_claims sorter request document_id world =
      if not (request.method == "GET")
      then (method_not_allowed "GET", world)
      else if not configured
      then (write_error 503 "claims_service_unavailable" "claims service is not configured", world)
      else if not (valid_uuid document_id)
      then (write_error 404 "document_not_found" "document was not found", world)
      else claims_listed (query (list_claims_by_document sorter document_id) world)

  abbrev pub claim_reviewed :
      Result (StoredClaim F) × World F → Response (ClaimResponse F) × World F
  claim_reviewed (ok claim, world) = (write_json 200 (claim_response_from claim), world)
  claim_reviewed (err e, world) = (review_refusal e, world)

  -- By the decoded body.
  abbrev pub review_with : String → Option String → World F → Response (ClaimResponse F) × World F
  review_with id none world = (
    write_error 400 "invalid_request_body" "request body must be JSON with validation_status",
    world,
  )
  review_with id (some status) world =
      if not (valid_claim_review_status status)
      then (
        write_error 400 "invalid_validation_status"
            "validation_status must be accepted or rejected",
        world,
      )
      else claim_reviewed (call (set_claim_validation_status id status) world)

  -- claimByID
  unfoldable pub claim_by_id :
      (String → Option String) → Request → World F → Response (ClaimResponse F) × World F
  claim_by_id decode request world =
      let id = trim_prefix request.path "/v1/claims/" in
      if not (request.method == "PATCH")
      then (method_not_allowed "PATCH", world)
      else if not configured
      then (write_error 503 "claims_service_unavailable" "claims service is not configured", world)
      else if not (valid_uuid id)
      then (write_error 404 "claim_not_found" "claim was not found", world)
      else review_with id (decode request.body) world
