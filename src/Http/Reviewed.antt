-- ===== src/Http/Reviewed.antt =====
-- The outcomes of `claimByID` of internal/httpapi/claims.go.
use signal_ledger_project.Prelude.{
  ◌≤◌, arith, String, ◌≡◌, refl, Bool, true, false, not, Option, none, some, ◌==◌, eq_iff,
  if◌then◌else◌,
}
use signal_ledger_project.Domain.Research.{StoredClaim, valid_claim_review_status}
use signal_ledger_project.Store.Base.{Error, Result, ok, err}
use signal_ledger_project.Store.Tables.{Db}
use signal_ledger_project.Store.Strategies.{set_claim_validation_status}
use signal_ledger_project.Store.Strategies.Reviews.{IsWritten, set_status-IsWritten}
use signal_ledger_project.Worker.Effects.{World, call, call-ok}
use signal_ledger_project.Worker.Reading.{call-err}
use signal_ledger_project.Http.{
  Request, Response, write_json, valid_uuid, trim_prefix, is_not_found,
}
use signal_ledger_project.Http.Claims.{
  ClaimResponse, claim_response_from, review_refusal, claim_reviewed, review_with, claim_by_id,
}

-- What holds of both branches holds of the test.
pub by_test :
    {A : Type 0} (P : A → Type 0) (t : Bool) (x y : A)
    → (t ≡ true → P x)
    → (t ≡ false → P y)
    → P (if t then x else y)
by_test P true x y holds fails = holds refl
by_test P false x y holds fails = fails refl

module _ {F : Type 0} (configured : Bool) (decode : String → Option String)
    (request : Request) where
  -- A review that is answered with the claim: the request is a PATCH of an id in the form of a UUID,
  -- the service is there, the status may be given, and the store has written it to a claim.
  pub record IsReviewed (before after : Db F) (response : Response (ClaimResponse F)) : Type 0 where
    pub method : request.method ≡ "PATCH"
    pub service : configured ≡ true
    pub id : String
    pub named : trim_prefix request.path "/v1/claims/" ≡ id
    pub uuid : valid_uuid id ≡ true
    pub status : String
    pub decoded : decode request.body ≡ some status
    pub reviewable : valid_claim_review_status status ≡ true
    pub claim : StoredClaim F
    pub written : IsWritten id status before after claim
    pub answered : response ≡ write_json 200 (claim_response_from claim)

  -- Either that, or an error that has changed no table.
  pub data ReviewOutcome (before : Db F) : Response (ClaimResponse F) × World F → Type 0 where
    accepted :
        (response : Response (ClaimResponse F)) (after : World F)
        → IsReviewed before after.db response
        → ReviewOutcome before (response, after)
    refused :
        (response : Response (ClaimResponse F)) (after : World F)
        → 400 ≤ response.status
        → after.db ≡ before
        → ReviewOutcome before (response, after)

review_refusal-status : (A : Type 0) (e : Error) → 400 ≤ (review_refusal {A = A} e).status
review_refusal-status A e =
    by_test (λ (r : Response A). 400 ≤ r.status) (is_not_found e) _ _ (λ _. omega arith)
      (λ _. omega arith)

module _ {F : Type 0} (configured : Bool) (decode : String → Option String)
    (request : Request) where
  module _ (before : World F) (patch : request.method ≡ "PATCH") (service : configured ≡ true)
      (uuid : valid_uuid (trim_prefix request.path "/v1/claims/") ≡ true) where
    abbrev id : String
    id = trim_prefix request.path "/v1/claims/"

    claim_reviewed-outcome :
        (status : String)
        → decode request.body ≡ some status
        → valid_claim_review_status status ≡ true
        → (r : Result (StoredClaim F) × World F)
        → call (set_claim_validation_status id status) before ≡ r
        → ReviewOutcome configured decode request before.db (claim_reviewed configured r)
    claim_reviewed-outcome status decoded reviewable (ok claim, after) h =
        let written = call-ok (set_claim_validation_status id status) before after claim h in
        accepted _ after (record {
          method = patch;
          service = service;
          id = id;
          named = refl;
          uuid = uuid;
          status = status;
          decoded = decoded;
          reviewable = reviewable;
          claim = claim;
          written = set_status-IsWritten id status before.db after.db claim written;
          answered = refl;
        })
    claim_reviewed-outcome status decoded reviewable (err e, after) h =
        refused _ after (review_refusal-status _ e)
          (call-err (set_claim_validation_status id status) before after e h)

    review_with-outcome :
        (body : Option String)
        → decode request.body ≡ body
        → ReviewOutcome configured decode request before.db (review_with configured id body before)
    review_with-outcome none decoded = refused _ before (omega arith) refl
    review_with-outcome (some status) decoded =
        by_test (ReviewOutcome configured decode request before.db)
          (not (valid_claim_review_status status)) _ _ (λ _. refused _ before (omega arith) refl)
          (λ t. claim_reviewed-outcome status decoded (ground (arith, t)) _ refl)

  -- What a request to review a claim ends in, whatever the request and the faults of the store: status
  -- 200 only where it is a PATCH of an id in the form of a UUID with a status that a review may give,
  -- and then the claims table has that status for the claim of that id, which is answered, and the other
  -- claims and the other tables are as they were; otherwise a status of at least 400, and no table has
  -- changed.
  pub claim_by_id-outcome :
      (before : World F)
      → ReviewOutcome configured decode request before.db
          (claim_by_id configured decode request before)
  unfolding claim_by_id
  claim_by_id-outcome before =
      let P = ReviewOutcome configured decode request before.db in
      by_test P (not (request.method == "PATCH")) _ _ (λ _. refused _ before (omega arith) refl)
        (λ m.
          by_test P (not configured) _ _ (λ _. refused _ before (omega arith) refl)
            (λ c.
              by_test P (not (valid_uuid (trim_prefix request.path "/v1/claims/"))) _ _
                (λ _. refused _ before (omega arith) refl)
                (λ u.
                  review_with-outcome before ((eq_iff request.method "PATCH").0 (ground (arith, m)))
                    (ground (arith, c)) (ground (arith, u)) (decode request.body) refl)))
