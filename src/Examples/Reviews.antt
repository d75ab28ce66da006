-- ===== src/Examples/Reviews.antt =====
-- The review of a claim over HTTP.
use signal_ledger_project.Prelude.{ℕ, ◌≡◌, refl, true, some, [], ◌∷◌, first}
use signal_ledger_project.Domain.Research.{StoredClaim, valid_claim_review_status}
use signal_ledger_project.Store.Strategies.{set_claim_validation_status}
use signal_ledger_project.Worker.Effects.{World}
use signal_ledger_project.Http.{
  Request, write_json, valid_uuid, byte_count, char_size, uuid_chars, is_uuid_char, is_hex,
  trim_prefix, after_prefix,
}
use signal_ledger_project.Http.Claims.{claim_by_id, claim_response_from}
use signal_ledger_project.Http.Reviewed.{ReviewOutcome, claim_by_id-outcome}
use signal_ledger_project.Examples.Data.{empty, claim}

abbrev proposed : StoredClaim ℕ
proposed = record claim {
  id = "01234567-89ab-cdef-0123-456789abcdef";
  validation_status = "pending";
}

abbrev world : World ℕ
world = record {
  db = record empty { claims = record { page_id = "p1"; claim = proposed } ∷ [] };
  faults = [];
}

abbrev request : Request
request = record {
  method = "PATCH";
  path = "/v1/claims/01234567-89ab-cdef-0123-456789abcdef";
  body = "accepted";
}

claim_by_id-outcome_example :
    ReviewOutcome true some request world.db (claim_by_id true some request world)
claim_by_id-outcome_example = claim_by_id-outcome true some request world

-- The claim is answered with its new status.
accepts :
    (claim_by_id true some request world).0
    ≡ write_json 200 (claim_response_from (record proposed { validation_status = "accepted" }))
unfolding claim_by_id valid_uuid byte_count char_size uuid_chars is_uuid_char is_hex trim_prefix
    after_prefix valid_claim_review_status set_claim_validation_status first
accepts = refl
