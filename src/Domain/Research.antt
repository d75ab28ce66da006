-- ===== src/Domain/Research.antt =====
-- internal/domain/research.go: extracted claims, stored claims and `Extraction.Validate`.
use signal_ledger_project.Prelude.{
  ℕ, suc, String, Bool, false, ◌||◌, not, Option, none, some, List, [], ◌∷◌, ◌==◌, if◌then◌else◌,
}
use signal_ledger_project.Prelude.Int.{ℤ, pos, ltb_ℤ, eqb_ℤ}
use signal_ledger_project.Prelude.Float.{Float}
use signal_ledger_project.Prelude.Strings.{trim_space}

-- An instant, in nanoseconds from the zero time of the `time` package.
abbrev pub Time : Type 0
Time = ℤ

abbrev pub is_zero : Time → Bool
is_zero t = eqb_ℤ t (pos 0)

pub record StoredClaim (F : Type 0) : Type 0 where
  pub id : String
  pub document_id : String
  pub page_number : ℤ
  pub ticker : Option String
  pub kind : String
  pub direction : String
  pub text : String
  pub evidence_quote : String
  pub horizon_days : Option ℤ
  pub confidence : F
  pub effective_at : Time
  pub validation_status : String
  pub created_at : Time

pub record Page : Type 0 where
  pub number : ℤ
  pub content : String

pub record Claim (F : Type 0) : Type 0 where
  pub page_number : ℤ
  pub ticker : Option String
  pub kind : String
  pub direction : String
  pub text : String
  pub evidence_quote : String
  pub horizon_days : Option ℤ
  pub confidence : F
  pub effective_at : Time

pub record Extraction (F : Type 0) : Type 0 where
  pub pages : List Page
  pub claims : List (Claim F)

unfoldable pub valid_claim_review_status : String → Bool
valid_claim_review_status status = status == "accepted" || status == "rejected"

unfoldable pub valid_claim_kind : String → Bool
valid_claim_kind kind =
    kind == "fundamental"
    || kind == "macro"
    || kind == "risk"
    || kind == "catalyst"
    || kind == "valuation"

unfoldable pub valid_direction : String → Bool
valid_direction direction =
    direction == "positive" || direction == "negative" || direction == "neutral"

-- The errors of `Extraction.Validate`, one for each message, with what the message prints.
pub data ExtractionError : Type 0 where
  no_pages : ExtractionError
  invalid_page : ℤ → ExtractionError
  duplicate_page : ℤ → ExtractionError
  missing_page : ℕ → ℤ → ExtractionError
  missing_text invalid_confidence invalid_horizon missing_effective_time : ℕ → ExtractionError
  invalid_kind invalid_claim_direction : ℕ → String → ExtractionError

-- Whether a page number is a key of the map `pages`.
unfoldable pub has_page : List ℤ → ℤ → Bool
has_page [] n = false
has_page (p ∷ ps) n = eqb_ℤ n p || has_page ps n

-- The loop over the pages: the map filled, or the error.
unfoldable pub collect_pages : List ℤ → List Page → Option ExtractionError × List ℤ
collect_pages seen [] = (none, seen)
collect_pages seen (page ∷ pages) =
    let rest = collect_pages (page.number ∷ seen) pages in
    if ltb_ℤ page.number (pos 1)
    then (some (invalid_page page.number), seen)
    else if has_page seen page.number
    then (some (duplicate_page page.number), seen)
    else rest

unfoldable pub below_one : Option ℤ → Bool
below_one none = false
below_one (some days) = ltb_ℤ days (pos 1)

module _ {F : Type 0} (fl : Float F) where
  -- The body of the loop over the claims.
  unfoldable pub check_claim : List ℤ → ℕ → Claim F → Option ExtractionError
  unfolding valid_claim_kind valid_direction below_one
  check_claim pages index claim =
      if not (has_page pages claim.page_number)
      then some (missing_page index claim.page_number)
      else if trim_space claim.text == "" || trim_space claim.evidence_quote == ""
      then some (missing_text index)
      else if not (valid_claim_kind claim.kind)
      then some (invalid_kind index claim.kind)
      else if not (valid_direction claim.direction)
      then some (invalid_claim_direction index claim.direction)
      else if fl.lt claim.confidence (fl.lit 0 0) || fl.lt (fl.lit 1 0) claim.confidence
      then some (invalid_confidence index)
      else if below_one claim.horizon_days
      then some (invalid_horizon index)
      else if is_zero claim.effective_at
      then some (missing_effective_time index)
      else none

  unfoldable pub check_claims : List ℤ → ℕ → List (Claim F) → Option ExtractionError
  check_claims pages index [] = none
  check_claims pages index (claim ∷ claims) = elim (check_claim pages index claim) [
    | some error ↦ some error
    | none ↦ check_claims pages (suc index) claims
  ]

  -- Extraction.Validate: `none` is the nil error.
  unfoldable pub validate : Extraction F → Option ExtractionError
  validate extraction = elim extraction.pages [
    | [] ↦ some no_pages
    | page ∷ pages ↦
        let collected = collect_pages [] (page ∷ pages) in
        elim (collected.0) [
          | some error ↦ some error
          | none ↦ check_claims (collected.1) 0 extraction.claims
        ]
  ]
