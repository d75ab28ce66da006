-- ===== src/Store/Documents/Replace.antt =====
-- ReplaceExtraction of internal/store/store.go: the extracted pages and claims of a document are
-- replaced in one transaction.
pub mod Replaced
use signal_ledger_project.Prelude.{
  ℕ, suc, String, ◌≡◌, refl, Bool, true, false, ◌&&◌, ◌||◌, not, Option, none, some, List, [], ◌∷◌,
  ◌++◌, map, ◌==◌, eqb, contains, keep, count_where, if◌then◌else◌,
}
use signal_ledger_project.Prelude.Int.{ℤ, pos, leb_ℤ, eqb_ℤ}
use signal_ledger_project.Prelude.Float.{Float}
use signal_ledger_project.Domain.Research.{Time, Page, Claim, StoredClaim, Extraction, validate}
use signal_ledger_project.Store.Base.{
  Result, ok, err, ◌>>=◌, ◌>>◌, require, some_or, invalid_input, violated_constraint,
}
use signal_ledger_project.Store.Tables.{Db, PageRow, ClaimRow, Citation, Attribution}
use signal_ledger_project.Store.Postgres.{Postgres}
use signal_ledger_project.Store.Backtests.{is_none}
use signal_ledger_project.Store.Documents.{update_status}

-- The largest INTEGER.
abbrev pub fits_integer : ℤ → Bool
fits_integer n = leb_ℤ n (pos 2_147_483_647)

abbrev pub fits_days : Option ℤ → Bool
fits_days none = true
fits_days (some days) = fits_integer days

abbrev pub of_document : String → PageRow → Bool
of_document id row = row.document_id == id

abbrev pub page_row : String → String → Page → PageRow
page_row new_id document_id page = record {
  id = new_id;
  document_id = document_id;
  number = page.number;
  content = page.content;
}

-- The map from page numbers to ids.
unfoldable pub page_id : ℤ → List (ℤ × String) → Option String
page_id n [] = none
page_id n ((m, id) ∷ rest) = if eqb_ℤ n m then some id else page_id n rest

-- The loop over the pages. `fresh` gives the ids of the new rows; a number that the document has
-- violates UNIQUE (document_id, page_number).
unfoldable pub insert_pages :
    (ℕ → String)
    → String
    → ℕ
    → List Page
    → List PageRow
    → List (ℤ × String)
    → Result (List PageRow × List (ℤ × String))
insert_pages fresh document_id index [] rows ids = ok (rows, ids)
insert_pages fresh document_id index (page ∷ pages) rows ids = do
  let new = page_row (fresh index) document_id page
  require (fits_integer page.number) violated_constraint
  require (eqb (count_where (λ r. r.id == new.id) rows) 0) violated_constraint
  require
      (eqb (count_where (λ r. r.document_id == document_id && eqb_ℤ r.number page.number) rows) 0)
      violated_constraint
  insert_pages fresh document_id (suc index) pages (rows ++ new ∷ []) ((page.number, new.id) ∷ ids)

module _ {F : Type 0} (pg : Postgres F) where
  -- A new claim is pending; `confidence` is rounded by its column.
  abbrev pub claim_row : String → Time → String → String → Claim F → ClaimRow F
  claim_row new_id db_now document_id page claim = record {
    page_id = page;
    claim = record {
      id = new_id;
      document_id = document_id;
      page_number = claim.page_number;
      ticker = claim.ticker;
      kind = claim.kind;
      direction = claim.direction;
      text = claim.text;
      evidence_quote = claim.evidence_quote;
      horizon_days = claim.horizon_days;
      confidence = pg.numeric claim.confidence;
      effective_at = claim.effective_at;
      validation_status = "pending";
      created_at = db_now;
    };
  }

  -- The loop over the claims. The CHECKs hold of what Validate accepts.
  unfoldable pub insert_claims :
      (ℕ → String)
      → Time
      → String
      → List (ℤ × String)
      → ℕ
      → List (Claim F)
      → List (ClaimRow F)
      → Result (List (ClaimRow F))
  insert_claims fresh db_now document_id ids index [] rows = ok rows
  insert_claims fresh db_now document_id ids index (claim ∷ claims) rows = do
    page ← some_or (page_id claim.page_number ids) violated_constraint
    let new = claim_row (fresh index) db_now document_id page claim
    require (fits_days claim.horizon_days) violated_constraint
    require (eqb (count_where (λ r. r.claim.id == new.claim.id) rows) 0) violated_constraint
    insert_claims fresh db_now document_id ids (suc index) claims (rows ++ new ∷ [])

  -- DELETE FROM document_pages: the claims of a deleted page go with it, unless a strategy or a
  -- candidate cites one of them.
  unfoldable pub delete_pages : String → Db F → Result (Db F)
  delete_pages document_id db = do
    let pages = map (λ row. row.id) (keep (of_document document_id) db.pages)
    let gone = map (λ row. row.claim.id) (keep (λ row. contains pages row.page_id) db.claims)
    require (eqb (count_where (λ c. contains gone c.claim_id) db.citations) 0) violated_constraint
    require (eqb (count_where (λ a. contains gone a.evidence.claim_id) db.attributions) 0)
        violated_constraint
    ok (record db {
      pages = keep (λ row. not (of_document document_id row)) db.pages;
      claims = keep (λ row. not (contains pages row.page_id)) db.claims;
    })

  -- ReplaceExtraction. The document is a foreign key of its pages.
  unfoldable pub replace_extraction :
      Float F → (ℕ → String) → (ℕ → String) → Time → String → Extraction F → Db F → Result (Db F)
  replace_extraction fl fresh_page fresh_claim db_now document_id extraction db = do
    require (is_none (validate fl extraction)) invalid_input
    cleared ← delete_pages document_id db
    require (contains (map (λ d. d.id) cleared.documents) document_id) violated_constraint
    pages ← insert_pages fresh_page document_id 0 extraction.pages cleared.pages []
    claims ← insert_claims fresh_claim db_now document_id pages.1 0 extraction.claims cleared.claims
    update_status document_id "ready" (record cleared { pages = pages.0; claims = claims })
