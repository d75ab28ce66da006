-- ===== src/Store/Documents.antt =====
-- The documents of internal/store/store.go: uploads, their status, and what is extracted from them.
pub mod Uploads
pub mod Replace
use signal_ledger_project.Prelude.{
  ℕ, suc, String, ◌≡◌, refl, Bool, true, false, ◌&&◌, ◌||◌, not, Option, none, some, List, [], ◌∷◌,
  ◌++◌, map, ◌==◌, eqb, contains, keep, first, update_where, count_where, if◌then◌else◌,
}
use signal_ledger_project.Prelude.Int.{ℤ, pos, leb_ℤ, eqb_ℤ}
use signal_ledger_project.Prelude.Float.{Float}
use signal_ledger_project.Domain.Research.{
  Time, Page, Claim, StoredClaim, Extraction, ExtractionError, validate,
}
use signal_ledger_project.Domain.Backtest.{RawMessage}
use signal_ledger_project.Domain.Records.{Document, CreateDocumentInput, Job}
use signal_ledger_project.Store.Base.{
  Result, ok, err, ◌>>=◌, ◌>>◌, require, some_or, not_found, invalid_status, invalid_input,
  violated_constraint,
}
use signal_ledger_project.Store.Tables.{Db, PageRow, ClaimRow}
use signal_ledger_project.Store.Postgres.{Postgres}
use signal_ledger_project.Store.Backtests.{is_none, enqueue}

abbrev pub new_document : String → Time → String → CreateDocumentInput → Document
new_document new_id db_now sha256 input = record {
  id = new_id;
  filename = input.filename;
  storage_key = input.storage_key;
  sha256 = sha256;
  status = "queued";
  uploaded_at = db_now;
  source_published_at = input.source_published_at;
}

abbrev pub has_hash : String → Document → Bool
has_hash sha256 document = document.sha256 == sha256

-- The rest of CreateDocumentWithExtractionJob, by the document that has the content already. (The
-- column `metadata` is not read back.)
abbrev pub insert_document :
    {F : Type 0}
    → Postgres F
    → String
    → String
    → Time
    → String
    → CreateDocumentInput
    → Db F
    → Option Document
    → Result (Document × Option Job × Bool × Db F)
insert_document pg doc_id job_id db_now sha256 input db (some existing) =
    ok (existing, none, false, db)
insert_document pg doc_id job_id db_now sha256 input db none = do
  require (eqb (count_where (λ d. d.id == doc_id) db.documents) 0) violated_constraint
  require (eqb (count_where (λ d. d.storage_key == input.storage_key) db.documents) 0)
      violated_constraint
  let document = new_document doc_id db_now sha256 input
  enqueued ←
      enqueue pg job_id db_now "extract_document" (pg.id_payload "document_id" doc_id) db.jobs
  ok (
    document,
    some enqueued.0,
    true,
    record db { documents = db.documents ++ document ∷ []; jobs = enqueued.1 },
  )

-- CreateDocumentWithExtractionJob: the document, its job, whether it is new, and the tables.
unfoldable pub create_document_with_extraction_job :
    {F : Type 0}
    → Postgres F
    → String
    → String
    → Time
    → CreateDocumentInput
    → Db F
    → Result (Document × Option Job × Bool × Db F)
create_document_with_extraction_job pg doc_id job_id db_now input db = do
  sha256 ← some_or (pg.char64 input.sha256) violated_constraint
  insert_document pg doc_id job_id db_now sha256 input db (first (has_hash sha256) db.documents)

abbrev pub document_is : String → Document → Bool
document_is id document = document.id == id

-- GetDocument
unfoldable pub get_document : {F : Type 0} → String → Db F → Result Document
get_document id db = some_or (first (document_is id) db.documents) not_found

unfoldable pub valid_document_status : String → Bool
valid_document_status status =
    status == "queued" || status == "processing" || status == "ready" || status == "failed"

abbrev pub mark : String → Document → Document
mark status document = record document { status = status }

unfoldable pub update_status : {F : Type 0} → String → String → Db F → Result (Db F)
update_status id status db = do
  require (eqb (count_where (document_is id) db.documents) 1) not_found
  ok (record db { documents = update_where (document_is id) (mark status) db.documents })

-- SetDocumentStatus
unfoldable pub set_document_status : {F : Type 0} → String → String → Db F → Result (Db F)
set_document_status id status db = do
  require (valid_document_status status) invalid_status
  update_status id status db
