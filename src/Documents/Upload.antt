-- ===== src/Documents/Upload.antt =====
-- `Service` of internal/documents/service.go, over the tables and the disk.
use signal_ledger_project.Prelude.{String, Bool, true, false, Option, if◌then◌else◌}
use signal_ledger_project.Prelude.Int.{pos}
use signal_ledger_project.Domain.Research.{Time}
use signal_ledger_project.Domain.Records.{Document, CreateDocumentInput, Job}
use signal_ledger_project.Store.Base.{Result, ok, err, unavailable}
use signal_ledger_project.Store.Tables.{Db}
use signal_ledger_project.Store.Postgres.{Postgres}
use signal_ledger_project.Store.Documents.{create_document_with_extraction_job, get_document}
use signal_ledger_project.Worker.Effects.{World, Step, call, query}
use signal_ledger_project.Documents.{Disk}
use signal_ledger_project.Documents.Storage.{StoredFile, Platform, FileStore, Source, save, delete}

pub record UploadInput : Type 0 where
  pub filename : String
  pub mime_type : String
  pub source_published_at : Option Time
  pub content : Source

pub record UploadResult : Type 0 where
  pub document : Document
  pub job : Option Job
  pub created : Bool

-- What the calls of an upload are given: the ids and the time of the database, the random names, and
-- whether the answer to Commit is lost, so that the transaction stands and the store returns an error.
pub record Given : Type 0 where
  pub document_id : String
  pub job_id : String
  pub db_now : Time
  pub temporary : String
  pub name : String
  pub lost : Bool

abbrev pub input_for : UploadInput → StoredFile → CreateDocumentInput
input_for input stored = record {
  filename = input.filename;
  storage_key = stored.storage_key;
  sha256 = stored.sha256;
  size_bytes = pos stored.size_bytes;
  mime_type = input.mime_type;
  source_published_at = input.source_published_at;
}

module _ {F : Type 0} (pg : Postgres F) (platform : Platform) (store : FileStore)
    (given : Given) where
  abbrev pub as_result : Result (Document × Option Job × Bool × Db F) → Result (UploadResult × Db F)
  as_result (ok (document, job, created, db)) =
      ok (record { document = document; job = job; created = created }, db)
  as_result (err e) = err e

  abbrev pub acknowledged : {A : Type 0} → Bool → Result A × World F → Result A × World F
  acknowledged false r = r
  acknowledged true (ok a, world) = (err unavailable, world)
  acknowledged true (err e, world) = (err e, world)

  abbrev pub stored_result : UploadInput → StoredFile → Db F → Result (UploadResult × Db F)
  stored_result input stored db = as_result (
      create_document_with_extraction_job pg given.document_id given.job_id given.db_now
        (input_for input stored) db)

  -- createDocument
  unfoldable pub create_document : UploadInput → StoredFile → Step F UploadResult
  create_document input stored world =
      acknowledged given.lost (call (stored_result input stored) world)

  abbrev pub discarded : StoredFile → Disk → Disk
  discarded stored disk = (delete platform store stored.storage_key disk).1

  -- The rest of Upload, by what createDocument returned.
  abbrev pub settle :
      StoredFile → Result UploadResult × World F → Disk → Result UploadResult × (World F × Disk)
  settle stored (err e, world) disk = (err e, (world, discarded stored disk))
  settle stored (ok result, world) disk =
      (ok result, (world, if result.created then disk else discarded stored disk))

  -- By what Save returned.
  abbrev pub register :
      UploadInput → World F → Result StoredFile × Disk → Result UploadResult × (World F × Disk)
  register input world (err e, disk) = (err e, (world, disk))
  register input world (ok stored, disk) = settle stored (create_document input stored world) disk

  -- Upload
  unfoldable pub upload : UploadInput → World F → Disk → Result UploadResult × (World F × Disk)
  upload input world disk =
      register input world (save platform store given.temporary given.name input.content disk)

  -- Get
  unfoldable pub get : String → Step F Document
  get id = query (get_document id)
