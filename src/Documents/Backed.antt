-- ===== src/Documents/Backed.antt =====
-- Every document has its file: what `Upload` of internal/documents/service.go keeps.
use signal_ledger_project.Prelude.{
  String, ◌≡◌, ◌≢◌, refl, sym, ap, ◌∙◌, subst, Bool, true, false, ◌⊎◌, inl, inr, Option, none, some,
  List, eq_refl, if◌then◌else◌, In, In-append_cases,
}
use signal_ledger_project.Prelude.Int.{pos_part}
use signal_ledger_project.Domain.Records.{Document, Job}
use signal_ledger_project.Store.Base.{Result, ok, err, unavailable, ok-injective}
use signal_ledger_project.Store.Tables.{Db}
use signal_ledger_project.Store.Postgres.{Postgres}
use signal_ledger_project.Store.Documents.{create_document_with_extraction_job}
use signal_ledger_project.Store.Documents.Uploads.{duplicate, created, create-Uploaded}
use signal_ledger_project.Worker.Effects.{World, call, call-ok}
use signal_ledger_project.Worker.Reading.{call-err}
use signal_ledger_project.Documents.{Bytes, Files, Disk, content_at, drop_file, os}
use signal_ledger_project.Documents.Storage.{
  StoredFile, Platform, FileStore, key_of, path_for, delete,
}
use signal_ledger_project.Documents.Files.{
  HasFile, content_at-drop_file, if_other, OsOutcome, done, failed, os_outcome,
}
use signal_ledger_project.Documents.Writing.{joined}
use signal_ledger_project.Documents.Filled.{IsStored}
use signal_ledger_project.Documents.Saved.{SaveOutcome, saved, refused, IsRefused, save-outcome}
use signal_ledger_project.Documents.Upload.{
  UploadInput, UploadResult, Given, input_for, as_result, create_document, discarded, settle,
  register, upload, acknowledged, stored_result,
}

delete-located :
    (platform : Platform) (store : FileStore) (key path : String) (disk : Disk)
    → path_for platform store key ≡ ok path
    → delete platform store key disk ≡ os (drop_file path) disk
unfolding delete
delete-located platform store key path disk e = rw e refl

module _ {F : Type 0} (pg : Postgres F) (platform : Platform) (store : FileStore) where
  -- The file of a document is there, and its bytes have the hash of the document.
  pub record IsBacked (files : Files) (document : Document) : Type 0 where
    pub path : String
    pub located : path_for platform store document.storage_key ≡ ok path
    pub bytes : Bytes
    pub filed : content_at path files ≡ some bytes
    pub hashed : pg.char64 (platform.sha256_hex bytes) ≡ some document.sha256

  abbrev pub AllBacked : List Document → Files → Type 0
  AllBacked documents files = (d : Document) → In d documents → IsBacked files d

  -- Every document has its file, except one that the upload has added without an answer to Commit.
  abbrev pub AllBackedOrLost : Given → List Document → Files → Type 0
  AllBackedOrLost given documents files =
      (d : Document)
      → In d documents
      → IsBacked files d ⊎ ((given.lost ≡ true) × (d.id ≡ given.document_id))

  some_not_none : (bytes : Bytes) (o : Option Bytes) → o ≡ some bytes → ¬ (o ≡ none)
  some_not_none bytes o h k = cc

  -- A document keeps its file where only files change that were not there.
  IsBacked-kept :
      (before after : Files)
      → ((q : String) (bytes : Bytes)
          → content_at q before ≡ some bytes
          → content_at q after ≡ some bytes)
      → (d : Document) → IsBacked before d
      → IsBacked after d
  IsBacked-kept before after k d b = record {
    path = b.path;
    located = b.located;
    bytes = b.bytes;
    filed = k b.path b.bytes b.filed;
    hashed = b.hashed;
  }

  -- A path that has a file differs from one that has none.
  apart :
      (q p : String) (files : Files) (bytes : Bytes)
      → content_at q files ≡ some bytes
      → content_at p files ≡ none
      → q ≢ p
  apart q p files bytes h n e =
      some_not_none bytes (content_at q files) h (ap (λ z. content_at z files) e ∙ n)

  module _ (given : Given) (input : UploadInput) (base : Files)
      (no_temporary : content_at given.temporary base ≡ none)
      (no_name : (path : String)
        → path_for platform store (key_of platform given.name) ≡ ok path
        → content_at path base ≡ none) where
    Keeps : Files → Type 0
    Keeps files =
        (q : String) (bytes : Bytes)
        → content_at q base ≡ some bytes
        → content_at q files ≡ some bytes

    refused-Keeps :
        (disk : Disk)
        → IsRefused platform store given.temporary given.name input.content
            (pos_part store.max_bytes)
            base
            disk
        → Keeps disk.files
    unfolding Keeps
    refused-Keeps disk r q bytes h =
        r.others q (apart q given.temporary base bytes h no_temporary) ∙ h

    module _ (stored : StoredFile) (disk : Disk)
        (s : IsStored platform store given.temporary given.name input.content
          (pos_part store.max_bytes)
          base
          stored
          disk) where
      stored-Keeps : Keeps disk.files
      unfolding Keeps HasFile
      stored-Keeps q bytes h =
          s.filed q
          ∙ if_other q s.destination _ _
              (apart q s.destination base bytes h (no_name s.destination s.located))
          ∙ content_at-drop_file q given.temporary base
          ∙ if_other q given.temporary _ _ (apart q given.temporary base bytes h no_temporary)
          ∙ h

      discarded-Keeps : Keeps (discarded pg platform store given stored disk).files
      unfolding Keeps
      discarded-Keeps q bytes h =
          ap (λ r. content_at q r.1.files)
            (ap (λ key. delete platform store key disk) s.key
              ∙ delete-located platform store (key_of platform given.name) s.destination disk
                  s.located)
          ∙ by_os _ (os_outcome (drop_file s.destination) disk)
        where
          by_os :
              (r : Result (Unit {0}) × Disk)
              → OsOutcome (drop_file s.destination) disk r
              → content_at q r.1.files ≡ some bytes
          by_os _ (done after e) =
              ap (content_at q) e
              ∙ content_at-drop_file q s.destination disk.files
              ∙ if_other q s.destination _ _
                  (apart q s.destination base bytes h (no_name s.destination s.located))
              ∙ stored-Keeps q bytes h
          by_os _ (failed after e) = ap (content_at q) e ∙ stored-Keeps q bytes h

    -- What Upload leaves, by what createDocument did.
    module _ (w : World F) (backed : AllBacked w.db.documents base) where
      Holds : Result UploadResult × (World F × Disk) → Type 0
      Holds r = AllBacked r.1.0.db.documents r.1.1.files

      HoldsOrLost : Result UploadResult × (World F × Disk) → Type 0
      HoldsOrLost r = AllBackedOrLost given r.1.0.db.documents r.1.1.files

      still :
          (documents : List Document) (files : Files)
          → documents ≡ w.db.documents
          → Keeps files
          → AllBacked documents files
      unfolding Keeps
      still documents files e k d m = IsBacked-kept base files k d (backed d (subst (In d) e m))

      module _ (stored : StoredFile) (disk : Disk)
          (s : IsStored platform store given.temporary given.name input.content
            (pos_part store.max_bytes)
            base
            stored
            disk) where
        new-IsBacked :
            (sha256 : String) (d : Document)
            → pg.char64 stored.sha256 ≡ some sha256
            → d.sha256 ≡ sha256
            → d.storage_key ≡ stored.storage_key
            → IsBacked disk.files d
        unfolding HasFile
        new-IsBacked sha256 d c e k = record {
          path = s.destination;
          located = ap (path_for platform store) (k ∙ s.key) ∙ s.located;
          bytes = joined input.content.pieces;
          filed = s.filed s.destination ∙ rw (eq_refl s.destination) refl;
          hashed = ap pg.char64 (sym s.hash) ∙ c ∙ ap some (sym e);
        }

        created-Holds :
            (result : UploadResult) (after : World F)
            → create_document_with_extraction_job pg given.document_id given.job_id given.db_now
                (input_for input stored)
                w.db
              ≡ ok (result.document, result.job, result.created, after.db)
            → Holds (settle pg platform store given stored (ok result, after) disk)
        unfolding Holds
        created-Holds result after h =
            let c =
              create-Uploaded pg given.document_id given.job_id given.db_now
                (input_for input stored) w.db result.document result.job result.created after.db
                h in
            let left : Bool → Files =
              (λ b. (if b then disk else discarded pg platform store given stored disk).files) in
            elim c.2 [
              | duplicate e f g same ↦
                  subst (λ b. AllBacked after.db.documents (left b)) (sym f)
                    (still after.db.documents _ (ap (λ db. db.documents) same)
                      (discarded-Keeps stored disk s))
              | created e f k added ↦
                  subst (λ b. AllBacked after.db.documents (left b)) (sym f)
                    (λ d m. elim (In-append_cases d w.db.documents _ (subst (In d) added m)) [
                      | inl old ↦
                          still w.db.documents disk.files refl (stored-Keeps stored disk s) d old
                      | inr new ↦ elim new [
                        | inl q ↦
                            new-IsBacked c.0 d c.1 (ap (λ z. z.sha256) (q ∙ k))
                              (ap (λ z. z.storage_key) (q ∙ k))
                        | inr z ↦ absurd z
                      ]
                    ])
            ]

        as_result-ok :
            (r : Result (Document × Option Job × Bool × Db F)) (result : UploadResult) (db : Db F)
            → as_result pg platform store given r ≡ ok (result, db)
            → r ≡ ok (result.document, result.job, result.created, db)
        as_result-ok (ok (document, job, is_new, after)) result db h =
            let same = ok-injective _ _ h in
            ap (λ v. ok (v.0.document, v.0.job, v.0.created, v.1)) same
        as_result-ok (err e) result db h = cc

        -- The answer to Commit is lost: the file is discarded, and the new document may stand.
        lost-Holds :
            (result : UploadResult) (after : World F)
            → given.lost ≡ true
            → create_document_with_extraction_job pg given.document_id given.job_id given.db_now
                (input_for input stored)
                w.db
              ≡ ok (result.document, result.job, result.created, after.db)
            → HoldsOrLost (settle pg platform store given stored (err unavailable, after) disk)
        unfolding Holds HoldsOrLost
        lost-Holds result after lost h =
            let c =
              create-Uploaded pg given.document_id given.job_id given.db_now
                (input_for input stored) w.db result.document result.job result.created after.db
                h in
            elim c.2 [
              | duplicate e f g same ↦ λ d m. inl (
                  still after.db.documents _ (ap (λ db. db.documents) same)
                    (discarded-Keeps stored disk s) d m)
              | created e f k added ↦ λ d m.
                  elim (In-append_cases d w.db.documents _ (subst (In d) added m)) [
                    | inl old ↦
                        inl (still w.db.documents _ refl (discarded-Keeps stored disk s) d old)
                    | inr (inl q) ↦ inr (lost, ap (λ z. z.id) (q ∙ k))
                    | inr (inr z) ↦ absurd z
                  ]
            ]

        registered-Holds : HoldsOrLost (
            settle pg platform store given stored
              (create_document pg platform store given input stored w)
              disk)
        unfolding create_document Holds HoldsOrLost
        registered-Holds =
            by_result given.lost refl (call (stored_result pg platform store given input stored) w)
              refl
          where
            by_result :
                (b : Bool)
                → given.lost ≡ b
                → (r : Result UploadResult × World F)
                → call (stored_result pg platform store given input stored) w ≡ r
                → HoldsOrLost (
                    settle pg platform store given stored
                      (acknowledged pg platform store given b r)
                      disk)
            by_result false l (ok result, after) e = λ d m. inl (
                created-Holds result after
                  (as_result-ok _ result after.db (call-ok _ w after result e)) d m)
            by_result true l (ok result, after) e =
                lost-Holds result after l
                  (as_result-ok _ result after.db (call-ok _ w after result e))
            by_result false l (err x, after) e = λ d m. inl (
                still after.db.documents _ (ap (λ db. db.documents) (call-err _ w after x e))
                  (discarded-Keeps stored disk s) d m)
            by_result true l (err x, after) e = λ d m. inl (
                still after.db.documents _ (ap (λ db. db.documents) (call-err _ w after x e))
                  (discarded-Keeps stored disk s) d m)

      saved-Holds :
          (r : Result StoredFile × Disk)
          → SaveOutcome platform store given.temporary given.name input.content
              (pos_part store.max_bytes)
              base
              r
          → HoldsOrLost (register pg platform store given input w r)
      unfolding Holds HoldsOrLost
      saved-Holds _ (saved stored disk s) = registered-Holds stored disk s
      saved-Holds _ (refused e disk r) =
          λ d m. inl (still w.db.documents disk.files refl (refused-Keeps disk r) d m)

  -- Upload keeps that every document has a file with the hash of the document, on each of its ways
  -- out and whichever calls of the database and of the operating system fail, if the temporary file
  -- and the random name are new; but where Commit takes effect and its answer is lost, the document
  -- that the upload has added, and no other, may be without its file.
  pub upload-AllBacked :
      (given : Given) (input : UploadInput) (w : World F) (disk : Disk)
      → content_at given.temporary disk.files ≡ none
      → ((path : String)
          → path_for platform store (key_of platform given.name) ≡ ok path
          → content_at path disk.files ≡ none)
      → AllBacked w.db.documents disk.files
      → let left = (upload pg platform store given input w disk).1 in
        AllBackedOrLost given left.0.db.documents left.1.files
  unfolding upload Holds HoldsOrLost
  upload-AllBacked given input w disk n m backed =
      saved-Holds given input disk.files n m w backed _
        (save-outcome platform store given.temporary given.name input.content disk n)
