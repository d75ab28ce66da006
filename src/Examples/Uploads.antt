-- ===== src/Examples/Uploads.antt =====
-- An upload of a small PDF to an empty disk.
use signal_ledger_project.Prelude.{
  ℕ, map, keep, first, count_where, ◌≤◌, arith, ap, String, ◌≡◌, refl, true, false, none, some, [],
  ◌∷◌, length,
}
use signal_ledger_project.Prelude.Int.{pos, pos_part}
use signal_ledger_project.Store.Base.{ok, Result}
use signal_ledger_project.Store.Jobs.{insert_job}
use signal_ledger_project.Store.Documents.{create_document_with_extraction_job}
use signal_ledger_project.Worker.Effects.{World}
use signal_ledger_project.Documents.{
  Files, Disk, content_at, drop_file, rename_file, put_file, append_to,
}
use signal_ledger_project.Documents.Storage.{
  Platform, FileStore, Source, StoredFile, key_of, path_for, save, fill, read_full, same_bytes,
  write, write_all, copy_pieces, delete,
}
use signal_ledger_project.Documents.Filled.{IsStored}
use signal_ledger_project.Documents.Writing.{joined}
use signal_ledger_project.Documents.Saved.{SaveOutcome, save-outcome}
use signal_ledger_project.Documents.Complete.{calm, save-succeeds}
use signal_ledger_project.Documents.Upload.{
  UploadInput, UploadResult, Given, upload, create_document,
}
use signal_ledger_project.Documents.Backed.{AllBackedOrLost, upload-AllBacked}
use signal_ledger_project.Examples.Data.{postgres, empty}

abbrev pub platform : Platform
platform = record {
  clean = λ key. key;
  is_abs = λ key. false;
  absolute = some;
  join = λ folder name. name;
  relative = λ root path. some path;
  sha256_hex = λ bytes. "hash";
}

abbrev store : FileStore
store = record { root = "root"; max_bytes = pos 8 }

abbrev source : Source
source = record { pieces = (37 ∷ 80 ∷ []) ∷ (68 ∷ 70 ∷ 45 ∷ 49 ∷ []) ∷ []; breaks = false }

abbrev disk : Disk
disk = record { files = []; faults = false ∷ false ∷ true ∷ [] }

located : path_for platform store (key_of platform "name") ≡ ok "name.pdf"
unfolding path_for
located = refl

vacant : (path : String) → content_at path [] ≡ none
unfolding content_at
vacant path = refl

save-outcome_example :
    SaveOutcome platform store "temporary" "name" source
      (pos_part store.max_bytes)
      []
      (save platform store "temporary" "name" source disk)
save-outcome_example =
    save-outcome platform store "temporary" "name" source disk (vacant "temporary")

whole : joined source.pieces ≡ 37 ∷ 80 ∷ 68 ∷ 70 ∷ 45 ∷ 49 ∷ []
unfolding joined
whole = refl

small : length (joined source.pieces) ≤ pos_part store.max_bytes
small = omega (arith, ap length whole)

save-succeeds_example :
    (stored : StoredFile) × (after : Files) × (save platform store "temporary" "name" source
        (calm [])
      ≡ (ok stored, calm after))
    × IsStored platform store "temporary" "name" source
        (pos_part store.max_bytes)
        []
        stored
        (calm after)
save-succeeds_example =
    save-succeeds platform store "temporary" "name" source [] (49 ∷ []) "name.pdf"
      (vacant "temporary") refl whole small located

abbrev given : Given
given = record {
  document_id = "d1";
  job_id = "j1";
  db_now = pos 1;
  temporary = "temporary";
  name = "name";
  lost = false;
}

abbrev input : UploadInput
input = record {
  filename = "note.pdf";
  mime_type = "application/pdf";
  source_published_at = none;
  content = source;
}

abbrev world : World ℕ
world = record { db = empty; faults = [] }

upload-AllBacked_example :
    let left = (upload postgres platform store given input world (calm [])).1 in
    AllBackedOrLost postgres platform store given left.0.db.documents left.1.files
upload-AllBacked_example =
    upload-AllBacked postgres platform store given input world (calm []) (vacant "temporary")
      (λ path e. vacant path) (λ d m. absurd m)

-- The answer to Commit is lost: the document is stored, and the disk is empty.
abbrev unanswered : Result UploadResult × (World ℕ × Disk)
unanswered = upload postgres platform store (record given { lost = true }) input world (calm [])

lost_file : (map (λ d. d.id) unanswered.1.0.db.documents ≡ "d1" ∷ []) × (unanswered.1.1.files ≡ [])
unfolding upload create_document create_document_with_extraction_job insert_job first count_where
    save fill read_full same_bytes write write_all copy_pieces path_for delete drop_file keep
    rename_file put_file append_to
lost_file = (refl, refl)
