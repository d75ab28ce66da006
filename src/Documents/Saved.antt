-- ===== src/Documents/Saved.antt =====
-- What `Save` of internal/documents/storage.go leaves on the disk, on each of its ways out.
use signal_ledger_project.Prelude.{
  ℕ, ◌≤◌, String, ◌≡◌, ◌≢◌, refl, sym, ap, ◌∙◌, subst, inl, inr, ◌⊎◌, none, some, [], length,
  Bool-cases, eq_refl,
}
use signal_ledger_project.Prelude.Int.{pos, pos_part, leb_ℤ}
use signal_ledger_project.Store.Base.{Error, Result, ok, err, unavailable, invalid_input}
use signal_ledger_project.Documents.{Bytes, Files, Disk, ◌>>◌, os, drop_file, content_at, put_file}
use signal_ledger_project.Documents.Storage.{
  StoredFile, Platform, FileStore, Source, fill, cleaned, save_within, save,
}
use signal_ledger_project.Documents.Files.{
  content_at-drop_file, differ, HasFile, HasFile-put, OsOutcome, done, failed, os_outcome,
}
use signal_ledger_project.Documents.Writing.{IsBounded}
use signal_ledger_project.Documents.Filled.{Outcome, well, ill, IsStored, fill-Outcome}

module _ (platform : Platform) (store : FileStore) (temporary name : String) (source : Source) where
  module _ (limit : ℕ) (base : Files) where
    -- A file that is refused: every other file is as it was, and the temporary one is gone, or if its
    -- removal failed too it has at most `limit` bytes.
    pub record IsRefused (disk : Disk) : Type 0 where
      pub others : (q : String) → q ≢ temporary → content_at q disk.files ≡ content_at q base
      pub cleaned :
          (content_at temporary disk.files ≡ none)
          ⊎ ((bytes : Bytes) × (content_at temporary disk.files ≡ some bytes)
              × (length bytes ≤ limit))

    pub data SaveOutcome : Result StoredFile × Disk → Type 0 where
      saved :
          (stored : StoredFile) (after : Disk)
          → IsStored platform store temporary name source limit base stored after
          → SaveOutcome (ok stored, after)
      refused : (e : Error) (after : Disk) → IsRefused after → SaveOutcome (err e, after)

    removed-outcome :
        (e : Error) (disk : Disk)
        → IsBounded temporary base limit disk
        → IsRefused (os (drop_file temporary) disk).1
    unfolding HasFile
    removed-outcome e disk b = by_os _ (os_outcome (drop_file temporary) disk)
      where
        by_os :
            (r : Result (Unit {0}) × Disk) → OsOutcome (drop_file temporary) disk r → IsRefused r.1
        by_os _ (done after x) = record {
          others = λ q n.
              ap (content_at q) x
              ∙ content_at-drop_file q temporary disk.files
              ∙ rw (differ q temporary n) (b.partial q ∙ rw (differ q temporary n) refl);
          cleaned = inl (
              ap (content_at temporary) x
              ∙ content_at-drop_file temporary temporary disk.files
              ∙ rw (eq_refl temporary) refl);
        }
        by_os _ (failed after x) = record {
          others = λ q n. ap (content_at q) x ∙ b.partial q ∙ rw (differ q temporary n) refl;
          cleaned = inr (
            b.bytes,
            ap (content_at temporary) x ∙ b.partial temporary ∙ rw (eq_refl temporary) refl,
            b.bounded,
          );
        }

    untouched :
        (disk : Disk) → content_at temporary base ≡ none → disk.files ≡ base → IsRefused disk
    untouched disk n e = record {
      others = λ q d. ap (content_at q) e;
      cleaned = inl (ap (content_at temporary) e ∙ n);
    }

    cleaned-Outcome :
        (r : Result StoredFile × Disk)
        → Outcome temporary base limit (IsStored platform store temporary name source limit base) r
        → SaveOutcome (cleaned platform store temporary r)
    cleaned-Outcome _ (well stored after g) = saved stored after g
    cleaned-Outcome _ (ill e after b) = refused e _ (removed-outcome e after b)

    within-outcome :
        (disk : Disk)
        → disk.files ≡ base
        → content_at temporary base ≡ none
        → SaveOutcome (save_within platform store temporary name source limit disk)
    within-outcome disk e n = by_check _ (os_outcome (λ files. files) disk)
      where
        filled : Disk → Result StoredFile × Disk
        filled d =
            cleaned platform store temporary (fill platform store temporary name limit source d)

        by_create :
            (before : Disk) (r : Result (Unit {0}) × Disk)
            → before.files ≡ base
            → OsOutcome (put_file temporary []) before r
            → SaveOutcome (((λ d. r) >> filled) before)
        by_create before _ f (done after x) = cleaned-Outcome _ (
            fill-Outcome platform store temporary name source limit base after (
              subst (HasFile temporary [] base) (sym (x ∙ ap (put_file temporary []) f))
                (HasFile-put temporary [] base)))
        by_create before _ f (failed after x) =
            refused unavailable after (untouched after n (x ∙ f))

        by_check :
            (r : Result (Unit {0}) × Disk)
            → OsOutcome (λ files. files) disk r
            → SaveOutcome (((λ d. r) >> (os (put_file temporary []) >> filled)) disk)
        by_check _ (done after x) =
            by_create after _ (x ∙ e) (os_outcome (put_file temporary []) after)
        by_check _ (failed after x) = refused unavailable after (untouched after n (x ∙ e))

  -- Save on each of its ways out, whichever calls of the operating system fail. If it succeeds, the
  -- reader ended and gave a PDF within the limit; what Save returns is its size, its hash and its
  -- key, and its bytes are in the file of the key. If it fails, the files are as they were, but for
  -- the temporary file if its removal failed too, which never has more bytes than the limit.
  pub save-outcome :
      (disk : Disk)
      → content_at temporary disk.files ≡ none
      → SaveOutcome
          (pos_part store.max_bytes)
          disk.files
          (save platform store temporary name source disk)
  unfolding save
  save-outcome disk n = elim (Bool-cases (leb_ℤ store.max_bytes (pos 0))) [
    | inl e ↦ rw e (refused invalid_input disk (untouched _ disk.files disk n refl))
    | inr e ↦ rw e (within-outcome (pos_part store.max_bytes) disk.files disk refl n)
  ]
