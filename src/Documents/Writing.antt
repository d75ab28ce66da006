-- ===== src/Documents/Writing.antt =====
-- What the limited writer of internal/documents/storage.go puts on the disk.
use mathlib.Core.List.{append_assoc, append-nil}
use signal_ledger_project.Prelude.{
  ℕ, zero, suc, ◌+◌, ◌-◌, ◌≤◌, String, ◌≡◌, refl, sym, ap, ◌∙◌, subst, Bool, true, false, inl, inr,
  List, [], ◌∷◌, ◌++◌, arith, ltb, length, length-append, Bool-cases,
}
use signal_ledger_project.Store.Base.{Error, Result, ok, err, too_large, unavailable}
use signal_ledger_project.Documents.{Bytes, Files, Disk, give, fail, ◌>>=◌, append_to}
use signal_ledger_project.Documents.Storage.{
  LimitedWriter, first_bytes, write_all, cut, write, copy_pieces,
}
use signal_ledger_project.Documents.Files.{
  HasFile, HasFile-append, OsOutcome, done, failed, os_outcome, bind-ok,
}

length-first_bytes : (n : ℕ) (bytes : Bytes) → length (first_bytes n bytes) ≤ n
length-first_bytes n [] = omega arith
length-first_bytes zero (b ∷ bytes) = omega arith
length-first_bytes (suc n) (b ∷ bytes) = omega (arith, length-first_bytes n bytes)

-- All the pieces of a reader.
unfoldable pub joined : List Bytes → Bytes
joined [] = []
joined (piece ∷ pieces) = piece ++ joined pieces

module _ (temporary : String) (base : Files) where
  -- The temporary file has what the hash has seen, which is within the limit.
  pub record IsWriting (writer : LimitedWriter) (disk : Disk) : Type 0 where
    pub written : HasFile temporary writer.hashed base disk.files
    pub counted : writer.size ≡ length writer.hashed
    pub within : writer.size ≤ writer.limit

  -- At most so many bytes are in the temporary file, and no other file has changed.
  pub record IsBounded (limit : ℕ) (disk : Disk) : Type 0 where
    pub bytes : Bytes
    pub partial : HasFile temporary bytes base disk.files
    pub bounded : length bytes ≤ limit

  -- A writer that takes these bytes more, or an error.
  pub data WriteOutcome (writer : LimitedWriter) (bytes : Bytes)
      : Result LimitedWriter × Disk → Type 0 where
    wrote :
        (next : LimitedWriter) (after : Disk)
        → IsWriting next after
        → next.hashed ≡ writer.hashed ++ bytes
        → next.limit ≡ writer.limit
        → WriteOutcome writer bytes (ok next, after)
    broke :
        (e : Error) (after : Disk)
        → IsBounded writer.limit after
        → WriteOutcome writer bytes (err e, after)

  module _ (writer : LimitedWriter) (disk : Disk) (state : IsWriting writer disk) where
    unchanged : (after : Disk) → after.files ≡ disk.files → IsBounded writer.limit after
    unchanged after e = record {
      bytes = writer.hashed;
      partial = subst (HasFile temporary writer.hashed base) (sym e) state.written;
      bounded = omega (arith, state.counted, state.within);
    }

    write_all-outcome :
        (bytes : Bytes)
        → writer.size + length bytes ≤ writer.limit
        → WriteOutcome writer bytes (write_all temporary bytes writer disk)
    unfolding write_all
    write_all-outcome bytes fits = by_os _ (os_outcome (append_to temporary bytes) disk)
      where
        next : LimitedWriter
        next = record writer { size = writer.size + length bytes; hashed = writer.hashed ++ bytes }

        by_os :
            (r : Result (Unit {0}) × Disk)
            → OsOutcome (append_to temporary bytes) disk r
            → WriteOutcome writer bytes (((λ d. r) >>= λ _. give next) disk)
        by_os _ (done after e) =
            wrote next after
              (record {
                written =
                    subst (HasFile temporary (writer.hashed ++ bytes) base) (sym e)
                      (HasFile-append temporary writer.hashed bytes base disk.files state.written);
                counted = omega (arith, state.counted, length-append writer.hashed bytes);
                within = fits;
              })
              refl refl
        by_os _ (failed after e) = broke unavailable after (unchanged after e)

    -- After a cut the file is full at most.
    cut-outcome :
        (bytes whole : Bytes)
        → writer.size + length bytes ≤ writer.limit
        → WriteOutcome writer whole (cut temporary bytes writer disk)
    cut-outcome bytes whole fits = by_write _ (write_all-outcome bytes fits)
      where
        by_write :
            (r : Result LimitedWriter × Disk)
            → WriteOutcome writer bytes r
            → WriteOutcome writer whole
                (((λ d. r) >>= λ _. fail {A = LimitedWriter} too_large) disk)
        by_write _ (wrote next after n h l) = broke too_large after (record {
          bytes = next.hashed;
          partial = n.written;
          bounded = omega (arith, n.counted, n.within, l);
        })
        by_write _ (broke e after b) = broke e after b

    -- limitedWriter.Write takes all the bytes, or fails with at most `limit` bytes in the file.
    pub write-outcome :
        (bytes : Bytes) → WriteOutcome writer bytes (write temporary bytes writer disk)
    unfolding write
    write-outcome bytes = elim (Bool-cases (ltb writer.limit (writer.size + length bytes))) [
      | inr e ↦ rw e (write_all-outcome bytes (ground (arith, e)))
      | inl e ↦ elim (Bool-cases (ltb 0 (writer.limit - writer.size))) [
        | inl f ↦
            rw (e, f)
              (cut-outcome (first_bytes (writer.limit - writer.size) bytes) bytes (
                omega (arith, length-first_bytes (writer.limit - writer.size) bytes, state.within)))
        | inr f ↦ rw (e, f) (broke too_large disk (unchanged disk refl))
      ]
    ]

  -- So does io.Copy through it.
  pub copy-outcome :
      (pieces : List Bytes) (breaks : Bool) (writer : LimitedWriter) (disk : Disk)
      → IsWriting writer disk
      → WriteOutcome writer (joined pieces) (copy_pieces temporary pieces breaks writer disk)
  unfolding copy_pieces joined
  copy-outcome [] true writer disk state =
      broke unavailable disk (unchanged writer disk state disk refl)
  copy-outcome [] false writer disk state = wrote writer disk state (sym (append-nil _)) refl
  copy-outcome ([] ∷ pieces) breaks writer disk state = copy-outcome pieces breaks writer disk state
  copy-outcome ((b ∷ piece) ∷ pieces) breaks writer disk state =
      by_write (copy-outcome pieces breaks) _ (write-outcome writer disk state (b ∷ piece))
    where
      shifted :
          (next : LimitedWriter)
          → next.hashed ≡ writer.hashed ++ b ∷ piece
          → next.limit ≡ writer.limit
          → (r : Result LimitedWriter × Disk) → WriteOutcome next (joined pieces) r
          → WriteOutcome writer ((b ∷ piece) ++ joined pieces) r
      shifted next h l _ (wrote last after s g k) =
          wrote last after s
            (g
              ∙ ap (λ xs. xs ++ joined pieces) h
              ∙ append_assoc writer.hashed (b ∷ piece) (joined pieces))
            (k ∙ l)
      shifted next h l _ (broke e after c) = broke e after (subst (λ n. IsBounded n after) l c)

      by_write :
          ((next : LimitedWriter) (after : Disk)
            → IsWriting next after
            → WriteOutcome next (joined pieces) (copy_pieces temporary pieces breaks next after))
          → (r : Result LimitedWriter × Disk) → WriteOutcome writer (b ∷ piece) r
          → WriteOutcome writer
              ((b ∷ piece) ++ joined pieces)
              (((λ d. r) >>= copy_pieces temporary pieces breaks) disk)
      by_write ih _ (wrote next after s h l) = shifted next h l _ (ih next after s)
      by_write ih _ (broke e after c) = broke e after c

-- It succeeds only if the reader does not break off.
pub copy-whole :
    (temporary : String) (pieces : List Bytes) (breaks : Bool) (writer next : LimitedWriter)
    (disk after : Disk)
    → copy_pieces temporary pieces breaks writer disk ≡ (ok next, after)
    → breaks ≡ false
unfolding copy_pieces
copy-whole temporary [] true writer next disk after h = cc
copy-whole temporary [] false writer next disk after h = refl
copy-whole temporary ([] ∷ pieces) breaks writer next disk after h =
    copy-whole temporary pieces breaks writer next disk after h
copy-whole temporary ((b ∷ piece) ∷ pieces) breaks writer next disk after h =
    let w =
      bind-ok (write temporary (b ∷ piece) writer) (copy_pieces temporary pieces breaks) disk after
        next h in
    copy-whole temporary pieces breaks w.0 next w.1 after w.3
