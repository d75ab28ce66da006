-- ===== src/Documents/Complete.antt =====
-- `Save` of internal/documents/storage.go succeeds where it can.
use signal_ledger_project.Prelude.{
  ℕ, zero, suc, ◌+◌, ◌≤◌, String, ◌≡◌, refl, ap, ◌∙◌, subst, true, false, none, some, List, [], ◌∷◌,
  ◌++◌, arith, length, length-append, ltb,
}
use signal_ledger_project.Prelude.Int.{pos, pos_part, leb_ℤ}
use signal_ledger_project.Store.Base.{Result, ok, ok-injective}
use signal_ledger_project.Documents.{
  Bytes, Files, Disk, append_to, content_at, put_file, rename_file,
}
use signal_ledger_project.Documents.Storage.{
  StoredFile, Platform, FileStore, Source, LimitedWriter, write_all, write, copy_pieces, behind,
  read_full, pdf_header, same_bytes, key_of, path_for, fill, save,
}
use signal_ledger_project.Documents.Writing.{joined}
use signal_ledger_project.Documents.Header.{read_full-joined}
use signal_ledger_project.Documents.Filled.{IsStored}
use signal_ledger_project.Documents.Saved.{SaveOutcome, saved, refused, save-outcome}

-- A disk on which no call fails any more.
abbrev pub calm : Files → Disk
calm files = record { files = files; faults = [] }

read_full-enough :
    (n : ℕ) (piece : Bytes) (pieces : List Bytes)
    → n ≤ length (piece ++ joined pieces)
    → (header : Bytes) × (rest : List Bytes) × (read_full n piece pieces ≡ some (header, rest))
      × (length header ≡ n)
unfolding read_full joined
read_full-enough zero piece pieces h = ([], piece ∷ pieces, refl, refl)
read_full-enough (suc n) [] [] h = absurd (omega arith)
read_full-enough (suc n) [] (piece ∷ pieces) h = read_full-enough (suc n) piece pieces h
read_full-enough (suc n) (b ∷ piece) pieces h =
    let k = read_full-enough n piece pieces (omega arith) in
    (b ∷ k.0, k.1, ap (behind b) k.2, omega (arith, k.3))

same_prefix :
    (xs ys us vs : Bytes) → length xs ≡ length ys → xs ++ us ≡ ys ++ vs → (xs ≡ ys) × (us ≡ vs)
same_prefix [] [] us vs l h = (refl, h)
same_prefix [] (y ∷ ys) us vs l h = absurd (omega arith)
same_prefix (x ∷ xs) [] us vs l h = absurd (omega arith)
same_prefix (x ∷ xs) (y ∷ ys) us vs l h =
    let heads : x ≡ y = cc in
    let tails : xs ++ us ≡ ys ++ vs = cc in
    let ih = same_prefix xs ys us vs (omega arith) tails in
    (ap (λ z. z ∷ xs) heads ∙ ap (λ zs. y ∷ zs) ih.0, ih.1)

same_bytes_refl : (xs : Bytes) → same_bytes xs xs ≡ true
unfolding same_bytes
same_bytes_refl [] = refl
same_bytes_refl (x ∷ xs) = ground (arith, same_bytes_refl xs)

module _ (temporary : String) where
  abbrev after_write : Bytes → LimitedWriter → LimitedWriter
  after_write bytes writer = record writer {
    size = writer.size + length bytes;
    hashed = writer.hashed ++ bytes;
  }

  write-calm :
      (bytes : Bytes) (writer : LimitedWriter) (files : Files)
      → writer.size + length bytes ≤ writer.limit
      → write temporary bytes writer (calm files)
        ≡ (ok (after_write bytes writer), calm (append_to temporary bytes files))
  unfolding write write_all
  write-calm bytes writer files h =
      let fits : ltb writer.limit (writer.size + length bytes) ≡ false = ground arith in
      rw fits refl

  copy-calm :
      (pieces : List Bytes) (writer : LimitedWriter) (files : Files)
      → writer.size + length (joined pieces) ≤ writer.limit
      → (next : LimitedWriter) × (after : Files) × (copy_pieces temporary pieces false writer
            (calm files)
          ≡ (ok next, calm after))
  unfolding copy_pieces joined
  copy-calm [] writer files h = (writer, files, refl)
  copy-calm ([] ∷ pieces) writer files h = copy-calm pieces writer files h
  copy-calm ((b ∷ piece) ∷ pieces) writer files h =
      let k =
        copy-calm pieces (after_write (b ∷ piece) writer) (append_to temporary (b ∷ piece) files)
          (omega (arith, length-append (b ∷ piece) (joined pieces))) in
      (
        k.0,
        k.1,
        rw
            (write-calm (b ∷ piece) writer files
              (omega (arith, length-append (b ∷ piece) (joined pieces))))
            k.2,
      )

module _ (platform : Platform) (store : FileStore) (temporary name : String) (source : Source) where
  -- By the header that is read, and the pieces behind it.
  fill-read :
      (limit : ℕ) (files : Files) (header : Bytes) (pieces : List Bytes) (destination : String)
      → source.breaks ≡ false
      → read_full 5 [] source.pieces ≡ some (header, pieces)
      → header ≡ pdf_header
      → length header + length (joined pieces) ≤ limit
      → path_for platform store (key_of platform name) ≡ ok destination
      → (stored : StoredFile) × (after : Files) × (fill platform store temporary name limit source
            (calm files)
          ≡ (ok stored, calm after))
  unfolding fill
  fill-read limit files header pieces destination w r e l d =
      let start : LimitedWriter = record { limit = limit; size = 0; hashed = [] } in
      let same : same_bytes header pdf_header ≡ true =
        ap (λ h. same_bytes h pdf_header) e ∙ same_bytes_refl pdf_header in
      let k =
        copy-calm temporary pieces (after_write temporary header start)
          (append_to temporary header files) (omega (arith, l)) in
      (
        record {
          storage_key = key_of platform name;
          sha256 = platform.sha256_hex k.0.hashed;
          size_bytes = k.0.size;
        },
        rename_file temporary destination k.1,
        rw (r, same, write-calm temporary header start files (omega (arith, l)), w, k.2, d) refl,
      )

  fill-calm :
      (limit : ℕ) (files : Files) (rest : Bytes) (destination : String)
      → source.breaks ≡ false
      → joined source.pieces ≡ pdf_header ++ rest
      → length (joined source.pieces) ≤ limit
      → path_for platform store (key_of platform name) ≡ ok destination
      → (stored : StoredFile) × (after : Files) × (fill platform store temporary name limit source
            (calm files)
          ≡ (ok stored, calm after))
  fill-calm limit files rest destination w p l d =
      let r =
        read_full-enough 5 [] source.pieces
          (omega (arith, ap length p, length-append pdf_header rest)) in
      let all = read_full-joined 5 [] source.pieces r.0 r.1 r.2 in
      fill-read limit files r.0 r.1 destination w r.2
        (same_prefix r.0 pdf_header (joined r.1) rest r.3 (all ∙ p)).0
        (omega (arith, ap length all, length-append r.0 (joined r.1), l)) d

  -- Where no call of the operating system fails, Save succeeds for every reader that ends and gives
  -- a PDF within the limit, if the key of the random name has a path. What it leaves is as
  -- `save-outcome` says of a success.
  pub save-succeeds :
      (files : Files) (rest : Bytes) (destination : String)
      → content_at temporary files ≡ none
      → source.breaks ≡ false
      → joined source.pieces ≡ pdf_header ++ rest
      → length (joined source.pieces) ≤ pos_part store.max_bytes
      → path_for platform store (key_of platform name) ≡ ok destination
      → (stored : StoredFile) × (after : Files) × (save platform store temporary name source
            (calm files)
          ≡ (ok stored, calm after))
        × IsStored platform store temporary name source
            (pos_part store.max_bytes)
            files
            stored
            (calm after)
  save-succeeds files rest destination n w p l d =
      let k =
        fill-calm (pos_part store.max_bytes) (put_file temporary [] files) rest destination w p l
          d in
      let some_bytes : leb_ℤ store.max_bytes (pos 0) ≡ false =
        ground (arith, l, ap length p, length-append pdf_header rest) in
      let done : save platform store temporary name source (calm files) ≡ (ok k.0, calm k.1) =
        unfold save in rw (some_bytes, k.2) refl in
      (
        k.0,
        k.1,
        done,
        stored_by _ (save-outcome platform store temporary name source (calm files) n) done,
      )
    where
      stored_by :
          {stored : StoredFile} {after : Files} (r : Result StoredFile × Disk)
          → SaveOutcome platform store temporary name source (pos_part store.max_bytes) files r
          → r ≡ (ok stored, calm after)
          → IsStored platform store temporary name source
              (pos_part store.max_bytes)
              files
              stored
              (calm after)
      stored_by {stored} {after} _ (saved s disk i) e =
          let a : s ≡ stored = ok-injective _ _ (ap (λ v. v.0) e) in
          let b : disk ≡ calm after = ap (λ v. v.1) e in
          subst
            (IsStored platform store temporary name source (pos_part store.max_bytes) files stored)
            b
            (subst
              (λ t.
                IsStored platform store temporary name source (pos_part store.max_bytes) files t
                  disk)
              a i)
      stored_by _ (refused x disk i) e = cc
