-- ===== src/Documents/Filled.antt =====
-- What `Save` of internal/documents/storage.go makes of the temporary file.
use signal_ledger_project.Prelude.{
  ℕ, ◌≤◌, String, ◌≡◌, refl, sym, ap, ◌∙◌, subst, false, Option, List, [], ◌++◌, arith, length,
}
use signal_ledger_project.Store.Base.{Error, Result, ok, err, unavailable}
use signal_ledger_project.Documents.{
  Bytes, Files, Disk, Io, give, ◌>>=◌, ◌>>◌, os, os_check, drop_file, rename_file,
}
use signal_ledger_project.Documents.Storage.{
  key_of, StoredFile, Platform, FileStore, Source, LimitedWriter, write, copy_pieces, read_full,
  pdf_header, checked_header, lift, path_for, fill,
}
use signal_ledger_project.Documents.Files.{
  HasFile, HasFile-rename, OsOutcome, done, failed, os_outcome,
}
use signal_ledger_project.Documents.Writing.{
  joined, IsWriting, IsBounded, WriteOutcome, wrote, broke, write-outcome, copy-outcome, copy-whole,
}
use signal_ledger_project.Documents.Header.{read_full-joined, checked_header-ok}

-- A chain of calls on a file that is being written: it goes well, or leaves the file bounded.
module _ (temporary : String) (base : Files) (limit : ℕ) where
  pub data Outcome {A : Type 0} (Good : A → Disk → Type 0) : Result A × Disk → Type 0 where
    well : (a : A) (after : Disk) → Good a after → Outcome Good (ok a, after)
    ill :
        (e : Error) (after : Disk)
        → IsBounded temporary base limit after
        → Outcome Good (err e, after)

  module _ {A B : Type 0} {Good : A → Disk → Type 0} {Next : B → Disk → Type 0} where
    chain :
        (disk : Disk) (r : Result A × Disk) (f : A → Io B)
        → Outcome Good r
        → ((a : A) (between : Disk) → Good a between → Outcome Next (f a between))
        → Outcome Next (((λ d. r) >>= f) disk)
    chain disk _ f (well a after g) k = k a after g
    chain disk _ f (ill e after b) k = ill e after b

  chain_os :
      {Next : Unit {0} → Disk → Type 0} (change : Files → Files) (disk : Disk)
      → ((after : Disk) → after.files ≡ change disk.files → Next tt after)
      → ((after : Disk) → after.files ≡ disk.files → IsBounded temporary base limit after)
      → Outcome Next (os change disk)
  chain_os {Next = Next} change disk g b = by_os _ (os_outcome change disk)
    where
      by_os : (r : Result (Unit {0}) × Disk) → OsOutcome change disk r → Outcome Next r
      by_os _ (done after e) = well tt after (g after e)
      by_os _ (failed after e) = ill unavailable after (b after e)

module _ (platform : Platform) (store : FileStore) (temporary name : String) (source : Source) where
  -- A PDF within the limit is stored whole: what Save returns is its size, its hash and its key, and
  -- its bytes are in the file of the key. No other file has changed, and the temporary one is gone.
  pub record IsStored (limit : ℕ) (base : Files) (stored : StoredFile) (disk : Disk) : Type 0 where
    pub whole : source.breaks ≡ false
    pub rest : Bytes
    pub is_pdf : joined source.pieces ≡ pdf_header ++ rest
    pub size : stored.size_bytes ≡ length (joined source.pieces)
    pub within : length (joined source.pieces) ≤ limit
    pub hash : stored.sha256 ≡ platform.sha256_hex (joined source.pieces)
    pub key : stored.storage_key ≡ key_of platform name
    pub destination : String
    pub located : path_for platform store (key_of platform name) ≡ ok destination
    pub filed : HasFile destination (joined source.pieces) (drop_file temporary base) disk.files

  module _ (limit : ℕ) (base : Files) where
    Bounded : Disk → Type 0
    Bounded disk = IsBounded temporary base limit disk

    abbrev start : LimitedWriter
    start = record { limit = limit; size = 0; hashed = [] }

    -- The file has all the bytes of the reader.
    record IsFull (writer : LimitedWriter) (files : Files) : Type 0 where
      has_bytes : HasFile temporary (joined source.pieces) base files
      seen : writer.hashed ≡ joined source.pieces
      size : writer.size ≡ length (joined source.pieces)
      within : length (joined source.pieces) ≤ limit

    full-IsBounded :
        (writer : LimitedWriter) (disk : Disk)
        → IsFull writer disk.files
        → IsBounded temporary base limit disk
    full-IsBounded writer disk f = record {
      bytes = joined source.pieces;
      partial = f.has_bytes;
      bounded = f.within;
    }

    abbrev stored_of : LimitedWriter → StoredFile
    stored_of writer = record {
      storage_key = key_of platform name;
      sha256 = platform.sha256_hex writer.hashed;
      size_bytes = writer.size;
    }

    -- Of Save, the steps from the complete temporary file on.
    move_in : LimitedWriter → Io StoredFile
    move_in written = do
      os_check
      os_check
      destination ← lift (path_for platform store (key_of platform name))
      os_check
      os (rename_file temporary destination)
      give (stored_of written)

    check-Outcome :
        (writer : LimitedWriter) (disk : Disk)
        → IsFull writer disk.files
        → Outcome temporary base limit (λ u after. IsFull writer after.files) (os_check disk)
    check-Outcome writer disk f =
        chain_os temporary base limit (λ files. files) disk
          (λ after e. subst (IsFull writer) (sym e) f)
          (λ after e. full-IsBounded writer after (subst (IsFull writer) (sym e) f))

    locate-Outcome :
        (writer : LimitedWriter) (disk : Disk) (r : Result String)
        → path_for platform store (key_of platform name) ≡ r
        → IsFull writer disk.files
        → Outcome temporary base limit
            (λ destination after.
              IsFull writer after.files
              × (path_for platform store (key_of platform name) ≡ ok destination))
            (lift r disk)
    locate-Outcome writer disk (ok destination) e f = well destination disk (f, e)
    locate-Outcome writer disk (err x) e f = ill x disk (full-IsBounded writer disk f)

    rename-Outcome :
        (writer : LimitedWriter) (disk : Disk) (rest : Bytes) (destination : String)
        → IsFull writer disk.files
        → source.breaks ≡ false
        → joined source.pieces ≡ pdf_header ++ rest
        → path_for platform store (key_of platform name) ≡ ok destination
        → Outcome temporary base limit
            (λ u after. IsStored limit base (stored_of writer) after)
            (os (rename_file temporary destination) disk)
    rename-Outcome writer disk rest destination f w p l =
        chain_os temporary base limit (rename_file temporary destination) disk
          (λ after e. record {
            whole = w;
            rest = rest;
            is_pdf = p;
            size = f.size;
            within = f.within;
            hash = ap platform.sha256_hex f.seen;
            key = refl;
            destination = destination;
            located = l;
            filed =
                subst (HasFile destination (joined source.pieces) (drop_file temporary base))
                  (sym e)
                  (HasFile-rename temporary destination (joined source.pieces) base disk.files
                    f.has_bytes);
          })
          (λ after e. full-IsBounded writer after (subst (IsFull writer) (sym e) f))

    move_in-Outcome :
        (writer : LimitedWriter) (disk : Disk) (rest : Bytes)
        → IsFull writer disk.files
        → source.breaks ≡ false
        → joined source.pieces ≡ pdf_header ++ rest
        → Outcome temporary base limit (IsStored limit base) (move_in writer disk)
    unfolding move_in
    move_in-Outcome writer disk rest full w p =
        chain temporary base limit disk (os_check disk) _ (check-Outcome writer disk full)
          (λ u one f.
            chain temporary base limit one (os_check one) _ (check-Outcome writer one f) (λ v two g.
              chain temporary base limit two
                (lift (path_for platform store (key_of platform name)) two) _
                (locate-Outcome writer two (path_for platform store (key_of platform name)) refl g)
                (λ destination three l.
                  chain temporary base limit three (os_check three) _
                    (check-Outcome writer three l.0)
                    (λ x four k.
                      chain temporary base limit four (os (rename_file temporary destination) four)
                        _ (rename-Outcome writer four rest destination k w p l.1)
                        (λ y five stored. well (stored_of writer) five stored)))))

    -- Of a header that is that of a PDF, and of the rest.
    header-Outcome :
        (disk : Disk) (o : Option (Bytes × List Bytes)) (r : Result (Bytes × List Bytes))
        → checked_header o ≡ r
        → HasFile temporary [] base disk.files
        → Outcome temporary base limit
            (λ header after. HasFile temporary [] base after.files × (checked_header o ≡ ok header))
            (lift r disk)
    header-Outcome disk o (ok header) e h = well header disk (h, e)
    header-Outcome disk o (err x) e h =
        ill x disk (record { bytes = []; partial = h; bounded = omega arith })

    written-Outcome :
        (writer : LimitedWriter) (bytes : Bytes) (r : Result LimitedWriter × Disk)
        → writer.limit ≡ limit
        → WriteOutcome temporary base writer bytes r
        → Outcome temporary base limit
            (λ next after.
              IsWriting temporary base next after
              × (next.hashed ≡ writer.hashed ++ bytes)
              × (next.limit ≡ limit)
              × (r ≡ (ok next, after)))
            r
    written-Outcome writer bytes _ l (wrote next after s h k) = well next after (s, h, k ∙ l, refl)
    written-Outcome writer bytes _ l (broke e after b) =
        ill e after (subst (λ n. IsBounded temporary base n after) l b)

    pub fill-Outcome :
        (disk : Disk)
        → HasFile temporary [] base disk.files
        → Outcome temporary base limit
            (IsStored limit base)
            (fill platform store temporary name limit source disk)
    unfolding fill move_in
    fill-Outcome disk h =
        let read = read_full 5 [] source.pieces in
        chain temporary base limit disk (lift (checked_header read) disk) _
          (header-Outcome disk read (checked_header read) refl h)
          (λ header one g.
            let ready : IsWriting temporary base start one = record {
              written = g.0;
              counted = refl;
              within = omega arith;
            } in
            chain temporary base limit one (write temporary header.0 start one) _
              (written-Outcome start header.0 _ refl
                (write-outcome temporary base start one ready header.0))
              (λ first two k.
                chain temporary base limit two
                  (copy_pieces temporary header.1 source.breaks first two) _
                  (written-Outcome first (joined header.1) _ k.2
                    (copy-outcome temporary base header.1 source.breaks first two k.0))
                  (λ last three m.
                    let c = checked_header-ok read header.0 header.1 g.1 in
                    let all : last.hashed ≡ joined source.pieces =
                      m.1
                      ∙ ap (λ xs. xs ++ joined header.1) k.1
                      ∙ read_full-joined 5 [] source.pieces header.0 header.1 c.0 in
                    move_in-Outcome last three (joined header.1)
                      (record {
                        has_bytes =
                            subst (λ xs. HasFile temporary xs base three.files) all m.0.written;
                        seen = all;
                        size = m.0.counted ∙ ap length all;
                        within = omega (arith, m.0.within, m.2, m.0.counted, ap length all);
                      })
                      (copy-whole temporary header.1 source.breaks first last two three m.3)
                      (sym (read_full-joined 5 [] source.pieces header.0 header.1 c.0)
                        ∙ ap (λ xs. xs ++ joined header.1) c.1))))
