-- ===== src/Documents/Storage.antt =====
-- `FileStore` of internal/documents/storage.go.
use Prim.Native.String.{◌++◌ as append}
use text.Mathlib.Text.{starts_with}
use signal_ledger_project.Prelude.{
  ℕ, zero, suc, ◌+◌, ◌-◌, String, Bool, true, false, ◌||◌, ◌&&◌, Option, none, some, List, [], ◌∷◌,
  ◌++◌, ◌==◌, ltb, eqb, length, if◌then◌else◌,
}
use signal_ledger_project.Prelude.Int.{ℤ, pos, pos_part, leb_ℤ}
use signal_ledger_project.Store.Base.{
  Result, ok, err, invalid_input, unavailable, too_large, not_a_pdf,
}
use signal_ledger_project.Documents.{
  Bytes, Disk, Io, give, fail, ◌>>=◌, ◌>>◌, os, os_check, drop_file, put_file, append_to,
  rename_file,
}

pub record StoredFile : Type 0 where
  pub storage_key : String
  pub sha256 : String
  pub size_bytes : ℕ

-- `path/filepath`, the hash, and the random source, on a system whose separator is `/`.
pub record Platform : Type 0 where
  pub clean : String → String
  pub is_abs : String → Bool
  pub absolute : String → Option String
  pub join : String → String → String
  pub relative : String → String → Option String
  pub sha256_hex : Bytes → String

pub record FileStore : Type 0 where
  pub root : String
  pub max_bytes : ℤ

-- A reader: the pieces that its reads return, and whether it breaks off after them.
pub record Source : Type 0 where
  pub pieces : List Bytes
  pub breaks : Bool

-- limitedWriter, with the bytes that the hash has seen.
pub record LimitedWriter : Type 0 where
  pub limit : ℕ
  pub size : ℕ
  pub hashed : Bytes

abbrev pub first_bytes : ℕ → Bytes → Bytes
first_bytes n [] = []
first_bytes zero (b ∷ bytes) = []
first_bytes (suc n) (b ∷ bytes) = b ∷ first_bytes n bytes

module _ (temporary : String) where
  -- A write to the temporary file and the hash.
  unfoldable pub write_all : Bytes → LimitedWriter → Io LimitedWriter
  write_all bytes writer =
      os (append_to temporary bytes)
      >> give (record writer { size = writer.size + length bytes; hashed = writer.hashed ++ bytes })

  -- A write of what still fits.
  abbrev pub cut : Bytes → LimitedWriter → Io LimitedWriter
  cut bytes writer = write_all bytes writer >>= λ _. fail too_large

  -- limitedWriter.Write
  unfoldable pub write : Bytes → LimitedWriter → Io LimitedWriter
  write bytes writer =
      let remaining = writer.limit - writer.size in
      if ltb writer.limit (writer.size + length bytes)
      then (if ltb 0 remaining then cut (first_bytes remaining bytes) writer else fail too_large)
      else write_all bytes writer

  -- io.Copy
  unfoldable pub copy_pieces : List Bytes → Bool → LimitedWriter → Io LimitedWriter
  copy_pieces [] breaks writer = if breaks then fail unavailable else give writer
  copy_pieces ([] ∷ pieces) breaks writer = copy_pieces pieces breaks writer
  copy_pieces ((b ∷ piece) ∷ pieces) breaks writer =
      write (b ∷ piece) writer >>= copy_pieces pieces breaks

abbrev pub behind : ℕ → Option (Bytes × List Bytes) → Option (Bytes × List Bytes)
behind b none = none
behind b (some (bytes, rest)) = some (b ∷ bytes, rest)

-- io.ReadFull: this many bytes off the pieces, and what is left of them.
unfoldable pub read_full : ℕ → Bytes → List Bytes → Option (Bytes × List Bytes)
read_full zero piece pieces = some ([], piece ∷ pieces)
read_full (suc n) [] [] = none
read_full (suc n) [] (piece ∷ pieces) = read_full (suc n) piece pieces
read_full (suc n) (b ∷ piece) pieces = behind b (read_full n piece pieces)

-- %PDF-
abbrev pub pdf_header : Bytes
pdf_header = 37 ∷ 80 ∷ 68 ∷ 70 ∷ 45 ∷ []

-- bytes.Equal
unfoldable pub same_bytes : Bytes → Bytes → Bool
same_bytes [] [] = true
same_bytes [] (y ∷ ys) = false
same_bytes (x ∷ xs) [] = false
same_bytes (x ∷ xs) (y ∷ ys) = eqb x y && same_bytes xs ys

-- The header of the file, if it is that of a PDF, and the pieces behind it.
abbrev pub checked_header : Option (Bytes × List Bytes) → Result (Bytes × List Bytes)
checked_header none = err not_a_pdf
checked_header (some (header, pieces)) =
    if same_bytes header pdf_header then ok (header, pieces) else err not_a_pdf

abbrev pub lift : {A : Type 0} → Result A → Io A
lift r disk = (r, disk)

-- What a path must not be to stay inside: the parent, or below it.
abbrev pub goes_up : String → Bool
goes_up path = path == ".." || starts_with path "../"

-- The storage key for a random name.
abbrev pub key_of : Platform → String → String
key_of platform name = platform.join "documents" (append name ".pdf")

module _ (platform : Platform) (store : FileStore) where
  abbrev joined : String → Option String → Option (String × String)
  joined key none = none
  joined key (some root) = elim (platform.absolute (platform.join root key)) [
    | none ↦ none
    | some path ↦ some (root, path)
  ]

  abbrev inside : Option (String × String) → Result String
  inside none = err unavailable
  inside (some (root, path)) = elim (platform.relative root path) [
    | none ↦ err invalid_input
    | some relative ↦ if goes_up relative then err invalid_input else ok path
  ]

  -- pathFor; `FromSlash` changes nothing here.
  unfoldable pub path_for : String → Result String
  path_for key =
      let clean_key = platform.clean key in
      if clean_key == "." || platform.is_abs clean_key || goes_up clean_key
      then err invalid_input
      else inside (joined clean_key (platform.absolute store.root))

  -- Save, from the temporary file on; `name` is the random name.
  unfoldable pub fill : String → String → ℕ → Source → Io StoredFile
  fill temporary name limit source = do
    header ← lift (checked_header (read_full 5 [] source.pieces))
    writer ← write temporary header.0 (record { limit = limit; size = 0; hashed = [] })
    written ← copy_pieces temporary header.1 source.breaks writer
    os_check
    os_check
    let key = key_of platform name
    destination ← lift (path_for key)
    os_check
    os (rename_file temporary destination)
    give (record {
      storage_key = key;
      sha256 = platform.sha256_hex written.hashed;
      size_bytes = written.size;
    })

  -- The deferred removal of the temporary file.
  abbrev pub cleaned : String → Result StoredFile × Disk → Result StoredFile × Disk
  cleaned temporary (ok stored, disk) = (ok stored, disk)
  cleaned temporary (err e, disk) = (err e, (os (drop_file temporary) disk).1)

  abbrev pub save_within : String → String → Source → ℕ → Io StoredFile
  save_within temporary name source limit = do
    os_check
    os (put_file temporary [])
    λ disk. cleaned temporary (fill temporary name limit source disk)

  -- Save; `temporary` is the path of the temporary file.
  unfoldable pub save : String → String → Source → Io StoredFile
  save temporary name source =
      if leb_ℤ store.max_bytes (pos 0)
      then fail invalid_input
      else save_within temporary name source (pos_part store.max_bytes)

  -- Delete; that there is no such file is no error.
  unfoldable pub delete : String → Io (Unit {0})
  delete key = lift (path_for key) >>= λ path. os (drop_file path)
