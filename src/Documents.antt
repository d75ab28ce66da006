-- ===== src/Documents.antt =====
-- internal/documents: uploaded files and their documents. A disk is the list of its files, each
-- with its path and its bytes; every call of the operating system may fail, which a schedule of
-- faults decides, and then changes no file.
pub mod Storage
pub mod Files
pub mod Writing
pub mod Header
pub mod Filled
pub mod Saved
pub mod Complete
pub mod Upload
pub mod Backed
use signal_ledger_project.Prelude.{
  ℕ, String, Bool, true, false, not, Option, none, some, List, [], ◌∷◌, ◌++◌, ◌==◌, keep,
  if◌then◌else◌,
}
use signal_ledger_project.Store.Base.{Error, Result, ok, err, unavailable}

abbrev pub Bytes : Type 0
Bytes = List ℕ

abbrev pub Files : Type 0
Files = List (String × Bytes)

pub record Disk : Type 0 where
  pub files : Files
  pub faults : List Bool

abbrev pub Io : Type 0 → Type 0
Io A = Disk → Result A × Disk

abbrev pub give : {A : Type 0} → A → Io A
give a disk = (ok a, disk)

abbrev pub fail : {A : Type 0} → Error → Io A
fail e disk = (err e, disk)

abbrev and_then : {A B : Type 0} → Result A × Disk → (A → Io B) → Result B × Disk
and_then (ok a, disk) f = f a disk
and_then (err e, disk) f = (err e, disk)

infixl 5 ◌>>=◌ ◌>>◌
abbrev pub ◌>>=◌ : {A B : Type 0} → Io A → (A → Io B) → Io B
m >>= f = λ disk. and_then (m disk) f

abbrev pub ◌>>◌ : {B : Type 0} → Io (Unit {0}) → Io B → Io B
m >> k = m >>= λ _. k

-- A call of the operating system that changes the files in this way, unless it fails.
abbrev os_by : List Bool → (Files → Files) → Files → Result (Unit {0}) × Disk
os_by [] change files = (ok tt, record { files = change files; faults = [] })
os_by (true ∷ faults) change files = (err unavailable, record { files = files; faults = faults })
os_by (false ∷ faults) change files = (ok tt, record { files = change files; faults = faults })

abbrev pub os : (Files → Files) → Io (Unit {0})
os change disk = os_by disk.faults change disk.files

-- A call that changes no file whose content matters here.
abbrev pub os_check : Io (Unit {0})
os_check = os (λ files. files)

unfoldable pub drop_file : String → Files → Files
drop_file path files = keep (λ file. not (file.0 == path)) files

unfoldable pub content_at : String → Files → Option Bytes
content_at path [] = none
content_at path (file ∷ files) = if path == file.0 then some file.1 else content_at path files

abbrev pub or_nothing : Option Bytes → Bytes
or_nothing none = []
or_nothing (some bytes) = bytes

unfoldable pub put_file : String → Bytes → Files → Files
put_file path bytes files = (path, bytes) ∷ drop_file path files

-- Bytes at the end of a file.
unfoldable pub append_to : String → Bytes → Files → Files
append_to path bytes files = put_file path (or_nothing (content_at path files) ++ bytes) files

unfoldable pub rename_file : String → String → Files → Files
rename_file from to files = put_file to (or_nothing (content_at from files)) (drop_file from files)
