-- ===== src/Documents/Files.antt =====
-- What the calls of the operating system make of the files.
use signal_ledger_project.Prelude.{
  String, ◌≡◌, ◌≢◌, refl, sym, ap, ◌∙◌, Bool, true, false, none, some, List, [], ◌∷◌, ◌++◌, ◌==◌,
  eq_iff, eq_refl, arith, keep, if◌then◌else◌,
}
use signal_ledger_project.Store.Base.{Result, ok, err, unavailable}
use signal_ledger_project.Documents.{
  Bytes, Files, Disk, Io, ◌>>=◌, os, drop_file, content_at, or_nothing, put_file, append_to,
  rename_file,
}

pub differ : (s t : String) → s ≢ t → (s == t) ≡ false
differ s t h = ground (arith, (eq_iff s t).0)

pub if_other : {A : Type 0} (q p : String) (x y : A) → q ≢ p → (if q == p then x else y) ≡ y
if_other q p x y n = rw (differ q p n) refl

pub content_at-drop_file :
    (q p : String) (files : Files)
    → content_at q (drop_file p files) ≡ (if q == p then none else content_at q files)
unfolding content_at drop_file keep
content_at-drop_file q p [] = ground arith
content_at-drop_file q p (file ∷ files) =
    ground (arith, content_at-drop_file q p files, eq_iff q p, eq_iff file.0 p, eq_iff q file.0)

content_at-put_file :
    (q p : String) (bytes : Bytes) (files : Files)
    → content_at q (put_file p bytes files) ≡ (if q == p then some bytes else content_at q files)
unfolding content_at put_file
content_at-put_file q p bytes files = ground (arith, content_at-drop_file q p files)

-- The files are those of `base`, but for one with this content.
unfoldable pub HasFile : String → Bytes → Files → Files → Type 0
HasFile p bytes base files =
    (q : String) → content_at q files ≡ (if q == p then some bytes else content_at q base)

pub HasFile-put :
    (p : String) (bytes : Bytes) (base : Files) → HasFile p bytes base (put_file p bytes base)
unfolding HasFile
HasFile-put p bytes base q = content_at-put_file q p bytes base

pub HasFile-append :
    (p : String) (bytes more : Bytes) (base files : Files)
    → HasFile p bytes base files
    → HasFile p (bytes ++ more) base (append_to p more files)
unfolding HasFile append_to
HasFile-append p bytes more base files h q =
    let here : content_at p files ≡ some bytes = h p ∙ rw (eq_refl p) refl in
    content_at-put_file q p _ files
    ∙ ap (λ o. if q == p then some (or_nothing o ++ more) else content_at q files) here
    ∙ ground (arith, h q)

-- Without the file, the files are those of `base` without it.
pub HasFile-drop :
    (p : String) (bytes : Bytes) (base files : Files)
    → HasFile p bytes base files
    → (q : String) → content_at q (drop_file p files) ≡ content_at q (drop_file p base)
unfolding HasFile
HasFile-drop p bytes base files h q =
    content_at-drop_file q p files ∙ ground (arith, h q) ∙ sym (content_at-drop_file q p base)

-- A file under another name.
pub HasFile-rename :
    (from to : String) (bytes : Bytes) (base files : Files)
    → HasFile from bytes base files
    → HasFile to bytes (drop_file from base) (rename_file from to files)
unfolding HasFile rename_file
HasFile-rename from to bytes base files h q =
    let here : content_at from files ≡ some bytes = h from ∙ rw (eq_refl from) refl in
    content_at-put_file q to _ (drop_file from files)
    ∙ ap (λ o. if q == to then some (or_nothing o) else content_at q (drop_file from files)) here
    ∙ ap (λ o. if q == to then some bytes else o) (HasFile-drop from bytes base files h q)

-- A call succeeds and changes the files, or fails and changes none; without a fault to come it succeeds.
module _ (change : Files → Files) where
  pub data OsOutcome (disk : Disk) : Result (Unit {0}) × Disk → Type 0 where
    done : (after : Disk) → after.files ≡ change disk.files → OsOutcome disk (ok tt, after)
    failed : (after : Disk) → after.files ≡ disk.files → OsOutcome disk (err unavailable, after)

  pub os_outcome : (disk : Disk) → OsOutcome disk (os change disk)
  os_outcome disk = by_faults disk.faults
    where
      by_faults :
          (faults : List Bool)
          → OsOutcome
              (record { files = disk.files; faults = faults })
              (os change (record { files = disk.files; faults = faults }))
      by_faults [] = done _ refl
      by_faults (true ∷ faults) = failed _ refl
      by_faults (false ∷ faults) = done _ refl

module _ {A B : Type 0} where
  pub bind-ok :
      (m : Io A) (f : A → Io B) (disk after : Disk) (b : B)
      → (m >>= f) disk ≡ (ok b, after)
      → (a : A) × (between : Disk) × (m disk ≡ (ok a, between)) × (f a between ≡ (ok b, after))
  bind-ok m f disk after b h = by_result (m disk) h
    where
      by_result :
          (r : Result A × Disk)
          → ((λ d. r) >>= f) disk ≡ (ok b, after)
          → (a : A) × (between : Disk) × (r ≡ (ok a, between)) × (f a between ≡ (ok b, after))
      by_result (ok a, between) e = (a, between, refl, e)
      by_result (err x, between) e = cc
