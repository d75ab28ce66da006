-- ===== src/MarketData/Files.antt =====
-- `SnapshotStore` of internal/marketdata/storage.go, and `ArtifactStore` of internal/backtests/storage.go,
-- which is the same code for another folder. The disk is that of Documents.
use Prim.Native.String.{◌++◌ as append}
use text.Mathlib.Text.{starts_with}
use signal_ledger_project.Prelude.{
  String, ◌≡◌, sym, ap, ◌∙◌, subst, ◌||◌, Option, none, some, [], ◌==◌, if◌then◌else◌,
}
use signal_ledger_project.Store.Base.{Result, ok, err, unavailable, invalid_input, ok-injective}
use signal_ledger_project.Documents.{
  Bytes, Files, Disk, Io, give, ◌>>=◌, ◌>>◌, os, os_check, drop_file, put_file, append_to,
  rename_file,
}
use signal_ledger_project.Documents.Storage.{Platform, lift}
use signal_ledger_project.Documents.Files.{
  HasFile, HasFile-put, HasFile-append, HasFile-rename, OsOutcome, done, failed, os_outcome,
  bind-ok,
}

abbrev removed_unless : String → Result (Unit {0}) × Disk → Result (Unit {0}) × Disk
removed_unless temporary (ok u, disk) = (ok u, disk)
removed_unless temporary (err e, disk) = (err e, (os (drop_file temporary) disk).1)

-- A call behind whose failure the temporary file is removed.
abbrev pub or_removed : String → Io (Unit {0}) → Io (Unit {0})
or_removed temporary m disk = removed_unless temporary (m disk)

module _ (platform : Platform) (root : String) where
  abbrev below : Option String → String → Result String
  below none key = err unavailable
  below (some root) key = ok (platform.join root key)

  -- pathFor
  unfoldable pub path_below : String → Result String
  path_below key =
      let clean_key = platform.clean key in
      if clean_key == "." || platform.is_abs clean_key || starts_with clean_key ".."
      then err invalid_input
      else below (platform.absolute root) clean_key

  abbrev pub key_in : String → String → String
  key_in folder name = platform.join folder (append name ".csv")

  -- The steps of Save from the temporary file on.
  unfoldable pub place : String → String → Bytes → Io (Unit {0})
  place temporary path content = do
    os (put_file temporary [])
    or_removed temporary (os (append_to temporary content))
    or_removed temporary os_check
    or_removed temporary (os (rename_file temporary path))

  unfoldable pub save_in : String → String → String → Bytes → Io String
  save_in folder temporary name content = do
    os_check
    path ← lift (path_below (key_in folder name))
    os_check
    place temporary path content
    give (key_in folder name)

  -- Save of a SnapshotStore.
  unfoldable pub save_snapshot : String → String → Bytes → Io String
  save_snapshot = save_in "market-data"

  -- Save of an ArtifactStore.
  unfoldable pub save_artifact : String → String → Bytes → Io String
  save_artifact = save_in "backtests"

os-ok :
    (change : Files → Files) (disk after : Disk)
    → os change disk ≡ (ok tt, after)
    → after.files ≡ change disk.files
os-ok change disk after h = by_outcome _ (os_outcome change disk) h
  where
    by_outcome :
        (r : Result (Unit {0}) × Disk)
        → OsOutcome change disk r
        → r ≡ (ok tt, after)
        → after.files ≡ change disk.files
    by_outcome _ (done d e) k = ap (λ v. v.1.files) (sym k) ∙ e
    by_outcome _ (failed d e) k = cc

or_removed-ok :
    (temporary : String) (m : Io (Unit {0})) (disk after : Disk)
    → or_removed temporary m disk ≡ (ok tt, after)
    → m disk ≡ (ok tt, after)
or_removed-ok temporary m disk after h = by_result (m disk) h
  where
    by_result :
        (r : Result (Unit {0}) × Disk)
        → removed_unless temporary r ≡ (ok tt, after)
        → r ≡ (ok tt, after)
    by_result (ok u, d) k = k
    by_result (err e, d) k = cc

module _ (platform : Platform) (root : String) where
  place-ok :
      (temporary path : String) (content : Bytes) (disk after : Disk)
      → place platform root temporary path content disk ≡ (ok tt, after)
      → HasFile path content (drop_file temporary disk.files) after.files
  unfolding place
  place-ok temporary path content disk after h =
      let a = bind-ok (os (put_file temporary [])) _ disk after tt h in
      let b =
        bind-ok (or_removed temporary (os (append_to temporary content))) _ a.1 after tt a.3 in
      let c = bind-ok (or_removed temporary os_check) _ b.1 after tt b.3 in
      let put : a.1.files ≡ put_file temporary [] disk.files = os-ok _ disk a.1 a.2 in
      let wrote : b.1.files ≡ append_to temporary content a.1.files =
        os-ok (append_to temporary content) a.1 b.1
          (or_removed-ok temporary (os (append_to temporary content)) a.1 b.1 b.2) in
      let kept : c.1.files ≡ b.1.files =
        os-ok (λ files. files) b.1 c.1 (or_removed-ok temporary os_check b.1 c.1 c.2) in
      let moved : after.files ≡ rename_file temporary path c.1.files =
        os-ok (rename_file temporary path) c.1 after
          (or_removed-ok temporary (os (rename_file temporary path)) c.1 after c.3) in
      let full : HasFile temporary content disk.files c.1.files =
        subst (HasFile temporary content disk.files)
          (sym (kept ∙ wrote ∙ ap (append_to temporary content) put))
          (HasFile-append temporary [] content disk.files _
            (HasFile-put temporary [] disk.files)) in
      subst (HasFile path content (drop_file temporary disk.files)) (sym moved)
        (HasFile-rename temporary path content disk.files c.1.files full)

  -- What a Save that succeeds returns is the key of a file with this content, and but for it and the
  -- temporary one no file has changed.
  pub save_in-ok :
      (folder temporary name : String) (content : Bytes) (disk after : Disk) (key : String)
      → save_in platform root folder temporary name content disk ≡ (ok key, after)
      → (path : String) × (key ≡ key_in platform root folder name)
        × (path_below platform root key ≡ ok path)
        × HasFile path content (drop_file temporary disk.files) after.files
  unfolding save_in
  save_in-ok folder temporary name content disk after key h =
      let a = bind-ok os_check _ disk after key h in
      let b =
        bind-ok (lift (path_below platform root (key_in platform root folder name))) _ a.1 after key
          a.3 in
      let c = bind-ok os_check _ b.1 after key b.3 in
      let d = bind-ok (place platform root temporary b.0 content) _ c.1 after key c.3 in
      let same : key_in platform root folder name ≡ key = ok-injective _ _ (ap (λ v. v.0) d.3) in
      let files : c.1.files ≡ disk.files =
        os-ok (λ files. files) b.1 c.1 c.2
        ∙ ap (λ v. v.1.files) (sym b.2)
        ∙ os-ok (λ files. files) disk a.1 a.2 in
      (
        b.0,
        sym same,
        ap (path_below platform root) (sym same) ∙ ap (λ v. v.0) b.2,
        subst (λ fs. HasFile b.0 content (drop_file temporary fs) after.files) files
            (subst (λ d'. HasFile b.0 content (drop_file temporary c.1.files) d'.files)
              (ap (λ v. v.1) d.3) (place-ok temporary b.0 content c.1 d.1 d.2)),
      )
