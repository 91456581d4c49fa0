-- ===== src/Runtime/Import.antt =====
-- scripts/utmlib.py `import_golden`: a staged disk set becomes the golden set of its system, in a
-- transaction.
pub mod Atomic
pub mod Kept
pub mod Filled
pub mod Installed
pub mod Loop
use Prim.Native.String.{◌++◌}
use unixtime_machine.Prelude.{
  ℕ, Bool, true, false, not, ◌&&◌, List, [], ◌∷◌, Option, none, some, String, or_else,
  if◌then◌else◌,
}
use unixtime_machine.Prelude.Dict.{Dict, lookup, put, without, contains}
use unixtime_machine.Errors.{
  Error, file_not_found, media_as_golden, source_not_directory, incomplete_staging,
  existing_golden_set, target_not_empty, stale_import, no_golden_group,
}
use unixtime_machine.Outcome.{Outcome, ok, raised, require}
use unixtime_machine.Exec.{
  Exec, Action, gets, lift, pure, raise, raise_if, rescue, or_raise, modify, ◌>>=◌, ◌>>◌,
}
use unixtime_machine.Ids.{safe_id}
use unixtime_machine.Host.{GoldenFile, DiskFile}
use unixtime_machine.Manifest.{Disk, ManifestFile, system_manifest}
use unixtime_machine.Runtime.Golden.{missing_by, is_file}
use unixtime_machine.Runtime.Copy.{Medium, prepared_disks, copy_exclusive, is_nil}

-- A directory below golden/.
pub record GoldenSet : Type 0 where
  pub files : Dict DiskFile
  pub metadata : Option (Dict (String × String))  -- `disks` of metadata.json: file name and SHA-256
  pub metadata_mode : Option ℕ
  pub mode : ℕ
  pub group : Option ℕ

-- golden/<system>, and the transactions' directories golden/.<system>.import-<pid>.
pub record Vault : Type 0 where
  pub sets : Dict GoldenSet
  pub staged : Dict GoldenSet

-- What `source` resolves to.
pub data Source : Type 0 where
  no_source : Source
  source_file : Source
  source_directory : (String → GoldenFile) → Source

-- What surrounds an import: the text of its process identifier, the source and whether it lies in the
-- media, the file system under each copy, the group, an error of `os.chown` and one of `os.replace`,
-- if any, and what `shutil.rmtree(…, ignore_errors=True)` leaves of a directory, `none` where it is
-- gone.
pub record Staging : Type 0 where
  pub pid : String
  pub source : Source
  pub is_media : Bool
  pub medium : String → Medium
  pub group : Option ℕ
  pub chown_fault : Option Error
  pub replace_fault : Option Error
  pub remains : GoldenSet → Option GoldenSet

-- `disk.get("source_filename", disk["golden_filename"])`, as a disk that is read under that name
abbrev pub staged_as : Disk → Disk
staged_as disk = record disk { golden_filename = or_else disk.source_filename disk.golden_filename }

abbrev pub staged_disks : List Disk → List Disk
staged_disks [] = []
staged_disks (disk ∷ disks) = staged_as disk ∷ staged_disks disks

-- `any(destination.iterdir())`
abbrev pub holds_anything : Option GoldenSet → Bool
holds_anything none = false
holds_anything (some set) = elim set.metadata [ none ↦ not (is_nil set.files) | some _ ↦ true ]

abbrev pub new_set : GoldenSet
new_set = record { files = []; metadata = none; metadata_mode = none; mode = 0o750; group = none }

unfoldable pub edit_set : String → (GoldenSet → GoldenSet) → Action Vault
unfolding modify
edit_set path change =
    modify
      λ v. record v { staged = put path (change (or_else (lookup path v.staged) new_set)) v.staged }

-- `set_golden_access`, before its effect: `os.chown` may raise.
abbrev pub chown : Staging → Outcome (Unit {0})
chown staging = elim staging.chown_fault [ none ↦ ok tt | some e ↦ raised e ]

-- `os.replace`, before its effect
abbrev pub replaceable : Staging → Outcome (Unit {0})
replaceable staging = elim staging.replace_fault [ none ↦ ok tt | some e ↦ raised e ]

abbrev pub files_in : String → Vault → Dict DiskFile
files_in path v = elim (lookup path v.staged) [ none ↦ [] | some set ↦ set.files ]

abbrev pub read_only : String → Dict DiskFile → Dict DiskFile
read_only name files = elim (lookup name files) [
  | none ↦ files
  | some file ↦ put name (record file { mode = 0o440 }) files
]

abbrev pub digest_in : String → Dict DiskFile → Outcome String
digest_in name files = elim (lookup name files) [
  | none ↦ raised (file_not_found name)
  | some file ↦ ok file.digest
]

-- The body of the loop: the method and the SHA-256 of one copy.
unfoldable pub import_disk :
    Staging → String → (String → GoldenFile) → Disk → Exec Vault (String × String)
unfolding ◌>>=◌ gets lift pure edit_set
import_disk staging path source disk = do
  let name = disk.golden_filename
  directory ← gets (files_in path)
  (method, files) ← lift (
      copy_exclusive true (staging.medium name)
        (source (or_else disk.source_filename disk.golden_filename)) name directory)
  edit_set path (λ s. record s { files = files })
  lift (chown staging)
  edit_set path (λ s. record s { files = read_only name s.files })
  copied ← gets (files_in path)
  digest ← lift (digest_in name copied)
  pure (method, digest)

unfoldable pub import_disks :
    Staging
    → String
    → (String → GoldenFile)
    → List Disk
    → Dict (String × String)
    → Exec Vault (List String × Dict (String × String))
unfolding ◌>>=◌ pure import_disk
import_disks staging path source [] hashes = pure ([], hashes)
import_disks staging path source (disk ∷ disks) hashes = do
  (method, digest) ← import_disk staging path source disk
  (methods, hashes) ←
      import_disks staging path source disks (put disk.id (disk.golden_filename, digest) hashes)
  pure (method ∷ methods, hashes)

-- `destination.rmdir()`, which wants the directory empty
abbrev pub remove_empty : String → Vault → Vault
remove_empty to v = record v { sets = without to v.sets }

-- `os.replace`
abbrev pub publish : String → String → Vault → Vault
publish from to v = elim (lookup from v.staged) [
  | none ↦ v
  | some set ↦ record v { staged = without from v.staged; sets = put to set v.sets }
]

unfoldable pub replace_set : Staging → String → String → Action Vault
unfolding ◌>>=◌ gets raise_if lift modify
replace_set staging from to = do
  old ← gets (λ v. lookup to v.sets)
  raise_if (holds_anything old) (target_not_empty to)
  modify (remove_empty to)
  lift (replaceable staging)
  modify (publish from to)

-- The body of the `try`.
unfoldable pub fill_import :
    Staging → String → String → (String → GoldenFile) → List Disk → Exec Vault (List String)
unfolding ◌>>=◌ or_raise lift pure edit_set import_disks replace_set
fill_import staging path system_id source disks = do
  group ← or_raise no_golden_group staging.group
  lift (chown staging)
  edit_set path (λ s. record s { mode = 0o750; group = some group })
  (methods, hashes) ← import_disks staging path source disks []
  edit_set path (λ s. record s { metadata = some hashes })
  lift (chown staging)
  edit_set path (λ s. record s { metadata_mode = some 0o440 })
  replace_set staging path system_id
  pure methods

-- `shutil.rmtree(transaction, ignore_errors=True)`, then `raise`
abbrev pub settle : String → Option GoldenSet → Dict GoldenSet → Dict GoldenSet
settle path none directories = without path directories
settle path (some rest) directories = put path rest directories

abbrev pub remove_staged : (GoldenSet → Option GoldenSet) → String → Vault → Vault
remove_staged remains path v = elim (lookup path v.staged) [
  | none ↦ v
  | some set ↦ record v { staged = settle path (remains set) v.staged }
]

unfoldable pub discard_import : Staging → String → Error → Exec Vault (List String)
unfolding ◌>>=◌ modify raise
discard_import staging path e = do modify (remove_staged staging.remains path); raise e

abbrev pub directory_of : Source → Outcome (String → GoldenFile)
directory_of no_source = raised source_not_directory
directory_of source_file = raised source_not_directory
directory_of (source_directory files) = ok files

abbrev pub resolved : Source → Outcome (Unit {0})
resolved no_source = raised (file_not_found "source")
resolved source_file = ok tt
resolved (source_directory files) = ok tt

-- From the transaction's directory on.
unfoldable pub import_in :
    Staging → String → String → (String → GoldenFile) → List Disk → Exec Vault (List String)
unfolding ◌>>=◌ gets raise_if rescue edit_set fill_import discard_import
import_in staging path system_id source disks = do
  stale ← gets (λ v. contains path v.staged)
  raise_if stale (stale_import path)
  edit_set path (λ s. new_set)
  rescue (fill_import staging path system_id source disks) (discard_import staging path)

abbrev pub import_path : String → String → String
import_path system_id pid = "golden/." ++ system_id ++ ".import-" ++ pid

-- `import_golden`: the methods
unfoldable pub import_golden : (String → ManifestFile) → Staging → String → Exec Vault (List String)
unfolding ◌>>=◌ gets lift raise_if safe_id system_manifest prepared_disks missing_by import_in
import_golden manifests staging system_id = do
  lift (safe_id "system id" system_id)
  manifest ← lift (system_manifest manifests system_id)
  lift (resolved staging.source)
  raise_if staging.is_media media_as_golden
  source ← lift (directory_of staging.source)
  disks ← lift (prepared_disks manifest)
  missing ← lift (missing_by is_file source (staged_disks disks))
  raise_if (not (is_nil missing)) (incomplete_staging missing)
  old ← gets (λ v. lookup system_id v.sets)
  raise_if (holds_anything old) (existing_golden_set system_id)
  import_in staging (import_path system_id staging.pid) system_id source disks
