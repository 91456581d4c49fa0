-- ===== src/Runtime/Copy.antt =====
-- scripts/utmlib.py `copy_exclusive`, `prepared_disks` and `find_emulator`. The destination of a copy
-- is a directory, given by its files.
pub mod Result
use unixtime_machine.Prelude.{
  ℕ, Bool, true, false, not, List, [], ◌∷◌, Option, none, some, String, str_eq, if◌then◌else◌,
}
use unixtime_machine.Prelude.Dict.{Dict, put, contains}
use unixtime_machine.Errors.{
  Error, no_disk_set, permission_denied, file_not_found, file_exists, not_regular_file,
  existing_file, no_emulator_section, executable_not_absolute, executable_missing,
}
use unixtime_machine.Outcome.{Outcome, ok, raised, ◌>>=◌, ◌>>◌, refuse_if, require}
use unixtime_machine.Host.{GoldenFile, no_file, no_access, no_regular, no_read, readable, DiskFile}
use unixtime_machine.Manifest.{Disk, Manifest}

-- What `cp --reflink=always` comes to: a clone, a refusal, or a refusal that leaves an empty file.
pub data Cloning : Type 0 where
  cloned : Cloning
  refused : Cloning
  left_behind : Cloning

-- What the file system does to a copy: the clone, and an error of the full copy, if any.
pub record Medium : Type 0 where
  pub cloning : Cloning
  pub fault : Option Error
  pub mode : ℕ  -- that the copy has at first

abbrev pub is_nil : {A : Type 0} → List A → Bool
is_nil [] = true
is_nil (_ ∷ _) = false

-- `prepared_disks`
unfoldable pub prepared_disks : Manifest → Outcome (List Disk)
prepared_disks manifest = do
  disks ← require no_disk_set manifest.disks
  refuse_if (is_nil disks) no_disk_set
  ok disks

-- The digest of the source, or the error of `resolve(strict=True)` and `is_file()`.
abbrev pub regular_source : String → GoldenFile → Outcome (Option String)
regular_source name no_file = raised (file_not_found name)
regular_source name no_access = raised (permission_denied name)
regular_source name no_regular = raised (not_regular_file name)
regular_source name no_read = ok none
regular_source name (readable digest) = ok (some digest)

-- The full copy, which opens its source first and its destination with mode "xb"; an error removes
-- the destination.
abbrev pub full_copy_of : String → Medium → Option String → Outcome String
full_copy_of name medium none = raised (permission_denied name)
full_copy_of name medium (some digest) = elim medium.cloning [
  | left_behind ↦ raised (file_exists name)
  | cloned ↦ elim medium.fault [ none ↦ ok digest | some e ↦ raised e ]
  | refused ↦ elim medium.fault [ none ↦ ok digest | some e ↦ raised e ]
]

-- Without `--reflink` no clone is tried.
abbrev pub attempted : Bool → Medium → Medium
attempted reflink medium = if reflink then medium else record medium { cloning = refused }

abbrev pub is_clone : Medium → Option String → Option String
is_clone medium none = none
is_clone medium (some digest) = elim medium.cloning [
  | cloned ↦ some digest
  | refused ↦ none
  | left_behind ↦ none
]

-- The method and the copy's digest.
unfoldable pub copy_digest : String → Bool → Medium → GoldenFile → Outcome (String × String)
copy_digest name reflink medium source = do
  content ← regular_source name source
  elim (is_clone (attempted reflink medium) content) [
    | some digest ↦ ok ("reflink", digest)
    | none ↦ do
      digest ← full_copy_of name (attempted reflink medium) content
      ok ("full-copy", digest)
  ]

-- `copy_exclusive`: the method, and the directory with the copy in it.
unfoldable pub copy_exclusive :
    Bool → Medium → GoldenFile → String → Dict DiskFile → Outcome (String × Dict DiskFile)
unfolding copy_digest
copy_exclusive reflink medium source name directory = do
  content ← regular_source name source
  refuse_if (contains name directory) (existing_file name)
  (method, digest) ← copy_digest name reflink medium source
  ok (method, put name (record { digest = digest; mode = medium.mode }) directory)

abbrev pub is_absolute : String → Bool
is_absolute String.[] = false
is_absolute (String.◌∷◌ c s) = str_eq (String.◌∷◌ c String.[]) "/"

-- `find_emulator`; `executable` tells whether a path is a file that may be executed.
unfoldable pub find_emulator : (String → Bool) → Manifest → Outcome String
find_emulator executable manifest = do
  refuse_if (not manifest.has_emulator) no_emulator_section
  path ← require executable_not_absolute manifest.executable
  refuse_if (not (is_absolute path)) executable_not_absolute
  refuse_if (not (executable path)) (executable_missing path)
  ok path
