-- ===== src/Runtime/Golden.antt =====
-- scripts/utmlib.py: what `prepare_session` reads of a golden disk set, before it copies and after.
use unixtime_machine.Prelude.{Bool, true, false, List, [], ◌∷◌, String, if◌then◌else◌}
use unixtime_machine.Prelude.Dict.{Dict, put}
use unixtime_machine.Errors.{
  Error, permission_denied, file_not_found, is_a_directory, golden_inaccessible,
  is_permission_error,
}
use unixtime_machine.Outcome.{Outcome, ok, raised, ◌>>=◌}
use unixtime_machine.Host.{GoldenFile, no_file, no_access, no_regular, no_read, readable}
use unixtime_machine.Manifest.{Disk}

-- What `path.stat()` finds: whether the file is regular.
abbrev pub stat_regular : String → GoldenFile → Outcome Bool
stat_regular name no_file = raised (file_not_found name)
stat_regular name no_access = raised (permission_denied name)
stat_regular name no_regular = ok false
stat_regular name no_read = ok true
stat_regular name (readable digest) = ok true

-- `path.is_file()`, for which a missing file is no error
abbrev pub is_file : String → GoldenFile → Outcome Bool
is_file name no_file = ok false
is_file name no_access = raised (permission_denied name)
is_file name no_regular = ok false
is_file name no_read = ok true
is_file name (readable digest) = ok true

-- `sha256`
abbrev pub sha256 : String → GoldenFile → Outcome String
sha256 name no_file = raised (file_not_found name)
sha256 name no_access = raised (permission_denied name)
sha256 name no_regular = raised (is_a_directory name)
sha256 name no_read = raised (permission_denied name)
sha256 name (readable digest) = ok digest

abbrev add_missing : String → Bool → List String → List String
add_missing name true rest = rest
add_missing name false rest = name ∷ rest

-- A list of the files that a test does not find; the first error ends it.
unfoldable pub missing_by :
    (String → GoldenFile → Outcome Bool) → (String → GoldenFile) → List Disk → Outcome (List String)
missing_by test golden [] = ok []
missing_by test golden (disk ∷ disks) =
    test disk.golden_filename (golden disk.golden_filename) >>= λ found.
    missing_by test golden disks >>= λ rest. ok (add_missing disk.golden_filename found rest)

-- The two handlers of the first `try`.
abbrev pub stat_handler : (String → GoldenFile) → List Disk → Error → Outcome (List String)
stat_handler golden disks (file_not_found _) = missing_by is_file golden disks
stat_handler golden disks (permission_denied _) = raised golden_inaccessible
stat_handler golden disks e = raised e

abbrev pub handled : Outcome (List String) → (Error → Outcome (List String)) → Outcome (List String)
handled (ok missing) handler = ok missing
handled (raised e) handler = handler e

unfoldable pub missing_golden : (String → GoldenFile) → List Disk → Outcome (List String)
unfolding missing_by
missing_golden golden disks =
    handled (missing_by stat_regular golden disks) (stat_handler golden disks)

-- `{disk["id"]: sha256(path) for disk, path in goldens}`
unfoldable pub hash_set : (String → GoldenFile) → List Disk → Dict String → Outcome (Dict String)
hash_set golden [] hashes = ok hashes
hash_set golden (disk ∷ disks) hashes =
    sha256 disk.golden_filename (golden disk.golden_filename) >>= λ digest.
    hash_set golden disks (put disk.id digest hashes)

-- `except PermissionError`
abbrev pub or_permission : {A : Type 0} → Error → Outcome A → Outcome A
or_permission e (ok a) = ok a
or_permission e (raised x) = raised (if is_permission_error x then e else x)
