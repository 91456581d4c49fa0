-- ===== src/Runtime/Session.antt =====
-- scripts/utmlib.py `prepare_session`: the private copy of a golden disk set, made in a transaction.
pub mod Atomic
pub mod Complete
pub mod Made
pub mod Copies
pub mod History
use Prim.Native.String.{◌++◌}
use unixtime_machine.Prelude.{
  ℕ, Bool, true, false, not, ◌&&◌, List, [], ◌∷◌, Option, none, some, String, or_else,
  if◌then◌else◌,
}
use unixtime_machine.Prelude.Dict.{Dict, lookup, put, without, contains}
use unixtime_machine.Errors.{
  Error, is_permission_error, incomplete_golden, golden_unreadable, golden_became_unreadable,
  existing_session, stale_transaction, golden_changed_in_copy, target_not_empty,
  is_permission_error,
}
use unixtime_machine.Outcome.{Outcome}
use unixtime_machine.Exec.{
  Exec, Action, gets, lift, pure, raise, raise_if, rescue, choose, modify, ◌>>=◌, ◌>>◌,
}
use unixtime_machine.Ids.{safe_id}
use unixtime_machine.Host.{Host, Workspace, Metadata, GoldenFile, DiskFile}
use unixtime_machine.Manifest.{Disk, Manifest, ManifestFile, system_manifest}
use unixtime_machine.Broker.Base.{workspace_path, new_workspace}
use unixtime_machine.Broker.Release.{same_dict}
use unixtime_machine.Runtime.Golden.{missing_golden, hash_set, or_permission}
use unixtime_machine.Runtime.Copy.{Medium, prepared_disks, copy_exclusive, is_nil}

-- What surrounds a preparation: the text of its process identifier, the file system under each copy,
-- by its name, what other processes do before each copy and after the last, and what
-- `shutil.rmtree(…, ignore_errors=True)` leaves of a directory, `none` where it is gone.
pub record Surroundings : Type 0 where
  pub pid : String
  pub medium : String → Medium
  pub before_copy : String → Host → Host
  pub after_copies : Host → Host
  pub remains : Workspace → Option Workspace

abbrev pub transaction_path : String → String → String → String
transaction_path system_id session_id pid =
    "sessions/" ++ system_id ++ "/." ++ session_id ++ ".prepare-" ++ pid

-- A change of the transaction's directory.
unfoldable pub edit : String → (Workspace → Workspace) → Action Host
unfolding modify
edit path change = modify λ h. record h {
  transactions =
      put path (change (or_else (lookup path h.transactions) new_workspace)) h.transactions;
}

abbrev pub directory_at : String → Host → Dict DiskFile
directory_at path h = elim (lookup path h.transactions) [ none ↦ [] | some w ↦ w.disks ]

abbrev pub set_mode : Dict DiskFile → String → Dict DiskFile
set_mode disks name = elim (lookup name disks) [
  | none ↦ disks
  | some file ↦ put name (record file { mode = 0o640 }) disks
]

-- One copy, with `destination.chmod(0o640)`; its method comes back.
unfoldable pub copy_disk : Surroundings → String → String → Bool → Disk → Exec Host String
unfolding ◌>>=◌ gets lift modify pure edit copy_exclusive
copy_disk around path system_id full_copy disk = do
  modify (around.before_copy disk.id)
  source ← gets (λ h. h.golden system_id disk.golden_filename)
  directory ← gets (directory_at path)
  (method, disks) ← lift (
      copy_exclusive (not full_copy) (around.medium disk.session_filename) source
        disk.session_filename directory)
  edit path (λ w. record w { disks = set_mode disks disk.session_filename })
  pure method

unfoldable pub copy_disks :
    Surroundings → String → String → Bool → List Disk → Exec Host (List String)
unfolding ◌>>=◌ pure copy_disk
copy_disks around path system_id full_copy [] = pure []
copy_disks around path system_id full_copy (disk ∷ disks) = do
  method ← copy_disk around path system_id full_copy disk
  methods ← copy_disks around path system_id full_copy disks
  pure (method ∷ methods)

-- The inner `try`: the copies, and the hashes after them.
unfoldable pub copy_and_hash :
    Surroundings → String → String → Bool → List Disk → Exec Host (List String × Dict String)
unfolding ◌>>=◌ gets lift modify pure copy_disks hash_set
copy_and_hash around path system_id full_copy disks = do
  methods ← copy_disks around path system_id full_copy disks
  modify around.after_copies
  golden ← gets (λ h. h.golden system_id)
  after ← lift (hash_set golden disks [])
  pure (methods, after)

-- `except PermissionError`
unfoldable pub became_unreadable : Error → Exec Host (List String × Dict String)
unfolding raise
became_unreadable e = raise (if is_permission_error e then golden_became_unreadable else e)

-- `os.replace(transaction, workspace)`; a session directory that another process has made meanwhile
-- is not empty, so that the replacement raises.
abbrev pub move : String → String → Host → Host
move from to h = elim (lookup from h.transactions) [
  | none ↦ h
  | some w ↦ record h {
    transactions = without from h.transactions;
    workspaces = put to w h.workspaces;
  }
]

unfoldable pub replace_directory : String → String → Action Host
unfolding ◌>>=◌ gets raise_if modify
replace_directory from to = do
  occupied ← gets (λ h. contains to h.workspaces)
  raise_if occupied (target_not_empty to)
  modify (move from to)

-- The body of the outer `try`.
unfoldable pub fill_transaction :
    Surroundings
    → String
    → String
    → String
    → Bool
    → List Disk
    → Dict String
    → Exec Host (List String)
unfolding ◌>>=◌ rescue raise_if pure copy_and_hash became_unreadable edit replace_directory
fill_transaction around path system_id session_id full_copy disks before = do
  (methods, after) ← rescue (copy_and_hash around path system_id full_copy disks) became_unreadable
  raise_if (not (same_dict before after)) golden_changed_in_copy
  edit path (λ w. record w {
    metadata = some (record {
      copy_methods = methods;
      golden_sha256 = before;
      session_id = session_id;
      system_id = system_id;
    });
  })
  replace_directory path (workspace_path system_id session_id)
  pure methods

-- `shutil.rmtree(transaction, ignore_errors=True)`, then `raise`
abbrev pub settle : String → Option Workspace → Dict Workspace → Dict Workspace
settle path none directories = without path directories
settle path (some rest) directories = put path rest directories

abbrev pub remove_directory : (Workspace → Option Workspace) → String → Host → Host
remove_directory remains path h = elim (lookup path h.transactions) [
  | none ↦ h
  | some w ↦ record h { transactions = settle path (remains w) h.transactions }
]

unfoldable pub discard_transaction : Surroundings → String → Error → Exec Host (List String)
unfolding ◌>>=◌ modify raise
discard_transaction around path e = do modify (remove_directory around.remains path); raise e

-- The transaction: its directory is made, filled, and discarded where that fails.
unfoldable pub with_transaction :
    Surroundings → String → Exec Host (List String) → Exec Host (List String)
unfolding ◌>>=◌ gets raise_if rescue edit discard_transaction
with_transaction around path body = do
  stale ← gets (λ h. contains path h.transactions)
  raise_if stale (stale_transaction path)
  edit path (λ w. new_workspace)
  rescue body (discard_transaction around path)

-- From the manifest on: the checks, the transaction, and the workspace with the methods.
unfoldable pub prepare_disks :
    Surroundings → String → String → Bool → List Disk → Exec Host (String × List String)
unfolding ◌>>=◌ gets lift raise_if pure with_transaction fill_transaction missing_golden hash_set
prepare_disks around system_id session_id full_copy disks = do
  let workspace = workspace_path system_id session_id
  let path = transaction_path system_id session_id around.pid
  golden ← gets (λ h. h.golden system_id)
  missing ← lift (missing_golden golden disks)
  raise_if (not (is_nil missing)) (incomplete_golden missing)
  before ← lift (or_permission golden_unreadable (hash_set golden disks []))
  occupied ← gets (λ h. contains workspace h.workspaces)
  raise_if occupied (existing_session workspace)
  methods ←
      with_transaction around path
        (fill_transaction around path system_id session_id full_copy disks before)
  pure (workspace, methods)

-- `prepare_session`
unfoldable pub prepare_session :
    (String → ManifestFile) → Surroundings → String → String → Exec Host (String × List String)
unfolding ◌>>=◌ lift safe_id system_manifest prepared_disks prepare_disks
prepare_session manifests around system_id session_id = do
  lift (safe_id "system id" system_id)
  manifest ← lift (system_manifest manifests system_id)
  lift (safe_id "session id" session_id)
  disks ← lift (prepared_disks manifest)
  prepare_disks around system_id session_id manifest.full_copy disks
