-- ===== src/Broker/Release.antt =====
-- `Broker.release`: the reset, the comparison with the golden disks, and the removal.
pub mod History
pub mod Evidence
pub mod Steps
pub mod Writes
use unixtime_machine.Prelude.{
  Bool, true, false, ◌&&◌, ◌||◌, not, List, [], ◌∷◌, ◌++◌, Option, none, some, String, str_eq,
  is_some, if◌then◌else◌,
}
use unixtime_machine.Prelude.Dict.{Dict, lookup, put, without}
use unixtime_machine.Errors.{
  Error, emulator_may_run, release_needs_stopped, golden_unverified, golden_changed, reset_failed,
  missing_key,
}
use unixtime_machine.Exec.{
  Exec, Action, gets, lift, pure, raise, raise_if, or_raise, choose, when, modify, ◌>>=◌, ◌>>◌,
}
use unixtime_machine.Outcome.{Outcome, ok, raised, require}
use unixtime_machine.Models.{SessionState, SessionRecord, resetting, released, failed, same_state}
use unixtime_machine.Host.{golden_hash, Host, Workspace, process_matches, flag, message}
use unixtime_machine.Store.{transition}
use unixtime_machine.Manifest.{Disk, Manifest, system_manifest}
use unixtime_machine.Backend.{Site}
use unixtime_machine.Broker.Base.{get}

-- The hashes of the golden disks, by disk; `none` where one cannot be read.
hash_all : (String → Option String) → List Disk → Option (Dict String)
hash_all hash [] = some []
hash_all hash (disk ∷ disks) = elim (hash disk.golden_filename) [
  | none ↦ none
  | some digest ↦ elim (hash_all hash disks) [
    | none ↦ none
    | some rest ↦ some (put disk.id digest rest)
  ]
]

has_entry : Dict String → String × String → Bool
unfolding lookup
has_entry d (key, value) = elim (lookup key d) [ none ↦ false | some v ↦ str_eq v value ]

all_entries : Dict String → Dict String → Bool
unfolding has_entry
all_entries [] d = true
all_entries (e ∷ es) d = has_entry d e && all_entries es d

-- Python's equality of dicts
unfoldable pub same_dict : Dict String → Dict String → Bool
unfolding all_entries
same_dict a b = all_entries a b && all_entries b a

is_empty : Dict String → Bool
is_empty [] = true
is_empty (_ ∷ _) = false

-- The end of a `release` that finds a fault: the session is FAILED and its workspace stays.
preserve : SessionRecord → Error → Exec Host SessionRecord
unfolding ◌>>=◌ transition raise
preserve r e = do
  transition (record r { failure = some e }) failed "failure" (("reason", message e) ∷ [])
  raise e

-- `workspace and workspace.exists()`
abbrev found_at : Option String → Host → Option (String × Workspace)
found_at none h = none
found_at (some path) h = elim (lookup path h.workspaces) [ none ↦ none | some w ↦ some (path, w) ]

-- `shutil.rmtree`, if it succeeds; a removal that raises is taken to remove nothing
abbrev remove_tree : String → Host → Host
remove_tree path h = record h { workspaces = without path h.workspaces }

finish : SessionRecord → Exec Host SessionRecord
unfolding transition
finish r = transition r released "release" []

delete_workspace : SessionRecord → Option (String × Workspace) → Exec Host SessionRecord
unfolding ◌>>=◌ modify finish preserve
delete_workspace r none = finish r
delete_workspace r (some (path, w)) =
    if w.removable then (modify (remove_tree path) >> finish r) else preserve r reset_failed

-- The comparison with the hashes taken when the session was prepared.
compare_golden : SessionRecord → Option (Dict String) → Exec Host SessionRecord
unfolding ◌>>=◌ gets preserve same_dict is_empty delete_workspace
compare_golden r none = preserve r golden_unverified
compare_golden r (some actual) =
    if not (is_empty r.golden_sha256) && not (same_dict actual r.golden_sha256)
    then preserve r golden_changed
    else (do found ← gets (found_at r.workspace); delete_workspace r found)

-- A FAILED session is reset first, unless its emulator may still run.
unfoldable pub enter_reset : SessionRecord → Exec Host SessionRecord
unfolding ◌>>=◌ gets raise_if transition pure process_matches
enter_reset r =
    if same_state r.state failed
    then (do
      running ← gets (λ h. process_matches h r.emulator_pid r.emulator_start_ticks)
      raise_if running emulator_may_run
      transition r resetting "reset" (("operator_release_after_failure", flag true) ∷ []))
    else (do raise_if (not (same_state r.state resetting)) release_needs_stopped; pure r)

-- `manifest["prepared"]["disks"]`
disks_of : Site → String → Outcome (List Disk)
disks_of site system_id = elim (system_manifest site.manifests system_id) [
  | ok manifest ↦ require (missing_key "prepared") manifest.disks
  | raised e ↦ raised e
]

unfoldable pub reset_and_delete : Site → SessionRecord → Exec Host SessionRecord
unfolding ◌>>=◌ lift gets enter_reset compare_golden disks_of hash_all
reset_and_delete site r = do
  reset ← enter_reset r
  disks ← lift (disks_of site reset.system_id)
  actual ← gets (λ h. hash_all (golden_hash h reset.system_id) disks)
  compare_golden reset actual

-- `Broker.release`
unfoldable pub release : Site → String → Exec Host SessionRecord
unfolding ◌>>=◌ get pure choose reset_and_delete
release site session_id = do
  r ← get session_id
  choose (same_state r.state released) (pure r) (reset_and_delete site r)
