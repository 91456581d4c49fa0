-- ===== src/Runtime/Session/History.antt =====
-- The state files under `prepare_session` of scripts/utmlib.py.
use unixtime_machine.Prelude.{◌≡◌, refl, Bool, List, [], ◌∷◌, String, Option, none, some}
use unixtime_machine.Prelude.Dict.{Dict, lookup}
use unixtime_machine.Errors.{Error, stale_transaction}
use unixtime_machine.Exec.{Exec, modify}
use unixtime_machine.Exec.Frame.{
  Within, Within-bind, Within-pure, Within-raise, Within-gets, Within-raise_if, Within-rescue,
}
use unixtime_machine.Host.{Host, Workspace}
use unixtime_machine.Manifest.{Disk, ManifestFile}
use unixtime_machine.Store.Filed.{history, Lawful}
use unixtime_machine.Store.Kept.{store_rules, others-history, modify-history}
use unixtime_machine.Broker.Base.{new_workspace}
use unixtime_machine.Runtime.Session.{
  Surroundings, edit, copy_disk, copy_disks, copy_and_hash, became_unreadable, move,
  remove_directory, replace_directory, fill_transaction, discard_transaction, with_transaction,
  prepare_disks, prepare_session,
}

-- The other processes keep the state files in order.
pub record IsFair (around : Surroundings) : Type 0 where
  pub before : (id : String) (h : Host) → Lawful h (around.before_copy id h)
  pub after : (h : Host) → Lawful h (around.after_copies h)

edit-history : (path : String) (change : Workspace → Workspace) → Within history (edit path change)
unfolding edit
edit-history path change = modify-history _ (λ h. refl) (λ h. refl)

moved_files :
    (from to : String) (h : Host) (w : Option Workspace)
    → lookup from h.transactions ≡ w
    → (move from to h).files ≡ h.files
moved_files from to h none e = rw (e, move)
moved_files from to h (some w) e = rw (e, move)

moved_audits :
    (from to : String) (h : Host) (w : Option Workspace)
    → lookup from h.transactions ≡ w
    → (move from to h).audits ≡ h.audits
moved_audits from to h none e = rw (e, move)
moved_audits from to h (some w) e = rw (e, move)

move-history : (from to : String) → Within history (modify (move from to))
move-history from to =
    modify-history _ (λ h. moved_files from to h _ refl) (λ h. moved_audits from to h _ refl)

replace_directory-history : (from to : String) → Within history (replace_directory from to)
unfolding replace_directory
replace_directory-history from to = search (store_rules, move-history) depth 9

module _ (around : Surroundings) (fair : IsFair around) where
  before_copy-history : (id : String) → Within history (modify (around.before_copy id))
  before_copy-history id = others-history _ (fair.before id)

  after_copies-history : Within history (modify around.after_copies)
  after_copies-history = others-history _ fair.after

  copy_disk-history :
      (path system_id : String) (full_copy : Bool) (disk : Disk)
      → Within history (copy_disk around path system_id full_copy disk)
  unfolding copy_disk
  copy_disk-history path system_id full_copy disk =
      search (store_rules, before_copy-history, edit-history) depth 9

  copy_disks-history :
      (path system_id : String) (full_copy : Bool) (disks : List Disk)
      → Within history (copy_disks around path system_id full_copy disks)
  unfolding copy_disks
  copy_disks-history path system_id full_copy [] = Within-pure []
  copy_disks-history path system_id full_copy (disk ∷ disks) =
      Within-bind _ _ (copy_disk-history path system_id full_copy disk) λ method.
        Within-bind _ _ (copy_disks-history path system_id full_copy disks)
          λ methods. Within-pure (method ∷ methods)

  copy_and_hash-history :
      (path system_id : String) (full_copy : Bool) (disks : List Disk)
      → Within history (copy_and_hash around path system_id full_copy disks)
  unfolding copy_and_hash
  copy_and_hash-history path system_id full_copy disks =
      search (store_rules, copy_disks-history, after_copies-history) depth 9

  became_unreadable-history : (e : Error) → Within history (became_unreadable e)
  unfolding became_unreadable
  became_unreadable-history e = search store_rules

  fill_transaction-history :
      (path system_id session_id : String) (full_copy : Bool) (disks : List Disk)
      (before : Dict String)
      → Within history (fill_transaction around path system_id session_id full_copy disks before)
  unfolding fill_transaction
  fill_transaction-history path system_id session_id full_copy disks before =
      search
        (
          store_rules, copy_and_hash-history, became_unreadable-history, edit-history,
          replace_directory-history,
        )
        depth 12

files-remove_directory :
    (remains : Workspace → Option Workspace) (path : String) (h : Host) (own : Option Workspace)
    → lookup path h.transactions ≡ own
    → (remove_directory remains path h).files ≡ h.files
files-remove_directory remains path h none e = rw (remove_directory, e) refl
files-remove_directory remains path h (some w) e = rw (remove_directory, e) refl

audits-remove_directory :
    (remains : Workspace → Option Workspace) (path : String) (h : Host) (own : Option Workspace)
    → lookup path h.transactions ≡ own
    → (remove_directory remains path h).audits ≡ h.audits
audits-remove_directory remains path h none e = rw (remove_directory, e) refl
audits-remove_directory remains path h (some w) e = rw (remove_directory, e) refl

discard_transaction-history :
    (around : Surroundings) (path : String) (e : Error)
    → Within history (discard_transaction around path e)
unfolding discard_transaction
discard_transaction-history around path e =
    Within-bind _ _
      (modify-history _ (λ h. files-remove_directory around.remains path h _ refl)
        (λ h. audits-remove_directory around.remains path h _ refl))
      (λ _. Within-raise e)

with_transaction-history :
    (around : Surroundings) (path : String) (body : Exec Host (List String))
    → Within history body
    → Within history (with_transaction around path body)
unfolding with_transaction
with_transaction-history around path body kept = Within-bind _ _ (Within-gets _) λ stale.
    Within-bind _ _ (Within-raise_if stale (stale_transaction path)) λ _.
      Within-bind _ _ (edit-history path λ w. new_workspace) λ _.
        Within-rescue body (discard_transaction around path) kept
          (discard_transaction-history around path)

prepare_disks-history :
    (around : Surroundings) (fair : IsFair around) (system_id session_id : String)
    (full_copy : Bool) (disks : List Disk)
    → Within history (prepare_disks around system_id session_id full_copy disks)
unfolding prepare_disks
prepare_disks-history around fair system_id session_id full_copy disks =
    search (store_rules, with_transaction-history, fill_transaction-history around fair) depth 16

pub prepare_session-history :
    (manifests : String → ManifestFile) (around : Surroundings) (fair : IsFair around)
    (system_id session_id : String)
    → Within history (prepare_session manifests around system_id session_id)
unfolding prepare_session
prepare_session-history manifests around fair system_id session_id =
    search (store_rules, prepare_disks-history around fair) depth 12
