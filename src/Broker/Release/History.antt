-- ===== src/Broker/Release/History.antt =====
-- The state files under `release` of broker/manager.py.
use unixtime_machine.Prelude.{
  refl, true, not, [], ◌∷◌, Option, none, some, String, Bool-cases, inl, inr, ◌&&◌,
}
use unixtime_machine.Prelude.Dict.{Dict}
use unixtime_machine.Errors.{
  Error, emulator_may_run, release_needs_stopped, golden_changed, golden_unverified, reset_failed,
}
use unixtime_machine.Exec.{modify, raise_if, gets, lift, pure}
use unixtime_machine.Exec.Frame.{Within}
use unixtime_machine.Models.{SessionRecord, same_state, released, failed, resetting}
use unixtime_machine.Host.{golden_hash, Workspace, flag, message, process_matches}
use unixtime_machine.Store.{transition}
use unixtime_machine.Store.Filed.{history, IsDerived}
use unixtime_machine.Store.Sound.{
  Sound, Sound-Within, Sound-bind, Sound-pure, Sound-raise, Sound-raise_if, Sound-transition,
  Sound-weaken, Sound-or, relabel, Sound-keep, Sound-read, Sound-lift,
}
use unixtime_machine.Backend.{Site}
use unixtime_machine.Broker.Base.{get, get-Sound}
use unixtime_machine.Broker.Release.{
  release, reset_and_delete, enter_reset, compare_golden, delete_workspace, finish, preserve,
  remove_tree, found_at, hash_all, disks_of, is_empty, same_dict,
}

preserve-Sound : (r : SessionRecord) (e : Error) → Sound (IsDerived r) (preserve r e) IsDerived
unfolding preserve
preserve-Sound r e =
    Sound-bind
      (transition (record r { failure = some e }) failed "failure" (("reason", message e) ∷ [])) _
      (Sound-weaken _ (relabel r (record r { failure = some e }) refl refl refl) (
        Sound-transition (record r { failure = some e }) failed "failure"
          (("reason", message e) ∷ [])))
      λ _. Sound-raise e

finish-Sound : (r : SessionRecord) → Sound (IsDerived r) (finish r) IsDerived
unfolding finish
finish-Sound r = Sound-transition r released "release" []

delete_workspace-Sound :
    (r : SessionRecord) (found : Option (String × Workspace))
    → Sound (IsDerived r) (delete_workspace r found) IsDerived
unfolding delete_workspace
delete_workspace-Sound r none = finish-Sound r
delete_workspace-Sound r (some (path, w)) = elim (Bool-cases w.removable) [
  | inl e ↦ rw e (
      Sound-bind (modify (remove_tree path)) _
        (Sound-keep r (remove_tree path) (λ h. refl) (λ h. refl)) (λ _. finish-Sound r))
  | inr e ↦ rw e (preserve-Sound r reset_failed)
]

compare_golden-Sound :
    (r : SessionRecord) (actual : Option (Dict String))
    → Sound (IsDerived r) (compare_golden r actual) IsDerived
unfolding compare_golden
compare_golden-Sound r none = preserve-Sound r golden_unverified
compare_golden-Sound r (some actual) =
    elim (Bool-cases (not (is_empty r.golden_sha256) && not (same_dict actual r.golden_sha256))) [
      | inl e ↦ rw e (preserve-Sound r golden_changed)
      | inr e ↦ rw e (
          Sound-bind (gets (found_at r.workspace)) _ (Sound-read r (found_at r.workspace))
            (λ found. delete_workspace-Sound r found))
    ]

enter_reset-Sound : (r : SessionRecord) → Sound (IsDerived r) (enter_reset r) IsDerived
unfolding enter_reset
enter_reset-Sound r = elim (Bool-cases (same_state r.state failed)) [
  | inl e ↦ rw e (
      Sound-bind (gets _) _
        (Sound-read r (λ h. process_matches h r.emulator_pid r.emulator_start_ticks))
        λ running.
          Sound-bind (raise_if running emulator_may_run) _ (Sound-raise_if running emulator_may_run)
            λ _.
              Sound-transition r resetting "reset"
                (("operator_release_after_failure", flag true) ∷ []))
  | inr e ↦ rw e (
      Sound-bind (raise_if (not (same_state r.state resetting)) release_needs_stopped) _
        (Sound-raise_if (not (same_state r.state resetting)) release_needs_stopped)
        λ _. Sound-pure r (λ h d. d))
]

reset_and_delete-Sound :
    (site : Site) (r : SessionRecord) → Sound (IsDerived r) (reset_and_delete site r) IsDerived
unfolding reset_and_delete
reset_and_delete-Sound site r = Sound-bind (enter_reset r) _ (enter_reset-Sound r) λ reset.
    Sound-bind (lift (disks_of site reset.system_id)) _
      (Sound-lift reset (disks_of site reset.system_id))
      λ disks.
        Sound-bind (gets _) _
          (Sound-read reset (λ h. hash_all (golden_hash h reset.system_id) disks))
          λ actual. compare_golden-Sound reset actual

-- `release` is lawful: a session becomes `released` from `resetting` only, and a fault sends it
-- back to `failed`.
pub release-history : (site : Site) (id : String) → Within history (release site id)
unfolding release
release-history site id = Sound-Within _ (
    Sound-bind (get id) _ (get-Sound id) λ r.
      Sound-or (same_state r.state released) (pure r) (reset_and_delete site r)
        (Sound-pure r (λ h d. d)) (reset_and_delete-Sound site r))
