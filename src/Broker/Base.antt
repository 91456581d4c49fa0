-- ===== src/Broker/Base.antt =====
-- What the operations of `Broker` share: paths, `get`, `list`, and the rounds of a wait.
use Prim.Native.String.{◌++◌}
use unixtime_machine.Prelude.{true, List, [], ◌∷◌, Option, none, some, String, or_else}
use unixtime_machine.Prelude.Int.{ℤ}
use unixtime_machine.Prelude.Dict.{lookup, put}
use unixtime_machine.Errors.{unknown_session, is_file_not_found}
use unixtime_machine.Exec.{Exec, Action, lift, raise, rescue, choose, modify, ◌>>=◌, ◌>>◌}
use unixtime_machine.Models.{SessionRecord}
use unixtime_machine.Host.{Host, Workspace, Launch, StopRequest}
use unixtime_machine.Store.{load, all}
use unixtime_machine.Exec.Frame.{Within, Within-lift}
use unixtime_machine.Store.Filed.{Lawful, history, IsDerived}
use unixtime_machine.Store.Sound.{
  Sound, Always, Sound-bind, Within-Sound, Sound-rescue, Sound-load, Sound-or, Sound-raise,
}
use unixtime_machine.Store.Kept.{store_rules}
use unixtime_machine.Ids.{safe_id}

-- `self.root / "sessions" / system_id / session_id`
abbrev pub workspace_path : String → String → String
workspace_path system_id session_id = "sessions/" ++ system_id ++ "/" ++ session_id

abbrev pub socket_path : String → String
socket_path session_id = "state/broker/" ++ session_id ++ ".sock"

abbrev pub transcript_path : String → String
transcript_path session_id = "logs/sessions/" ++ session_id ++ "/console.log"

-- `Broker.get`
unfoldable pub get : String → Exec Host SessionRecord
unfolding ◌>>=◌ lift rescue choose raise
get session_id = do
  lift (safe_id "session id" session_id)
  rescue (load session_id)
      (λ e. choose (is_file_not_found e) (raise (unknown_session session_id)) (raise e))

-- `Broker.list`
unfoldable pub list : Exec Host (List SessionRecord)
list = all true

-- One round of a wait, before its deadline: what the other processes do while the caller sleeps,
-- and whether the child has exited when the caller looks.
pub record Round : Type 0 where
  pub others : Host → Host
  pub exited : Option ℤ

abbrev pub new_workspace : Workspace
new_workspace = record {
  launch = none;
  stop = none;
  disks = [];
  metadata = none;
  config = none;
  removable = true;
}

-- Files of a session directory; writing one creates the directory if it is missing.
unfoldable pub write_launch : String → Launch → Action Host
unfolding modify
write_launch path launch = modify λ h.
    let old = or_else (lookup path h.workspaces) new_workspace in
    record h { workspaces = put path (record old { launch = some launch }) h.workspaces }

unfoldable pub write_stop : String → StopRequest → Action Host
unfolding modify
write_stop path request = modify λ h.
    let old = or_else (lookup path h.workspaces) new_workspace in
    record h { workspaces = put path (record old { stop = some request }) h.workspaces }

-- What the other processes do during the wait is lawful.
abbrev pub AllLawful : List Round → Type 0
AllLawful [] = Unit
AllLawful (round ∷ rounds) = ((h : Host) → Lawful h (round.others h)) × AllLawful rounds

pub get-history : (id : String) → Within history (get id)
unfolding get
get-history id = search store_rules

-- `get` returns what the file holds.
pub get-Sound : (id : String) → Sound Always (get id) IsDerived
unfolding get
get-Sound id =
    Sound-bind (lift (safe_id "session id" id)) _
      (Within-Sound _ (Within-lift (safe_id "session id" id)))
      λ _. Sound-rescue (load id) _ (Sound-load id) λ e.
        Sound-or (is_file_not_found e) (raise (unknown_session id)) (raise e)
          (Sound-raise (unknown_session id)) (Sound-raise e)
