-- ===== src/Models/Records.antt =====
-- `SessionRecord`, and the in-memory `Session` of broker/session.py.
use unixtime_machine.Prelude.{ℕ, List, [], Option, none, String, if◌then◌else◌}
use unixtime_machine.Prelude.Int.{ℤ}
use unixtime_machine.Prelude.Dict.{Dict}
use unixtime_machine.Errors.{Error, invalid_transition}
use unixtime_machine.Exec.{Outcome, ok, raised}
use unixtime_machine.Models.States.{SessionState, requested, value, allowed}

-- Times are milliseconds; a time that is empty or `None` is `none`. A failure text is the error
-- whose message it is.
pub record SessionRecord : Type 0 where
  pub session_id : String
  pub system_id : String
  pub state : SessionState
  pub created_at : Option ℕ
  pub updated_at : Option ℕ
  pub supervisor_pid : Option ℕ
  pub supervisor_start_ticks : Option ℕ
  pub emulator_pid : Option ℕ
  pub emulator_start_ticks : Option ℕ
  pub socket_path : Option String
  pub workspace : Option String
  pub transcript : Option String
  pub ready_at : Option ℕ
  pub readiness_started_at : Option ℕ
  pub attached_at : Option ℕ
  pub last_activity_at : Option ℕ
  pub stop_reason : Option String
  pub failure : Option Error
  pub exit_code : Option ℤ
  pub golden_sha256 : Dict String
  pub copy_methods : List String

-- `SessionRecord(session_id=…, system_id=…)`
abbrev pub new_record : String → String → SessionRecord
new_record session_id system_id = record {
  session_id = session_id;
  system_id = system_id;
  state = requested;
  created_at = none;
  updated_at = none;
  supervisor_pid = none;
  supervisor_start_ticks = none;
  emulator_pid = none;
  emulator_start_ticks = none;
  socket_path = none;
  workspace = none;
  transcript = none;
  ready_at = none;
  readiness_started_at = none;
  attached_at = none;
  last_activity_at = none;
  stop_reason = none;
  failure = none;
  exit_code = none;
  golden_sha256 = [];
  copy_methods = [];
}

pub record Session : Type 0 where
  pub session_id : String
  pub system_id : String
  pub state : SessionState

-- `Session.transition`
unfoldable pub session_transition : Session → SessionState → Outcome Session
session_transition s new_state =
    if allowed s.state new_state
    then ok (record s { state = new_state })
    else raised (invalid_transition (value s.state) (value new_state))
