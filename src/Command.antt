-- ===== src/Command.antt =====
-- scripts/utm.py: the commands that look at one system's runtime state and change it. The state is
-- one JSON file, state/<system>.json.
pub mod Evidence
use unixtime_machine.Prelude.{
  ℕ, Bool, true, false, not, ◌==◌, List, [], ◌∷◌, ◌++◌, Option, none, some, String, str_eq,
  if◌then◌else◌,
}
use unixtime_machine.Prelude.Int.{ℤ, pos, negsuc}
use unixtime_machine.Prelude.Dict.{Dict, lookup, put}
use unixtime_machine.Errors.{
  Error, system_not_running, other_session, recorded_process_gone, one_attestation,
  emulator_not_stopped, system_already_running, unreadable_json, malformed_state, no_session,
}
use unixtime_machine.Outcome.{Outcome, ok, raised}
use unixtime_machine.Exec.{Exec, Action, gets, lift, pure, modify, raise_if, ◌>>=◌, ◌>>◌}
use unixtime_machine.Process.{Probe, pid_alive}

-- `termination` in the state
pub record Termination : Type 0 where
  pub clean_guest_shutdown : Bool
  pub guest_filesystems_synced : Bool
  pub kind : String
  pub stopped_at : ℕ

-- A value in the state.
pub data Entry : Type 0 where
  text_entry : String → Entry
  number_entry : ℤ → Entry
  no_entry : Entry
  termination_entry : Termination → Entry

-- The file: missing, unreadable as JSON, JSON that is no mapping, or a mapping.
pub data StateText : Type 0 where
  no_state : StateText
  bad_state : StateText
  other_state : StateText
  state : Dict Entry → StateText

-- What a command meets: the file, and the processes that were sent SIGINT, oldest first.
pub record Desk : Type 0 where
  pub file : StateText
  pub interrupted : List ℤ

abbrev pub write_state : Dict Entry → Desk → Desk
write_state entries desk = record desk { file = state entries }

-- `json.loads(path.read_text())` after `path.is_file()`
abbrev pub read_state : StateText → Outcome (Dict Entry)
read_state no_state = raised system_not_running
read_state bad_state = raised (unreadable_json "state")
read_state other_state = raised malformed_state
read_state (state entries) = ok entries

-- `data.get("pid", -1)`, as a process identifier
abbrev pub pid_of : Option Entry → Outcome ℤ
pid_of none = ok (negsuc 0)
pid_of (some (number_entry pid)) = ok pid
pid_of (some _) = raised malformed_state

abbrev pub is_session : String → Option Entry → Bool
is_session session_id (some (text_entry s)) = str_eq s session_id
is_session session_id _ = false

-- `requested_session and data.get("session_id") != requested_session`
abbrev pub is_other_session : Option String → Option Entry → Bool
is_other_session none entry = false
is_other_session (some String.[]) entry = false
is_other_session (some (String.◌∷◌ c s)) entry = not (is_session (String.◌∷◌ c s) entry)

-- A round of `stop_process` before its deadline: what the other processes do, and the probe.
pub record StopRound : Type 0 where
  pub others : Desk → Desk
  pub probe : Probe

-- A process that is gone ends the wait.
unfoldable rest_or_done : Bool → Exec Desk Bool → Exec Desk Bool
unfolding pure
rest_or_done true rest = rest
rest_or_done false rest = pure true

-- `stop_process` after the signal
unfoldable pub await_exit : List StopRound → Exec Desk Bool
unfolding ◌>>=◌ modify pure rest_or_done
await_exit [] = pure false
await_exit (round ∷ rounds) = do
  modify round.others
  rest_or_done (pid_alive round.probe) (await_exit rounds)

-- The arguments of `system stop`.
pub record StopArguments : Type 0 where
  pub session_id : Option String
  pub guest_synced : Bool
  pub failed_boot : Bool

-- What the stop meets: whether the recorded process runs, whether SIGINT can be sent, the rounds,
-- and the time after them.
pub record StopScene : Type 0 where
  pub probe : ℤ → Probe
  pub refused : Option Error
  pub rounds : List StopRound
  pub stopped_at : ℕ

abbrev pub sent : Option Error → Outcome (Unit {0})
sent none = ok tt
sent (some e) = raised e

abbrev pub interrupt : ℤ → Desk → Desk
interrupt pid desk = record desk { interrupted = desk.interrupted ++ pid ∷ [] }

-- `{**data, "runtime_status": "stopped", "termination": termination}`
abbrev pub stopped_state : StopArguments → StopScene → Dict Entry → Dict Entry
stopped_state arguments scene entries =
    put "termination"
      (termination_entry (record {
        clean_guest_shutdown = false;
        guest_filesystems_synced = arguments.guest_synced;
        kind = if arguments.guest_synced then "guest-synced" else "failed-boot";
        stopped_at = scene.stopped_at;
      }))
      (put "runtime_status" (text_entry "stopped") entries)

-- `guest_synced == failed_boot`
abbrev pub same_flag : Bool → Bool → Bool
same_flag true b = b
same_flag false b = not b

-- `cmd_system_stop`: the exit status
unfoldable pub system_stop : StopArguments → StopScene → Exec Desk ℕ
unfolding ◌>>=◌ gets lift raise_if modify pure await_exit
system_stop arguments scene = do
  file ← gets (λ desk. desk.file)
  entries ← lift (read_state file)
  raise_if (is_other_session arguments.session_id (lookup "session_id" entries)) other_session
  pid ← lift (pid_of (lookup "pid" entries))
  raise_if (not (pid_alive (scene.probe pid))) recorded_process_gone
  raise_if (same_flag arguments.guest_synced arguments.failed_boot) one_attestation
  lift (sent scene.refused)
  modify (interrupt pid)
  gone ← await_exit scene.rounds
  raise_if (not gone) emulator_not_stopped
  modify (write_state (stopped_state arguments scene entries))
  pure 0

-- Whether the file names a running process.
abbrev runs_in : (ℤ → Probe) → StateText → Outcome Bool
runs_in probe no_state = ok false
runs_in probe bad_state = raised (unreadable_json "state")
runs_in probe other_state = raised malformed_state
runs_in probe (state entries) = elim (pid_of (lookup "pid" entries)) [
  | ok pid ↦ ok (pid_alive (probe pid))
  | raised e ↦ raised e
]

-- `cmd_system_status`: the word that it prints first
unfoldable pub system_status : (ℤ → Probe) → StateText → Outcome String
system_status probe file = elim (runs_in probe file) [
  | ok alive ↦ ok (if alive then "RUNNING" else "STOPPED")
  | raised e ↦ raised e
]

-- `cmd_system_start`, before the emulator runs: a running process is not replaced.
unfoldable pub check_prior : (ℤ → Probe) → Action Desk
unfolding ◌>>=◌ gets lift raise_if pure
check_prior probe = do
  file ← gets (λ desk. desk.file)
  is_running ← lift (runs_in probe file)
  raise_if is_running system_already_running

-- `started`
unfoldable pub record_start : Dict Entry → ℤ → Action Desk
unfolding modify
record_start runtime pid = modify (write_state (put "pid" (number_entry pid) runtime))

-- `{**base, **more}`
unfoldable pub merge : Dict Entry → Dict Entry → Dict Entry
merge base [] = base
merge base ((key, value) ∷ more) = put key value (merge base more)

-- The file as it is by then; an unreadable one counts as empty.
abbrev pub final_state : StateText → Outcome (Dict Entry)
final_state no_state = ok []
final_state bad_state = ok []
final_state other_state = raised malformed_state
final_state (state entries) = ok entries

abbrev pub exit_entry : Option ℤ → Entry
exit_entry none = no_entry
exit_entry (some code) = number_entry code

-- The `finally` of `cmd_system_start`, once the emulator has had a process.
unfoldable pub record_exit : Dict Entry → ℤ → Option ℤ → Action Desk
unfolding ◌>>=◌ gets lift modify merge
record_exit runtime pid code = do
  file ← gets (λ desk. desk.file)
  final ← lift (final_state file)
  modify (
      write_state
        (put "pid" (number_entry pid) (put "exit_code" (exit_entry code) (merge runtime final))))
