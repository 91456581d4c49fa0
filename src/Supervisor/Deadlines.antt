-- ===== src/Supervisor/Deadlines.antt =====
-- The deadlines of a session: the stop that an operator asks for, readiness, idleness and the total
-- time; and what the end of the emulator means.
use Prim.Native.String.{◌++◌}
use unixtime_machine.Prelude.{
  ℕ, ◌-◌, Bool, true, false, ◌&&◌, not, [], ◌∷◌, Option, none, some, String, is_some, or_else,
  if◌then◌else◌,
}
use unixtime_machine.Prelude.Bytes.{Bytes}
use unixtime_machine.Prelude.Int.{ℤ}
use unixtime_machine.Prelude.Dict.{lookup}
use unixtime_machine.Errors.{
  Error, expired, exited_before_confirmed, exited_unexpectedly, monitor_entry_unconfirmed,
  shutdown_unconfirmed,
}
use unixtime_machine.Exec.{Outcome, Exec, Action, pure, when, choose, ◌>>=◌, ◌>>◌}
use unixtime_machine.Config.{Bound, after, is_reached}
use unixtime_machine.Models.{
  SessionRecord, starting, ready, active, stopping, resetting, failed, one_of, same_state,
}
use unixtime_machine.Host.{Host, StopRequest, text, number, flag, message}
use unixtime_machine.Shutdown.{Phase, monitor, exit, begin}
use unixtime_machine.Supervisor.State.{
  Supervisor, Machine, reads, sets, note, perform, update, transition, current, audit_current,
}
use unixtime_machine.Supervisor.Events.{record_output, mark_activity, deliver, check_ready}

-- `deadline is not None and now >= deadline`
abbrev pub reached : Option Bound → ℕ → Bool
reached none at = false
reached (some deadline) at = is_reached deadline at

-- `broker-stop.json`, of which only the attestation is read; without the file it is absent.
abbrev pub stop_request : Option String → Host → Option StopRequest
stop_request none h = none
stop_request (some path) h = elim (lookup path h.workspaces) [ none ↦ none | some w ↦ w.stop ]

abbrev pub attests : Option StopRequest → Bool
attests none = false
attests (some request) = request.guest_synced

unfoldable pub attestation : Option String → Exec Machine Bool
attestation path s = (Outcome.ok (attests (stop_request path s.host)), s)

unfoldable pub reason_text : Option String → String
reason_text reason = or_else reason "None"

unfoldable pub enter_stopping : Action Machine
unfolding ◌>>=◌ reads transition pure reason_text
enter_stopping = do
  reason ← reads (λ x. x.stop_reason)
  transition stopping "stop" (("reason", text (reason_text reason)) ∷ [])
  pure tt

unfoldable pub begin_stop : ℕ → Action Machine
unfolding ◌>>=◌ current when enter_stopping attestation note reads perform sets begin
begin_stop at = do
  r ← current
  when (one_of r.state (starting ∷ ready ∷ active ∷ failed ∷ [])) enter_stopping
  workspace ← reads (λ x. x.workspace)
  synced ← attestation workspace
  note "stop request accepted"
  when synced (note "guest-sync attestation present")
  (phase, driver, effects) ← reads (λ x. begin x.driver)
  perform effects
  sets (λ x. record x {
    driver = driver;
    shutdown_phase = some phase;
    shutdown_deadline = some (after at x.config.shutdown_timeout);
  })

-- `if self.stop_requested and shutdown_deadline is None`
unfoldable pub check_stop : ℕ → Action Machine
unfolding ◌>>=◌ reads when begin_stop
check_stop at = do
  due ← reads (λ x. x.stop_requested && not (is_some x.shutdown_deadline))
  when due (begin_stop at)

-- `SimhMonitorShutdownDriver.timeout_reason`
abbrev pub timeout_reason : Option Phase → Error
timeout_reason (some monitor) = monitor_entry_unconfirmed
timeout_reason (some exit) = shutdown_unconfirmed
timeout_reason none = shutdown_unconfirmed

abbrev pub in_monitor : Option Phase → Bool
in_monitor (some monitor) = true
in_monitor (some exit) = false
in_monitor none = false

-- The supervisor, the terminal and the socket stay, so that the stop can be tried again.
unfoldable pub abandon_stop : Action Machine
unfolding ◌>>=◌ reads when note audit_current update transition sets
abandon_stop = do
  phase ← reads (λ x. x.shutdown_phase)
  when (in_monitor phase) (note "monitor prompt not observed")
  note "shutdown timeout/failure"
  audit_current "timeout" (("kind", text "shutdown") ∷ [])
  reason ← reads (λ x. x.stop_reason)
  update (λ r. record r { failure = some (timeout_reason phase); stop_reason = reason })
  transition failed "failure" (("reason", message (timeout_reason phase)) ∷ [])
  sets (λ x. record x {
    has_failed = true;
    stop_requested = false;
    shutdown_deadline = none;
    shutdown_phase = none;
  })

-- `running` is `process.poll() is None`.
unfoldable pub check_stop_deadline : ℕ → Bool → Action Machine
unfolding ◌>>=◌ reads when abandon_stop
check_stop_deadline at running = do
  late ← reads (λ x. reached x.shutdown_deadline at)
  when (late && running) abandon_stop

unfoldable pub take_boundary : ℕ → Bytes → Bool → Action Machine
unfolding ◌>>=◌ pure record_output mark_activity deliver check_ready
take_boundary at [] fails = pure tt
take_boundary at (b ∷ bytes) fails = do
  record_output (b ∷ bytes)
  mark_activity at
  deliver fails
  check_ready

abbrev pub readiness_due : ℕ → Supervisor → Bool
readiness_due at x = not x.is_ready && reached x.readiness_deadline at

-- At the readiness deadline the terminal is drained once more, so that a marker that is already
-- there wins.
unfoldable pub check_boundary : ℕ → Bytes → Bool → Action Machine
unfolding ◌>>=◌ reads when take_boundary
check_boundary at bytes fails = do
  due ← reads (readiness_due at)
  when due (take_boundary at bytes fails)

-- `timeout_kind`
abbrev pub timeout_kind : ℕ → Supervisor → Option String
timeout_kind at x =
    if not x.has_failed && readiness_due at x && not x.stop_requested
    then some "readiness"
    else if not x.has_failed
        && is_reached x.config.absolute_timeout (at - x.started)
        && not x.stop_requested
    then some "absolute"
    else if not x.has_failed
        && is_reached x.config.idle_timeout (at - x.last_activity)
        && not x.stop_requested
    then some "idle"
    else none

abbrev pub is_readiness : ℕ → Supervisor → Bool
is_readiness at x = not x.has_failed && readiness_due at x && not x.stop_requested

-- `f"{timeout_kind}-timeout"`
abbrev pub stop_reason_for : String → String
stop_reason_for kind = kind ++ "-timeout"

-- No command is sent to the emulator: expiry cannot know that the guest was synced.
unfoldable pub expire : String → Action Machine
unfolding ◌>>=◌ audit_current update transition sets
expire kind = do
  audit_current "timeout" (("kind", text kind) ∷ [])
  update
      (λ r. record r { failure = some (expired kind); stop_reason = some (stop_reason_for kind) })
  transition failed "failure" (("reason", message (expired kind)) ∷ [])
  sets (λ x. record x { has_failed = true })

unfoldable pub expire_some : Option String → Action Machine
unfolding pure expire
expire_some none = pure tt
expire_some (some kind) = expire kind

unfoldable pub check_timeouts : ℕ → Action Machine
unfolding ◌>>=◌ reads when audit_current expire_some
check_timeouts at = do
  unready ← reads (is_readiness at)
  when unready (audit_current "readiness_result" (("result", text "timeout") ∷ []))
  kind ← reads (timeout_kind at)
  expire_some kind

-- The emulator has ended: its exit is a shutdown only if `quit` was confirmed, or the session had
-- failed before. The result is the supervisor's exit status.
unfoldable pub confirmed_exit : ℤ → Exec Machine ℕ
unfolding ◌>>=◌ transition pure
confirmed_exit code = do transition resetting "reset" (("exit_code", number code) ∷ []); pure 0

unfoldable pub unconfirmed_exit : ℤ → Exec Machine ℕ
unfolding ◌>>=◌ note update transition pure
unconfirmed_exit code = do
  note "monitor prompt not observed"
  note "shutdown timeout/failure"
  update (λ r. record r { failure = some exited_before_confirmed })
  transition failed "failure"
      (("reason", message exited_before_confirmed) ∷ ("exit_code", number code) ∷ [])
  pure 2

unfoldable pub exit_after_failure : ℤ → Exec Machine ℕ
unfolding ◌>>=◌ transition pure
exit_after_failure code = do
  transition resetting "reset" (("exit_code", number code) ∷ ("after_failure", flag true) ∷ [])
  pure 0

unfoldable pub unexpected_exit : ℤ → Exec Machine ℕ
unfolding ◌>>=◌ update transition pure
unexpected_exit code = do
  update (λ r. record r { failure = some (exited_unexpectedly code) })
  transition failed "failure" (("reason", text "emulator exited") ∷ ("exit_code", number code) ∷ [])
  pure 2

abbrev pub in_exit : Option Phase → Bool
in_exit (some exit) = true
in_exit (some monitor) = false
in_exit none = false

-- What the end means for a session in the state of `r`; `confirmed` holds in the phase `exit`.
unfoldable pub end_session : Bool → ℤ → SessionRecord → Exec Machine ℕ
unfolding choose confirmed_exit unconfirmed_exit exit_after_failure unexpected_exit
end_session confirmed code r =
    choose (same_state r.state stopping)
      (choose confirmed (confirmed_exit code) (unconfirmed_exit code))
      (choose (same_state r.state failed) (exit_after_failure code) (unexpected_exit code))

unfoldable pub emulator_exit : ℤ → Exec Machine ℕ
unfolding ◌>>=◌ reads when note update end_session
emulator_exit code = do
  in_exit_phase ← reads (λ x. in_exit x.shutdown_phase)
  when in_exit_phase (note "emulator exit observed")
  reason ← reads (λ x. x.stop_reason)
  r ← update (λ q. record q { exit_code = some code; stop_reason = reason })
  end_session in_exit_phase code r
