-- ===== src/Broker/Stop.antt =====
-- `Broker.stop`: the checks before a stop, the request that is left for the supervisor, and the wait.
use unixtime_machine.Prelude.{
  ℕ, Bool, ◌||◌, ◌&&◌, not, List, [], ◌∷◌, ◌++◌, Option, none, some, String, if◌then◌else◌,
}
use unixtime_machine.Prelude.Dict.{lookup}
use unixtime_machine.Errors.{
  stop_refused_failed, recovery_needs_failed, no_workspace_path, protocol_unavailable,
  guest_not_synced, supervisor_not_running, shutdown_wait_expired,
}
use unixtime_machine.Exec.{Exec, gets, pure, raise, raise_if, or_raise, choose, modify, ◌>>=◌, ◌>>◌}
use unixtime_machine.Models.{
  SessionRecord, stopping, resetting, released, failed, one_of, same_state,
}
use unixtime_machine.Host.{Host, Launch, process_matches, text}
use unixtime_machine.Store.{audit}
use unixtime_machine.Broker.Base.{get, Round, write_stop}

-- `broker-launch.json` below the path, if it is there and well formed
launch_at : String → Host → Option Launch
launch_at path h = elim (lookup path h.workspaces) [ none ↦ none | some w ↦ w.launch ]

-- `os.kill(pid, SIGTERM)`
signal : Option ℕ → Host → Host
signal none h = h
signal (some pid) h = record h { signals = h.signals ++ pid ∷ [] }

resume : Option SessionRecord → Exec Host SessionRecord → Exec Host SessionRecord
unfolding pure
resume (some r) rest = pure r
resume none rest = rest

-- One look of the wait: the state ends it once a recovery is known to have started.
abbrev ends_wait : Bool → SessionRecord → Bool
ends_wait recovery_started r =
    one_of r.state (resetting ∷ released ∷ failed ∷ []) && recovery_started

-- The loop `while time.monotonic() < deadline`; the deadline follows the last round.
await_stop : String → Bool → List Round → Exec Host SessionRecord
unfolding ◌>>=◌ get audit raise modify resume
await_stop session_id recovery_started [] = do
  current ← get session_id
  audit "timeout" (some current) (("kind", text "shutdown-wait") ∷ [])
  raise shutdown_wait_expired
await_stop session_id recovery_started (round ∷ rounds) = do
  current ← get session_id
  let recovery_started' = same_state current.state stopping || recovery_started
  resume (if ends_wait recovery_started' current then some current else none)
      (modify round.others >> await_stop session_id recovery_started' rounds)

-- The stop of a session that is neither over nor refused.
order_stop : String → Bool → Bool → List Round → SessionRecord → Exec Host SessionRecord
unfolding ◌>>=◌ gets or_raise raise_if modify launch_at write_stop signal await_stop process_matches
order_stop session_id guest_synced recovery rounds r = do
  path ← or_raise no_workspace_path r.workspace
  found ← gets (launch_at path)
  launch ← or_raise protocol_unavailable found
  raise_if (launch.shutdown.requires_guest_sync && not guest_synced) guest_not_synced
  running ← gets (λ h. process_matches h r.supervisor_pid r.supervisor_start_ticks)
  raise_if (not running) supervisor_not_running
  write_stop path (record { guest_synced = guest_synced; recovery = recovery })
  modify (signal r.supervisor_pid)
  await_stop session_id (not recovery) rounds

-- `Broker.stop`
unfoldable pub stop : String → Bool → Bool → List Round → Exec Host SessionRecord
unfolding ◌>>=◌ get pure raise_if choose order_stop
stop session_id guest_synced recovery rounds = do
  r ← get session_id
  choose (one_of r.state (resetting ∷ released ∷ [])) (pure r) (do
    raise_if (same_state r.state failed && not recovery) stop_refused_failed
    raise_if (recovery && not (same_state r.state failed)) recovery_needs_failed
    order_stop session_id guest_synced recovery rounds r)
