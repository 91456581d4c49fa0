-- ===== src/Supervisor/Loop.antt =====
-- `Supervisor.run` and `main`: the start of the emulator, one round of the loop, and the rounds.
use unixtime_machine.Prelude.{
  ℕ, ◌==◌, Bool, true, not, List, [], ◌∷◌, Option, none, some, String, or_else, str_eq,
  if◌then◌else◌,
}
use unixtime_machine.Prelude.Bytes.{Bytes}
use unixtime_machine.Prelude.Int.{ℤ, pos}
use unixtime_machine.Errors.{Error, unsupported_transport, file_not_found}
use unixtime_machine.Exec.{
  Outcome, ok, raised, Exec, Action, pure, lift, or_raise, raise_if, ◌>>=◌, ◌>>◌,
}
use unixtime_machine.Models.{SessionRecord, starting}
use unixtime_machine.Host.{Host, Launch, process_start_ticks, text, number}
use unixtime_machine.Prelude.Dict.{lookup}
use unixtime_machine.Backend.{Site}
use unixtime_machine.Broker.Release.{release}
use unixtime_machine.Shutdown.{shutdown_driver}
use unixtime_machine.Supervisor.State.{Machine, on_host, sets, reads, update, transition, utc}
use unixtime_machine.Supervisor.Events.{Event, on_events}
use unixtime_machine.Supervisor.Deadlines.{
  check_stop, check_stop_deadline, check_boundary, check_timeouts, emulator_exit,
}

-- What one round of the loop meets. The signal handler may run before the round or during the
-- selector's wait, and the other processes act during that wait.
pub record Tick : Type 0 where
  pub signalled : Bool
  pub now : ℕ
  pub running : Bool
  pub signalled_late : Bool
  pub others : Host → Host
  pub events : List Event
  pub later : ℕ
  pub boundary : Bytes
  pub boundary_fails : Bool
  pub exited : Option ℤ

-- `request_stop`, for SIGTERM
unfoldable pub request_stop : Bool → Action Machine
unfolding sets
request_stop signalled =
    sets λ x.
      if signalled then record x { stop_requested = true; stop_reason = some "operator" } else x

unfoldable pub others_act : (Host → Host) → Action Machine
others_act f s = (ok tt, record s { host = f s.host })

unfoldable pub host_reads : {A : Type 0} → (Host → A) → Exec Machine A
host_reads f s = (ok (f s.host), s)

-- `Popen` may raise.
abbrev pub spawned : Option Error → Outcome (Unit {0})
spawned none = ok tt
spawned (some e) = raised e

unfoldable pub finish : Option ℤ → Exec Machine (Option ℕ)
unfolding ◌>>=◌ pure emulator_exit
finish none = pure none
finish (some code) = do status ← emulator_exit code; pure (some status)

-- The part of a round that follows the selector's wait.
unfoldable pub after_wait : Tick → Exec Machine (Option ℕ)
unfolding ◌>>=◌ on_events check_boundary check_timeouts finish
after_wait tick = do
  on_events tick.now tick.events
  check_boundary tick.later tick.boundary tick.boundary_fails
  check_timeouts tick.later
  finish tick.exited

-- One round; it ends the loop with a status, or not.
unfoldable pub iterate : Tick → Exec Machine (Option ℕ)
unfolding ◌>>=◌ request_stop others_act check_stop check_stop_deadline after_wait
iterate tick = do
  request_stop tick.signalled
  check_stop tick.now
  check_stop_deadline tick.now tick.running
  others_act tick.others
  request_stop tick.signalled_late
  after_wait tick

unfoldable pub go_on : Option ℕ → Exec Machine (Option ℕ) → Exec Machine (Option ℕ)
unfolding pure
go_on (some status) rest = pure (some status)
go_on none rest = rest

-- The loop over the rounds that take place; without a status it is still running.
unfoldable pub iterate_all : List Tick → Exec Machine (Option ℕ)
unfolding ◌>>=◌ pure iterate go_on
iterate_all [] = pure none
iterate_all (tick ∷ ticks) = do status ← iterate tick; go_on status (iterate_all ticks)

unfoldable pub launch_of : Option String → Host → Option Launch
launch_of none h = none
launch_of (some path) h = elim (lookup path h.workspaces) [ none ↦ none | some w ↦ w.launch ]

-- The part of `run` before the loop: the supervisor enters its own process, reads the launch file,
-- and starts the emulator, whose process identifier is `child`.
unfoldable pub boot : ℕ → ℕ → Option Error → Action Machine
unfolding ◌>>=◌ sets update transition utc launch_of lift or_raise raise_if pure process_start_ticks
boot own child spawn_error = do
  ticks ← host_reads (λ h. process_start_ticks h (some own))
  r ← update (λ q. record q { supervisor_pid = some own; supervisor_start_ticks = ticks })
  found ← host_reads (launch_of r.workspace)
  launch ← or_raise (file_not_found "broker-launch.json") found
  let kind = or_else launch.console "stdio-pty"
  raise_if (not (str_eq kind "stdio-pty")) (unsupported_transport kind)
  driver ← lift (shutdown_driver launch.shutdown)
  lift (spawned spawn_error)
  sets (λ x. record x { workspace = r.workspace; driver = driver; patterns = launch.patterns })
  transition starting "emulator_start"
      (("pid", number (pos child)) ∷ ("socket", text (or_else r.socket_path "None")) ∷ [])
  child_ticks ← host_reads (λ h. process_start_ticks h (some child))
  now ← utc
  update (λ q. record q {
    emulator_pid = some child;
    emulator_start_ticks = child_ticks;
    last_activity_at = some now;
  })
  pure tt

unfoldable pub discard : Exec Machine SessionRecord → Exec Machine (Option ℕ)
unfolding ◌>>=◌ pure
discard m = do m; pure (some 0)

-- `main`: a supervisor that ends with status 0 releases its session.
unfoldable pub ended : Site → String → Option ℕ → Exec Machine (Option ℕ)
unfolding on_host release discard pure
ended site session_id none = pure none
ended site session_id (some code) =
    if code == 0 then discard (on_host (release site session_id)) else pure (some code)

unfoldable pub supervise : Site → ℕ → ℕ → Option Error → List Tick → Exec Machine (Option ℕ)
unfolding ◌>>=◌ reads boot iterate_all ended
supervise site own child spawn_error ticks = do
  boot own child spawn_error
  status ← iterate_all ticks
  session_id ← reads (λ x. x.session_id)
  ended site session_id status
