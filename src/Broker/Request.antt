-- ===== src/Broker/Request.antt =====
-- `Broker.request`: admission, allocation, preparation, and the wait for the supervisor.
pub mod History
use unixtime_machine.Prelude.{
  ℕ, ◌*◌, ◌+◌, Bool, true, false, ◌||◌, ◌&&◌, not, List, [], ◌∷◌, ◌++◌, Option, none, some, String,
  or_else, is_some, filter, count, length, leb, str_eq, if◌then◌else◌,
}
use unixtime_machine.Prelude.Dict.{Dict, contains}
use unixtime_machine.Errors.{
  Error, total_limit_reached, system_limit_reached, duplicate_session, startup_failed,
  supervisor_exited, startup_timeout_exceeded,
}
use unixtime_machine.Exec.{
  Exec, Action, lift, gets, pure, raise, raise_if, rescue, choose, when, modify, ◌>>=◌, ◌>>◌,
}
use unixtime_machine.Models.{
  SessionState, SessionRecord, new_record, allocated, preparing, starting, ready, active, failed,
  released, occupying, one_of, same_state,
}
use unixtime_machine.Host.{Host, text, message, Launch, ShutdownSpec}
use unixtime_machine.Store.{load, all, save, audit, transition}
use unixtime_machine.Config.{BrokerConfig, limit_for, is_reached}
use unixtime_machine.Ids.{safe_id}
use unixtime_machine.Manifest.{system_manifest}
use unixtime_machine.Backend.{
  Site, Backend, PreparedSession, ConsoleTransport, console_transport, backend_for,
}
use unixtime_machine.Broker.Base.{workspace_path, socket_path, transcript_path, Round, write_launch}
use unixtime_machine.Broker.NextId.{next_id}

abbrev pub is_active : SessionRecord → Bool
is_active r = occupying r.state

abbrev pub is_active_of : String → SessionRecord → Bool
is_active_of system_id r = occupying r.state && str_eq r.system_id system_id

-- The limits are in thousandths of a session.
abbrev pub in_thousandths : ℕ → ℕ
in_thousandths n = n * 1000

-- `requested_id` counts as given unless it is `None` or empty.
abbrev given : Option String → Option String
given none = none
given (some id) = if str_eq id "" then none else some id

choose_id : String → Option String → Exec Host String
unfolding lift next_id
choose_id system_id none = next_id system_id
choose_id system_id (some id) = lift (safe_id "session id" id)

-- `self.store.path(session_id).exists() or workspace.exists()`
is_used : String → String → Host → Bool
unfolding contains
is_used system_id session_id h =
    contains session_id h.files || contains (workspace_path system_id session_id) h.workspaces

module _ (site : Site) where
  -- The two tests on the active sessions.
  unfoldable pub admit : String → Action Host
  unfolding ◌>>=◌ raise_if
  admit system_id = do
    records ← all true
    let active_records = filter is_active records
    raise_if (is_reached site.config.max_total_sessions (in_thousandths (length active_records)))
        total_limit_reached
    let per_system = count (λ r. str_eq r.system_id system_id) active_records
    raise_if (is_reached (limit_for site.config system_id) (in_thousandths per_system))
        (system_limit_reached system_id)

  -- Everything under the first lock.
  unfoldable pub allocate : String → Option String → Exec Host String
  unfolding ◌>>=◌ raise_if pure gets is_used choose_id
  allocate system_id requested_id = do
    admit system_id
    session_id ← choose_id system_id (given requested_id)
    used ← gets (is_used system_id session_id)
    raise_if used (duplicate_session session_id)
    requested_record ← save (new_record session_id system_id)
    audit "request" (some requested_record) []
    placed ← transition requested_record allocated "allocation" []
    transition placed preparing "preparation" []
    pure session_id

abbrev launch_of : Backend → PreparedSession → Launch
launch_of backend prepared = record {
  command = prepared.command;
  patterns = prepared.readiness_patterns;
  console = some (console_transport prepared).kind;
  shutdown = backend.shutdown_protocol;
}

-- The record with what the preparation has found.
abbrev with_prepared : String → PreparedSession → SessionRecord → SessionRecord
with_prepared session_id prepared r = record r {
  workspace = some prepared.workspace;
  socket_path = some (socket_path session_id);
  transcript = some (transcript_path session_id);
  copy_methods = prepared.copy_methods;
  golden_sha256 = prepared.golden_sha256;
}

-- What happens outside the broker while it starts the supervisor: an error of `Popen`, the process
-- identifier of the child, and the rounds of the wait before its deadline.
pub record Startup : Type 0 where
  pub spawn_error : Option Error
  pub child : ℕ
  pub rounds : List Round

raise_some : Option Error → Action Host
unfolding pure raise
raise_some none = pure tt
raise_some (some e) = raise e

abbrev started : SessionState → Bool
started s = one_of s (starting ∷ ready ∷ active ∷ [])

-- What one look at the state file and at the child decides: the wait ends with a record, with an
-- error, or goes on.
abbrev look : Option Error → Option SessionRecord → Exec Host (Option SessionRecord)
look (some e) found = raise e
look none found = pure found

child_exit : Round → Option Error
child_exit round = elim round.exited [ none ↦ none | some code ↦ some (supervisor_exited code) ]

judge : Round → SessionRecord → Exec Host (Option SessionRecord)
unfolding pure raise child_exit
judge round current =
    if started current.state
    then look none (some current)
    else if same_state current.state failed
    then look (some (or_else current.failure startup_failed)) none
    else look (child_exit round) none

-- `process.terminate()`
abbrev pub terminate : ℕ → Host → Host
terminate pid h = record h { signals = h.signals ++ pid ∷ [] }

resume : Option SessionRecord → Exec Host SessionRecord → Exec Host SessionRecord
unfolding pure
resume (some r) rest = pure r
resume none rest = rest

-- The loop `while time.monotonic() < deadline`; the deadline follows the last round.
await_start : String → ℕ → List Round → Exec Host SessionRecord
unfolding ◌>>=◌ modify raise load audit judge resume
await_start session_id child [] = do
  current ← load session_id
  audit "timeout" (some current) (("kind", text "startup") ∷ [])
  modify (terminate child)
  raise startup_timeout_exceeded
await_start session_id child (round ∷ rounds) = do
  modify round.others
  current ← load session_id
  verdict ← judge round current
  resume verdict (await_start session_id child rounds)

-- The body of the `try`.
start : Backend → Startup → String → String → Exec Host SessionRecord
unfolding ◌>>=◌ write_launch load save raise_some await_start
start backend startup system_id session_id = do
  prepared ← backend.prepare system_id session_id
  write_launch prepared.workspace (launch_of backend prepared)
  loaded ← load session_id
  save (with_prepared session_id prepared loaded)
  raise_some startup.spawn_error
  await_start session_id startup.child startup.rounds

mark_failed : Error → SessionRecord → Action Host
unfolding ◌>>=◌ transition pure
mark_failed e r = do
  transition (record r { failure = some e }) failed "failure" (("reason", message e) ∷ [])
  pure tt

-- `except Exception as exc`
fail_request : String → Error → Exec Host SessionRecord
unfolding ◌>>=◌ load when raise mark_failed
fail_request session_id e = do
  loaded ← load session_id
  when (not (one_of loaded.state (failed ∷ released ∷ []))) (mark_failed e loaded)
  raise e

-- `Broker.request`
unfoldable pub request : Site → Startup → String → Option String → Exec Host SessionRecord
unfolding ◌>>=◌ lift rescue allocate start fail_request
request site startup system_id requested_id = do
  lift (safe_id "system id" system_id)
  lift (system_manifest site.manifests system_id)
  backend ← lift (backend_for site system_id)
  session_id ← allocate site system_id requested_id
  rescue (start backend startup system_id session_id) (fail_request session_id)
