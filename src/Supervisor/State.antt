-- ===== src/Supervisor/State.antt =====
-- The attributes of `Supervisor` and the local variables of `run`, with its terminal and its logs,
-- beside the host; `update`, `transition`, `control_log` and `detach`.
use unixtime_machine.Prelude.{ℕ, Bool, false, List, [], ◌∷◌, ◌++◌, Option, none, some, String}
use unixtime_machine.Prelude.Bytes.{Bytes}
use unixtime_machine.Exec.{Outcome, Exec, Action, pure, when, choose, ◌>>=◌, ◌>>◌}
use unixtime_machine.Models.{SessionState, SessionRecord, ready, active, same_state}
use unixtime_machine.Host.{Host, Detail}
use unixtime_machine.Store
use unixtime_machine.Store.{load, save, audit}
use unixtime_machine.Config.{BrokerConfig, Bound}
use unixtime_machine.Shutdown.{Driver, Phase, Effects}

-- Times are milliseconds of the monotonic clock.
pub record Supervisor : Type 0 where
  pub session_id : String
  pub workspace : Option String  -- `record.workspace`, as it was when the supervisor started
  pub config : BrokerConfig
  pub patterns : List Bytes  -- `spec["patterns"]`
  pub stop_requested : Bool
  pub stop_reason : Option String
  pub attached : Bool  -- whether a client is attached
  pub last_activity : ℕ
  pub started : ℕ
  pub is_ready : Bool
  pub has_failed : Bool
  pub readiness_deadline : Option Bound
  pub driver : Driver
  pub tail : Bytes
  pub shutdown_deadline : Option Bound
  pub shutdown_phase : Option Phase
  pub written : List Bytes  -- to the emulator's terminal, oldest first
  pub notes : List String  -- the control log, oldest first
  pub transcript : Bytes

pub record Machine : Type 0 where
  pub sup : Supervisor
  pub host : Host

module _ {A : Type 0} where
  -- An operation of the store, on the machine.
  unfoldable pub on_host : Exec Host A → Exec Machine A
  on_host m s = let (r, h) = m s.host in (r, record s { host = h })

  unfoldable pub reads : (Supervisor → A) → Exec Machine A
  reads f s = (Outcome.ok (f s.sup), s)

unfoldable pub sets : (Supervisor → Supervisor) → Action Machine
sets f s = (Outcome.ok tt, record s { sup = f s.sup })

-- `control_log`
unfoldable pub note : String → Action Machine
unfolding sets
note line = sets λ x. record x { notes = x.notes ++ line ∷ [] }

-- `os.write(master, data)`
unfoldable pub write_master : Bytes → Action Machine
unfolding sets
write_master bytes = sets λ x. record x { written = x.written ++ bytes ∷ [] }

-- What a call of the shutdown driver sends and logs.
unfoldable pub perform : Effects → Action Machine
unfolding sets
perform effects =
    sets λ x. record x { written = x.written ++ effects.sent; notes = x.notes ++ effects.notes }

-- `Supervisor.update`
unfoldable pub update_record : String → (SessionRecord → SessionRecord) → Exec Host SessionRecord
unfolding load save ◌>>=◌
update_record session_id changes = do r ← load session_id; save (changes r)

unfoldable pub update : (SessionRecord → SessionRecord) → Exec Machine SessionRecord
unfolding ◌>>=◌ reads on_host update_record
update changes = do
  session_id ← reads (λ x. x.session_id)
  on_host (update_record session_id changes)

-- `Supervisor.transition`
unfoldable pub move_record : String → SessionState → String → Detail → Exec Host SessionRecord
unfolding load choose pure Store.transition ◌>>=◌
move_record session_id state event detail = do
  r ← load session_id
  choose (same_state r.state state) (pure r) (Store.transition r state event detail)

unfoldable pub transition : SessionState → String → Detail → Exec Machine SessionRecord
unfolding ◌>>=◌ reads on_host move_record
transition state event detail = do
  session_id ← reads (λ x. x.session_id)
  on_host (move_record session_id state event detail)

-- `self.store.load(self.session_id)`
unfoldable pub current : Exec Machine SessionRecord
unfolding ◌>>=◌ reads on_host load
current = do session_id ← reads (λ x. x.session_id); on_host (load session_id)

-- `self.store.audit(event, self.store.load(self.session_id), detail)`
unfoldable pub audit_current : String → Detail → Action Machine
unfolding ◌>>=◌ on_host current audit
audit_current event detail = do r ← current; on_host (audit event (some r) detail)

unfoldable pub utc : Exec Machine ℕ
utc s = (Outcome.ok s.host.now, s)

-- `Supervisor.detach`
unfoldable pub detach_attached : Action Machine
unfolding ◌>>=◌ sets current on_host audit when transition pure utc update
detach_attached = do
  sets (λ x. record x { attached = false })
  r ← current
  on_host (audit "detach" (some r) [])
  when (same_state r.state active) (do transition ready "detach" []; pure tt)
  now ← utc
  update (λ q. record q { attached_at = none; last_activity_at = some now })
  pure tt

unfoldable pub detach : Action Machine
unfolding ◌>>=◌ reads when detach_attached
detach = do attached ← reads (λ x. x.attached); when attached detach_attached
