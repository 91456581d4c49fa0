-- ===== src/Supervisor/Rounds.antt =====
-- The state files under the loop of broker/supervisor.py and under `main`.
use unixtime_machine.Prelude.{
  Bool-cases, inl, inr, ◌==◌, Bool, List, [], ◌∷◌, Option, none, some, String, ℕ,
}
use unixtime_machine.Prelude.Bytes.{Bytes}
use unixtime_machine.Prelude.Int.{ℤ}
use unixtime_machine.Exec.{Exec}
use unixtime_machine.Exec.Frame.{Within, Within-bind, Within-pure}
use unixtime_machine.Models.{SessionRecord}
use unixtime_machine.Host.{Host}
use unixtime_machine.Store.Filed.{Lawful, Lawful-refl, IsFiled, Kept}
use unixtime_machine.Supervisor.State.{Machine, reads}
use unixtime_machine.Supervisor.Deadlines.{
  attestation, enter_stopping, begin_stop, check_stop, abandon_stop, check_stop_deadline,
  take_boundary, check_boundary, expire, expire_some, check_timeouts, confirmed_exit,
  unconfirmed_exit, exit_after_failure, unexpected_exit, end_session, emulator_exit,
}
use unixtime_machine.Supervisor.Loop.{
  Tick, request_stop, others_act, finish, after_wait, iterate, go_on, iterate_all, discard, ended,
  supervise,
}
use unixtime_machine.Backend.{Site}
use unixtime_machine.Errors.{Error}
use unixtime_machine.Supervisor.Loop.{host_reads, boot}
use unixtime_machine.Broker.Release.{release}
use unixtime_machine.Broker.Release.History.{release-history}
use unixtime_machine.Supervisor.History.{
  machine_history, supervisor_rules, Within-sets, Within-reads, Within-on_host,
}
use unixtime_machine.Supervisor.Lawful.{
  check_ready-history, mark_activity-history, deliver-history, on_events-history,
}

attestation-history : (path : Option String) → Within machine_history (attestation path)
unfolding attestation machine_history
attestation-history path = record { at = λ s. Lawful-refl s.host }

enter_stopping-history : Within machine_history enter_stopping
unfolding enter_stopping
enter_stopping-history = search supervisor_rules depth 9

begin_stop-history : (at : ℕ) → Within machine_history (begin_stop at)
unfolding begin_stop
begin_stop-history at =
    search (supervisor_rules, enter_stopping-history, attestation-history) depth 12

check_stop-history : (at : ℕ) → Within machine_history (check_stop at)
unfolding check_stop
check_stop-history at = search (supervisor_rules, begin_stop-history) depth 9

abandon_stop-history : Within machine_history abandon_stop
unfolding abandon_stop
abandon_stop-history = search supervisor_rules depth 12

check_stop_deadline-history :
    (at : ℕ) (running : Bool) → Within machine_history (check_stop_deadline at running)
unfolding check_stop_deadline
check_stop_deadline-history at running = search (supervisor_rules, abandon_stop-history) depth 9

take_boundary-history :
    (at : ℕ) (bytes : Bytes) (fails : Bool) → Within machine_history (take_boundary at bytes fails)
unfolding take_boundary
take_boundary-history at [] fails = search supervisor_rules
take_boundary-history at (b ∷ bytes) fails =
    search (supervisor_rules, mark_activity-history, deliver-history, check_ready-history) depth 9

check_boundary-history :
    (at : ℕ) (bytes : Bytes) (fails : Bool) → Within machine_history (check_boundary at bytes fails)
unfolding check_boundary
check_boundary-history at bytes fails = search (supervisor_rules, take_boundary-history) depth 9

expire-history : (kind : String) → Within machine_history (expire kind)
unfolding expire
expire-history kind = search supervisor_rules depth 9

expire_some-history : (kind : Option String) → Within machine_history (expire_some kind)
unfolding expire_some
expire_some-history none = search supervisor_rules
expire_some-history (some kind) = expire-history kind

check_timeouts-history : (at : ℕ) → Within machine_history (check_timeouts at)
unfolding check_timeouts
check_timeouts-history at = search (supervisor_rules, expire_some-history) depth 9

ruleset ending_rules = (supervisor_rules)

confirmed_exit-history : (code : ℤ) → Within machine_history (confirmed_exit code)
unfolding confirmed_exit
confirmed_exit-history code = search ending_rules depth 9

unconfirmed_exit-history : (code : ℤ) → Within machine_history (unconfirmed_exit code)
unfolding unconfirmed_exit
unconfirmed_exit-history code = search ending_rules depth 9

exit_after_failure-history : (code : ℤ) → Within machine_history (exit_after_failure code)
unfolding exit_after_failure
exit_after_failure-history code = search ending_rules depth 9

unexpected_exit-history : (code : ℤ) → Within machine_history (unexpected_exit code)
unfolding unexpected_exit
unexpected_exit-history code = search ending_rules depth 9

end_session-history :
    (confirmed : Bool) (code : ℤ) (r : SessionRecord)
    → Within machine_history (end_session confirmed code r)
unfolding end_session
end_session-history confirmed code r =
    search
      (
        supervisor_rules, confirmed_exit-history, unconfirmed_exit-history,
        exit_after_failure-history, unexpected_exit-history,
      )
      depth 9

emulator_exit-history : (code : ℤ) → Within machine_history (emulator_exit code)
unfolding emulator_exit
emulator_exit-history code = search (supervisor_rules, end_session-history) depth 12

finish-history : (code : Option ℤ) → Within machine_history (finish code)
unfolding finish
finish-history none = search supervisor_rules
finish-history (some code) = search (supervisor_rules, emulator_exit-history) depth 9

request_stop-history : (signalled : Bool) → Within machine_history (request_stop signalled)
unfolding request_stop
request_stop-history signalled = Within-sets _

others_act-history :
    (f : Host → Host) → ((h : Host) → Lawful h (f h)) → Within machine_history (others_act f)
unfolding others_act machine_history
others_act-history f k = record { at = λ s. k s.host }

ruleset round_rules = (
  supervisor_rules, check_stop-history, check_stop_deadline-history, check_boundary-history,
  check_timeouts-history, finish-history, request_stop-history, on_events-history,
)

-- What the other processes do during the round keeps to the same rules.
abbrev pub FairTick : Tick → Type 0
FairTick tick = (h : Host) → Lawful h (tick.others h)

waited-history : (tick : Tick) → Within machine_history (after_wait tick)
unfolding after_wait
waited-history tick = search round_rules depth 14

iterate-history : (tick : Tick) → FairTick tick → Within machine_history (iterate tick)
unfolding iterate
iterate-history tick fair =
    Within-bind (request_stop tick.signalled) _ (request_stop-history tick.signalled) λ _.
      Within-bind (check_stop tick.now) _ (check_stop-history tick.now) λ _.
        Within-bind (check_stop_deadline tick.now tick.running) _
          (check_stop_deadline-history tick.now tick.running)
          λ _. Within-bind (others_act tick.others) _ (others_act-history tick.others fair) λ _.
            Within-bind (request_stop tick.signalled_late) _
              (request_stop-history tick.signalled_late) λ _. waited-history tick

go_on-history :
    (status : Option ℕ) (rest : Exec Machine (Option ℕ))
    → Within machine_history rest
    → Within machine_history (go_on status rest)
unfolding go_on
go_on-history none rest k = k
go_on-history (some status) rest k = search supervisor_rules

pub data FairTicks : List Tick → Type 0 where
  last_round : FairTicks []
  next_round :
      {tick : Tick} {ticks : List Tick} → FairTick tick → FairTicks ticks → FairTicks (tick ∷ ticks)

pub iterate_all-history :
    (ticks : List Tick) → FairTicks ticks → Within machine_history (iterate_all ticks)
unfolding iterate_all
iterate_all-history [] fair = search supervisor_rules
iterate_all-history (tick ∷ ticks) (next_round fair rest) =
    Within-bind (iterate tick) (λ status. go_on status (iterate_all ticks))
      (iterate-history tick fair)
      λ status. go_on-history status (iterate_all ticks) (iterate_all-history ticks rest)

discard-history :
    (m : Exec Machine SessionRecord) → Within machine_history m → Within machine_history (discard m)
unfolding discard
discard-history m k = search (supervisor_rules, k)

ended-history :
    (site : Site) (id : String) (status : Option ℕ) → Within machine_history (ended site id status)
unfolding ended
ended-history site id none = search supervisor_rules
ended-history site id (some code) = elim (Bool-cases (code == 0)) [
  | inl e ↦ rw e (discard-history _ (Within-on_host (release site id) (release-history site id)))
  | inr e ↦ rw e (Within-pure (some code))
]

host_reads-history : {A : Type 0} (f : Host → A) → Within machine_history (host_reads f)
unfolding host_reads machine_history
host_reads-history f = record { at = λ s. Lawful-refl s.host }

boot-history :
    (own child : ℕ) (spawn_error : Option Error)
    → Within machine_history (boot own child spawn_error)
unfolding boot
boot-history own child spawn_error = search (supervisor_rules, host_reads-history) depth 20

supervise-history :
    (site : Site) (own child : ℕ) (spawn_error : Option Error) (ticks : List Tick)
    → FairTicks ticks
    → Within machine_history (supervise site own child spawn_error ticks)
unfolding supervise
supervise-history site own child spawn_error ticks fair =
    Within-bind (boot own child spawn_error) _ (boot-history own child spawn_error) λ _.
      Within-bind (iterate_all ticks) _ (iterate_all-history ticks fair) λ status.
        Within-bind (reads (λ x. x.session_id)) _ (Within-reads (λ x. x.session_id))
          λ id. ended-history site id status

-- From a host where every record stands in the file that its identifier names: however the
-- supervisor starts, whatever rounds it meets, with whatever signals, clients, output, deadlines and
-- failing writes, and whether it ends, is still running or raises, every state file is as it was, or
-- is new with a state that `TRANSITIONS` reaches from `requested`, or holds a record of the same
-- system with a state that `TRANSITIONS` reaches from the old one, and every record still stands in
-- the file that its identifier names. The audit log has only grown, and each new line that records
-- a transition names one that `TRANSITIONS` permits. The release at the end is included, and the
-- other processes are supposed to keep to all this in every round.
pub supervise-Kept :
    (site : Site) (own child : ℕ) (spawn_error : Option Error) (ticks : List Tick) (m : Machine)
    → FairTicks ticks
    → IsFiled m.host
    → Kept m.host (supervise site own child spawn_error ticks m).1.host
unfolding machine_history
supervise-Kept site own child spawn_error ticks m fair filed =
    (supervise-history site own child spawn_error ticks fair).at m filed
