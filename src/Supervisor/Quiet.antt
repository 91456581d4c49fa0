-- ===== src/Supervisor/Quiet.antt =====
-- What the deadlines of broker/supervisor.py write to the emulator's terminal.
use unixtime_machine.Prelude.{◌≡◌, refl, ◌∙◌, Bool, [], ◌∷◌, Option, none, some, String, ℕ}
use unixtime_machine.Prelude.Bytes.{Bytes}
use unixtime_machine.Exec.{Exec}
use unixtime_machine.Exec.Frame.{Frame, Within, frame_rules}
use unixtime_machine.Models.{SessionState, SessionRecord}
use unixtime_machine.Host.{Host, Detail}
use unixtime_machine.Supervisor.State.{
  Supervisor, Machine, on_host, reads, sets, note, update, transition, current, audit_current, utc,
  detach, detach_attached,
}
use unixtime_machine.Supervisor.Events.{
  become_ready, check_ready, record_output, mark_activity, deliver,
}
use unixtime_machine.Supervisor.Deadlines.{
  abandon_stop, check_stop_deadline, take_boundary, check_boundary, expire, expire_some,
  check_timeouts,
}

-- What was written to the terminal stays the same.
quiet : Frame Machine
quiet = record {
  relates = λ s t. t.sup.written ≡ s.sup.written;
  refl_at = λ s. refl;
  trans_at = λ s t u p q. q ∙ p;
}

module _ {A : Type 0} where
  on_host-quiet : (m : Exec Host A) → Within quiet (on_host m)
  unfolding on_host quiet
  on_host-quiet m = record { at = λ s. refl }

  reads-quiet : (f : Supervisor → A) → Within quiet (reads f)
  unfolding reads quiet
  reads-quiet f = record { at = λ s. refl }

sets-quiet :
    (f : Supervisor → Supervisor)
    → ((x : Supervisor) → (f x).written ≡ x.written)
    → Within quiet (sets f)
unfolding sets quiet
sets-quiet f e = record { at = λ s. e s.sup }

utc-quiet : Within quiet utc
unfolding utc quiet
utc-quiet = record { at = λ s. refl }

ruleset machine_rules = (frame_rules, on_host-quiet, reads-quiet, sets-quiet, utc-quiet)

note-quiet : (line : String) → Within quiet (note line)
unfolding note
note-quiet line = sets-quiet _ (λ x. refl)

update-quiet : (changes : SessionRecord → SessionRecord) → Within quiet (update changes)
unfolding update
update-quiet changes = search machine_rules

transition-quiet :
    (state : SessionState) (event : String) (detail : Detail)
    → Within quiet (transition state event detail)
unfolding transition
transition-quiet state event detail = search machine_rules

current-quiet : Within quiet current
unfolding current
current-quiet = search machine_rules

audit_current-quiet : (event : String) (detail : Detail) → Within quiet (audit_current event detail)
unfolding audit_current
audit_current-quiet event detail = search (machine_rules, current-quiet)

ruleset quiet_rules =
    (machine_rules, note-quiet, update-quiet, transition-quiet, current-quiet, audit_current-quiet)

detach_attached-quiet : Within quiet detach_attached
unfolding detach_attached
detach_attached-quiet = search quiet_rules depth 9

detach-quiet : Within quiet detach
unfolding detach
detach-quiet = search (quiet_rules, detach_attached-quiet)

abandon_stop-quiet : Within quiet abandon_stop
unfolding abandon_stop
abandon_stop-quiet = search quiet_rules depth 12

check_stop_deadline-quiet :
    (at : ℕ) (running : Bool) → Within quiet (check_stop_deadline at running)
unfolding check_stop_deadline
check_stop_deadline-quiet at running = search (quiet_rules, abandon_stop-quiet) depth 9

become_ready-quiet : Within quiet become_ready
unfolding become_ready
become_ready-quiet = search quiet_rules depth 9

check_ready-quiet : Within quiet check_ready
unfolding check_ready
check_ready-quiet = search (quiet_rules, become_ready-quiet)

record_output-quiet : (bytes : Bytes) → Within quiet (record_output bytes)
unfolding record_output
record_output-quiet bytes = sets-quiet _ (λ x. refl)

mark_activity-quiet : (at : ℕ) → Within quiet (mark_activity at)
unfolding mark_activity
mark_activity-quiet at = search quiet_rules depth 9

deliver-quiet : (fails : Bool) → Within quiet (deliver fails)
unfolding deliver
deliver-quiet fails = search (quiet_rules, detach-quiet)

take_boundary-quiet :
    (at : ℕ) (bytes : Bytes) (fails : Bool) → Within quiet (take_boundary at bytes fails)
unfolding take_boundary
take_boundary-quiet at [] fails = search quiet_rules
take_boundary-quiet at (b ∷ bytes) fails =
    search (quiet_rules, record_output-quiet, mark_activity-quiet, deliver-quiet, check_ready-quiet)
      depth 9

check_boundary-quiet :
    (at : ℕ) (bytes : Bytes) (fails : Bool) → Within quiet (check_boundary at bytes fails)
unfolding check_boundary
check_boundary-quiet at bytes fails = search (quiet_rules, take_boundary-quiet) depth 9

expire-quiet : (kind : String) → Within quiet (expire kind)
unfolding expire
expire-quiet kind = search quiet_rules depth 9

expire_some-quiet : (kind : Option String) → Within quiet (expire_some kind)
unfolding expire_some
expire_some-quiet none = search quiet_rules
expire_some-quiet (some kind) = expire-quiet kind

check_timeouts-quiet : (at : ℕ) → Within quiet (check_timeouts at)
unfolding check_timeouts
check_timeouts-quiet at = search (quiet_rules, expire_some-quiet) depth 9

-- No deadline makes the supervisor type: neither a stop that is given up, nor the last look at the
-- terminal at the readiness deadline, nor the expiry of readiness, of the idle time or of the total
-- time writes anything to the emulator, whether it ends well or raises.
pub deadlines_type_nothing :
    (at : ℕ) (running : Bool) (bytes : Bytes) (fails : Bool) (m : Machine)
    → ((check_stop_deadline at running m).1.sup.written ≡ m.sup.written)
      × ((check_boundary at bytes fails m).1.sup.written ≡ m.sup.written)
      × ((check_timeouts at m).1.sup.written ≡ m.sup.written)
unfolding quiet
deadlines_type_nothing at running bytes fails m = (
  (check_stop_deadline-quiet at running).at m,
  (check_boundary-quiet at bytes fails).at m,
  (check_timeouts-quiet at).at m,
)
