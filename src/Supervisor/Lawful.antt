-- ===== src/Supervisor/Lawful.antt =====
-- The state files under the events of broker/supervisor.py.
use unixtime_machine.Prelude.{Bool, List, [], ◌∷◌, ℕ}
use unixtime_machine.Prelude.Bytes.{Bytes}
use unixtime_machine.Exec.Frame.{Within, Within-for_each}
use unixtime_machine.Models.{SessionRecord}
use unixtime_machine.Supervisor.Events.{
  Event, connect, console, client, become_ready, check_ready, record_output, mark_activity, deliver,
  observe_output, on_console, begin_readiness, keep_readiness, announce_attach, accept_client,
  on_connect, type_input, leave, on_client, on_event, on_events,
}
use unixtime_machine.Supervisor.History.{machine_history, supervisor_rules, Within-sets}

become_ready-history : Within machine_history become_ready
unfolding become_ready
become_ready-history = search supervisor_rules depth 9

pub check_ready-history : Within machine_history check_ready
unfolding check_ready
check_ready-history = search (supervisor_rules, become_ready-history)

record_output-history : (bytes : Bytes) → Within machine_history (record_output bytes)
unfolding record_output
record_output-history bytes = Within-sets _

pub mark_activity-history : (at : ℕ) → Within machine_history (mark_activity at)
unfolding mark_activity
mark_activity-history at = search supervisor_rules depth 9

pub deliver-history : (fails : Bool) → Within machine_history (deliver fails)
unfolding deliver
deliver-history fails = search supervisor_rules

observe_output-history : (at : ℕ) (bytes : Bytes) → Within machine_history (observe_output at bytes)
unfolding observe_output
observe_output-history at bytes = search supervisor_rules

ruleset output_rules = (
  supervisor_rules, check_ready-history, record_output-history, mark_activity-history,
  deliver-history, observe_output-history,
)

on_console-history :
    (at : ℕ) (bytes : Bytes) (fails : Bool) → Within machine_history (on_console at bytes fails)
unfolding on_console
on_console-history at [] fails = search supervisor_rules
on_console-history at (b ∷ bytes) fails = search output_rules depth 9

begin_readiness-history : (at : ℕ) → Within machine_history (begin_readiness at)
unfolding begin_readiness
begin_readiness-history at = search supervisor_rules depth 9

keep_readiness-history : Within machine_history keep_readiness
unfolding keep_readiness
keep_readiness-history = search supervisor_rules

announce_attach-history : (r : SessionRecord) → Within machine_history (announce_attach r)
unfolding announce_attach
announce_attach-history r = search supervisor_rules depth 9

accept_client-history : (at : ℕ) → Within machine_history (accept_client at)
unfolding accept_client
accept_client-history at =
    search
      (supervisor_rules, announce_attach-history, begin_readiness-history, keep_readiness-history)
      depth 9

on_connect-history : (at : ℕ) → Within machine_history (on_connect at)
unfolding on_connect
on_connect-history at = search (supervisor_rules, accept_client-history)

type_input-history : (bytes : Bytes) → Within machine_history (type_input bytes)
unfolding type_input
type_input-history bytes = search supervisor_rules

leave-history : (bytes : Bytes) → Within machine_history (leave bytes)
unfolding leave
leave-history bytes = search (supervisor_rules, type_input-history)

on_client-history : (at : ℕ) (bytes : Bytes) → Within machine_history (on_client at bytes)
unfolding on_client
on_client-history at bytes =
    search (supervisor_rules, leave-history, type_input-history, mark_activity-history) depth 9

on_event-history : (at : ℕ) (e : Event) → Within machine_history (on_event at e)
unfolding on_event
on_event-history at connect = on_connect-history at
on_event-history at (console bytes fails) = on_console-history at bytes fails
on_event-history at (client bytes) = on_client-history at bytes

pub on_events-history :
    (at : ℕ) (events : List Event) → Within machine_history (on_events at events)
unfolding on_events
on_events-history at events = Within-for_each events (on_event at) (on_event-history at)
