-- ===== src/Shutdown.antt =====
-- broker/shutdown.py: the SIMH monitor's shutdown handshake. What the driver sends to the emulator's
-- terminal and writes to the control log comes back beside its new state.
pub mod Prompt
pub mod Handshake
use unixtime_machine.Prelude.{
  ℕ, Bool, true, false, ◌&&◌, ◌||◌, not, List, [], ◌∷◌, ◌++◌, Option, none, some, String, is_some,
  last, or_else, str_eq, if◌then◌else◌,
}
use unixtime_machine.Prelude.Bytes.{Bytes, occurs_in}
use unixtime_machine.Errors.{unsupported_driver}
use unixtime_machine.Outcome.{Outcome, ok, raised}
use unixtime_machine.Host.{ShutdownSpec}

-- `"monitor"` and `"exit"`; before a stop is begun the phase is `None`.
pub data Phase : Type 0 where
  monitor exit : Phase

pub record Driver : Type 0 where
  pub enter : Bytes
  pub prompt : Bytes
  pub quit : Bytes
  pub may_already_be_active : Bool
  pub monitor_already_active : Bool
  pub live_tail : Bytes
  pub shutdown_tail : Bytes

-- What a call of the driver sends and logs.
pub record Effects : Type 0 where
  pub sent : List Bytes
  pub notes : List String

abbrev pub no_effects : Effects
no_effects = record { sent = []; notes = [] }

abbrev pub also : Effects → Effects → Effects
also a b = record { sent = a.sent ++ b.sent; notes = a.notes ++ b.notes }

abbrev pub tail_size : ℕ
tail_size = 4096

-- `SimhMonitorShutdownDriver.__init__`
abbrev pub new_driver : ShutdownSpec → Driver
new_driver spec = record {
  enter = spec.monitor_enter;
  prompt = spec.monitor_prompt;
  quit = spec.monitor_quit;
  may_already_be_active = spec.monitor_may_already_be_active;
  monitor_already_active = false;
  live_tail = [];
  shutdown_tail = [];
}

-- `shutdown_driver`
unfoldable pub shutdown_driver : ShutdownSpec → Outcome Driver
shutdown_driver spec =
    let kind = or_else spec.driver "simh-monitor" in
    if str_eq kind "simh-monitor" then ok (new_driver spec) else raised (unsupported_driver kind)

-- `begin`
unfoldable pub begin : Driver → Phase × Driver × Effects
begin d =
    if d.may_already_be_active && d.monitor_already_active
    then (
      exit,
      d,
      record {
        sent = d.quit ∷ [];
        notes = "monitor already active; fresh prompt previously observed" ∷ "quit sent" ∷ [];
      },
    )
    else (
      monitor,
      record d { shutdown_tail = [] },
      record { sent = d.enter ∷ []; notes = "Ctrl-E sent" ∷ [] },
    )

-- The first `if` of `observe`: watch for a prompt while no stop is in progress.
watch : Driver → Bytes → Bool → Option Phase → Driver × Effects
watch d bytes ready phase =
    if d.may_already_be_active && ready && not (is_some phase)
    then (let tail = last tail_size (d.live_tail ++ bytes) in
        let seen = occurs_in d.prompt tail in
        (
          record d { live_tail = tail; monitor_already_active = seen || d.monitor_already_active },
          record {
            sent = [];
            notes = if seen then "fresh live monitor prompt observed" ∷ [] else [];
          },
        ))
    else (d, no_effects)

-- The second `if`: in the phase `monitor` the prompt is answered with `quit`.
await_prompt : Driver → Bytes → Option Phase → Option Phase × Driver × Effects
await_prompt d bytes (some monitor) =
    let tail = last tail_size (d.shutdown_tail ++ bytes) in
    let d' = record d { shutdown_tail = tail } in
    if occurs_in d.prompt tail
    then (
      some exit,
      d',
      record { sent = d.quit ∷ []; notes = "monitor prompt observed" ∷ "quit sent" ∷ [] },
    )
    else (some monitor, d', no_effects)
await_prompt d bytes (some exit) = (some exit, d, no_effects)
await_prompt d bytes none = (none, d, no_effects)

-- `observe`
unfoldable pub observe : Driver → Bytes → Bool → Option Phase → Option Phase × Driver × Effects
unfolding watch await_prompt
observe d bytes ready phase =
    let (d', seen) = watch d bytes ready phase in
    let (phase', d'', answered) = await_prompt d' bytes phase in (phase', d'', also seen answered)

-- `invalidate_on_input`
unfoldable pub invalidate_on_input : Driver → Driver
invalidate_on_input d =
    if d.may_already_be_active
    then record d { monitor_already_active = false; live_tail = [] }
    else d
