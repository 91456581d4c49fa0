-- ===== src/Tests/Command.antt =====
-- A system that runs as process 40, its stop, and what is recorded of it.
use unixtime_machine.Prelude.{◌≡◌, refl, true, false, [], ◌∷◌, none, some}
use unixtime_machine.Prelude.Int.{pos}
use unixtime_machine.Prelude.Dict.{Dict, lookup}
use unixtime_machine.Outcome.{ok}
use unixtime_machine.Process.{delivered, no_process}
use unixtime_machine.Command.{
  Entry, number_entry, text_entry, termination_entry, state, Desk, write_state, StopArguments,
  StopScene, same_flag, system_stop, record_exit,
}
use unixtime_machine.Command.Evidence.{Refuses, system_stop-Refuses, termination_of, stop_then_exit}

abbrev running : Dict Entry
running = ("pid", number_entry (pos 40)) ∷ ("session_id", text_entry "v7-1") ∷ []

abbrev desk : Desk
desk = record { file = state running; interrupted = [] }

abbrev arguments : StopArguments
arguments = record { session_id = none; guest_synced = true; failed_boot = false }

abbrev neither : StopArguments
neither = record arguments { guest_synced = false }

abbrev scene : StopScene
scene = record {
  probe = λ pid. delivered;
  refused = none;
  rounds =
      record { others = λ d. d; probe = delivered }
      ∷ record { others = λ d. d; probe = no_process }
      ∷ [];
  stopped_at = 99;
}

system_stop-Refuses_example : Refuses (system_stop neither scene) desk
system_stop-Refuses_example = system_stop-Refuses neither scene desk refl

stop_then_exit_example :
    (same_flag true false ≡ false)
    × (entries : Dict Entry) × (record_exit running
          (pos 40)
          (some (pos 0))
          (system_stop arguments scene desk).1
        ≡ (ok tt, write_state entries (system_stop arguments scene desk).1))
    × (lookup "termination" entries ≡ some (termination_entry (termination_of arguments scene)))
unfolding system_stop lookup
stop_then_exit_example =
    stop_then_exit arguments scene desk (system_stop arguments scene desk).1 0 running (pos 40)
      (some (pos 0)) refl
