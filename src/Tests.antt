-- ===== src/Tests.antt =====
-- Runs of the theorems on concrete sessions, machines and configurations.
pub mod Hosts
mod Command
mod Import
mod Runtime
mod Validation
use unixtime_machine.Prelude.{
  any, not, ◌||◌, str_eq, take, arith, ◌<◌, ℕ, if◌then◌else◌, ◌≡◌, refl, ◌≤◌, ◌≢◌, Bool, true,
  false, List, [], ◌∷◌, Option, none, some, String,
}
use unixtime_machine.Prelude.Bytes.{Bytes, bytes, occurs_in, bytes_eq}
use unixtime_machine.Models.{
  SessionState, requested, allocated, starting, ready, active, stopping, resetting, released,
  failed, allowed,
}
use unixtime_machine.Models.Reachable.{Reach, here, next}
use unixtime_machine.Models.Graph.{
  phase, phase_mono, released_final, released_after_resetting, releasable, Passes,
}
use unixtime_machine.Config.{BrokerConfig, load}
use unixtime_machine.Outcome.{ok}
use unixtime_machine.Readiness.{
  Round, readiness, result_of, verdict, is_marked, is_late, in_time, readiness_lem,
}
use unixtime_machine.Prelude.Int.{pos}
use unixtime_machine.Prelude.Dict.{lookup, put}
use unixtime_machine.Store
use unixtime_machine.Store.{save, audit}
use unixtime_machine.Exec
use unixtime_machine.Exec.{choose, pure, raise_if, when}
use unixtime_machine.Broker.Attach.{
  socket, input, relay, detached, relay_until_escape, from_socket, from_input, no_more, Relayed,
}
use unixtime_machine.Broker.Reconcile.{reconcile}
use unixtime_machine.Broker.Reconcile.Evidence.{Untouched, reconcile-Untouched}
use unixtime_machine.Supervisor.State
use unixtime_machine.Supervisor.State.{
  reads, note, sets, update, on_host, update_record, move_record,
}
use unixtime_machine.Supervisor.Deadlines.{
  check_stop_deadline, check_boundary, check_timeouts, emulator_exit, end_session,
  exit_after_failure,
}
use unixtime_machine.Supervisor.Quiet.{deadlines_type_nothing}
use unixtime_machine.Supervisor.Exit.{may_release, status_zero_confirmed}
use unixtime_machine.Media.Boot.{
  decode_boot42, decode_encoded, decode_lines, decode_line, declared_in, split_end,
  decode_boot42_complete,
}
use unixtime_machine.Media.Sources.{Preparation, IsReady, check_sources, check_sources_lem}
use unixtime_machine.Media.Tape
use unixtime_machine.Media.Tape.{AllSized, payloads, payloads_lem}
use unixtime_machine.Media.Verify.{
  MediaItem, MediaFile, Directory, IsVerified, found_files, verify_item, pass_needs_hash,
}
use unixtime_machine.Store.Filed.{Kept, Lawful-refl}
use unixtime_machine.Broker.Request.{request}
use unixtime_machine.Broker.Stop.{stop}
use unixtime_machine.Broker.Release.{release}
use unixtime_machine.Broker.Transitions.{request-Kept, release-Kept}
use unixtime_machine.Supervisor.State.{Machine}
use unixtime_machine.Supervisor.Loop.{supervise, Tick}
use unixtime_machine.Supervisor.Rounds.{supervise-Kept, last_round, next_round}
use unixtime_machine.Shutdown.{Phase, monitor, exit, Driver, begin, observe, invalidate_on_input}
use unixtime_machine.Shutdown.Prompt.{confirmed, joined}
use unixtime_machine.Shutdown.Handshake.{
  feed, outcome, answer, opened, opening, quit_iff_prompt, exit_needs_prompt,
  begin-invalidate_on_input, begin_after_halt,
}
use unixtime_machine.Tests.Hosts.{
  one_failed, one_failed-IsFiled, v7_site, v7_site-IsLawful, quick_start, machine, tick,
  simh_driver, failed_record, still_running, one_prepared, one_prepared-IsFiled, prepared_machine,
  first_tick,
}

phase_mono_example : phase requested ≤ phase failed
phase_mono_example =
    phase_mono {s = requested} {t = failed}
      (next {t = allocated} (next {t = requested} here refl) refl)

released_final_example : released ≡ released
released_final_example = released_final here

failed_not_released : failed ≢ released
failed_not_released e = cc

released_after_resetting_example :
    Passes {s = failed} resetting released (next {t = resetting} (next {t = failed} here refl) refl)
released_after_resetting_example =
    released_after_resetting {s = failed} (next {t = resetting} (next {t = failed} here refl) refl)
      failed_not_released

releasable_example : Reach active released
releasable_example = releasable active

request-Kept_example : Kept one_failed (request v7_site quick_start "unix-v7" none one_failed).1
request-Kept_example =
    request-Kept v7_site quick_start "unix-v7" none one_failed v7_site-IsLawful tt
      one_failed-IsFiled

release-Kept_example : Kept one_failed (release v7_site "v7-1" one_failed).1
release-Kept_example = release-Kept v7_site "v7-1" one_failed one_failed-IsFiled

-- The session starts, becomes ready and active, is stopped and released.
abbrev two_ticks : List Tick
two_ticks = first_tick ∷ tick ∷ []

supervise-Kept_example :
    Kept one_prepared (supervise v7_site 30 40 none two_ticks prepared_machine).1.host
supervise-Kept_example =
    supervise-Kept v7_site 30 40 none two_ticks prepared_machine
      (next_round (λ h. Lawful-refl h) (next_round (λ h. Lawful-refl h) last_round))
      one_prepared-IsFiled

-- The prompt comes in two chunks, after the stop was begun.
abbrev prompt_chunks : List Bytes
prompt_chunks = (115 ∷ 105 ∷ []) ∷ (109 ∷ 62 ∷ []) ∷ []

quit_iff_prompt_example :
    let (phase, d', effects) = begin simh_driver in
    (effects.sent ≡ simh_driver.enter ∷ [])
    × (outcome (feed true prompt_chunks (some phase) d')
        ≡ answer (confirmed simh_driver.prompt [] prompt_chunks) simh_driver.quit)
quit_iff_prompt_example = quit_iff_prompt simh_driver true prompt_chunks refl

exit_needs_prompt_example : occurs_in simh_driver.prompt (joined prompt_chunks) ≡ true
unfolding feed begin observe occurs_in
exit_needs_prompt_example = exit_needs_prompt simh_driver true prompt_chunks refl refl

-- The prompt stands on both tails, and counts as seen.
abbrev prompted : Driver
prompted = record simh_driver {
  monitor_already_active = true;
  live_tail = bytes "sim>";
  shutdown_tail = bytes "sim>";
}

begin-invalidate_on_input_example :
    let (phase, d', effects) = begin (invalidate_on_input prompted) in
    (effects.sent ≡ prompted.enter ∷ [])
    × (outcome (feed true prompt_chunks (some phase) d')
        ≡ answer (confirmed prompted.prompt [] prompt_chunks) prompted.quit)
begin-invalidate_on_input_example = begin-invalidate_on_input prompted true prompt_chunks refl

begin_after_halt_example :
    opened (begin (feed true prompt_chunks none (invalidate_on_input prompted)).1)
    ≡ opening (confirmed prompted.prompt [] prompt_chunks) prompted
begin_after_halt_example = begin_after_halt prompted prompt_chunks refl

payloads_lem_example :
    AllSized 2 (payloads 3 2 (7 ∷ 8 ∷ 9 ∷ []))
    × (take 3 (Tape.joined (payloads 3 2 (7 ∷ 8 ∷ 9 ∷ []))) ≡ 7 ∷ 8 ∷ 9 ∷ [])
payloads_lem_example = payloads_lem (7 ∷ 8 ∷ 9 ∷ []) 2 (omega arith)

-- The hash of the file is in upper case, that of the manifest in lower case.
abbrev boot_item : MediaItem
boot_item = record {
  logical_name = "boot";
  filenames = "boot.tap" ∷ "boot.bin" ∷ [];
  explicit = false;
  required = true;
  size = some 512;
  sha256 = some (b'a' ∷ b'0' ∷ []);
}

abbrev boot_directory : Directory
boot_directory name =
    if str_eq name "boot.bin"
    then some (record { st_size = 512; digest = b'A' ∷ b'0' ∷ [] })
    else none

pass_needs_hash_example : IsVerified boot_item (found_files boot_directory boot_item.filenames)
unfolding verify_item bytes_eq
pass_needs_hash_example = pass_needs_hash boot_directory boot_item refl refl

deadlines_type_nothing_example :
    ((check_stop_deadline 9 true machine).1.sup.written ≡ [])
    × ((check_boundary 9 [] false machine).1.sup.written ≡ [])
    × ((check_timeouts 9 machine).1.sup.written ≡ [])
deadlines_type_nothing_example = deadlines_type_nothing 9 true [] false machine

-- The emulator of a failed session ends.
status_zero_confirmed_example : may_release false failed_record ≡ true
unfolding emulator_exit reads when note sets update on_host update_record Store.load save
    end_session exit_after_failure State.transition move_record choose pure Store.transition
    raise_if audit lookup put Exec.◌>>=◌
status_zero_confirmed_example =
    status_zero_confirmed (pos 0) machine (emulator_exit (pos 0) machine).1 failed_record refl refl

abbrev passed_on : List Relayed
passed_on = socket (104 ∷ 105 ∷ []) ∷ input (108 ∷ []) ∷ []

relay_until_escape_example :
    relay
      (socket (104 ∷ 105 ∷ []) ∷ input (108 ∷ []) ∷ input (115 ∷ 29 ∷ []) ∷ input (120 ∷ []) ∷ [])
    ≡ detached passed_on (115 ∷ 29 ∷ [])
relay_until_escape_example =
    relay_until_escape passed_on (input (120 ∷ []) ∷ []) 115 (29 ∷ [])
      (from_socket (from_input refl no_more)) refl

-- The line `#0V%T` of uuencoded text stands for the bytes of `Cat`.
abbrev cat_decoder : Bytes → Option Bytes
cat_decoder line = if bytes_eq line (bytes "#0V%T") then some (bytes "Cat") else some []

abbrev cat_lines : List Bytes
cat_lines = bytes "#0V%T" ∷ bytes "`" ∷ bytes "end" ∷ []

decode_boot42_complete_example : (3 ≡ declared_in (split_end cat_lines)) × (0 < 3)
unfolding decode_boot42 decode_encoded decode_lines decode_line bytes_eq
decode_boot42_complete_example =
    decode_boot42_complete cat_decoder (bytes "begin 700 boot42") cat_lines (bytes "Cat") refl

-- Every file is there but the two encoded bootstraps.
abbrev full_set : Preparation
full_set = record {
  source = "media" ∷ "43bsd" ∷ [];
  source_is_dir = true;
  destination = "media" ∷ "43bsd-simh" ∷ [];
  exists = false;
  has_file = λ name. not (str_eq name "boot42.uue" || str_eq name "boot42.uu");
}

check_sources_lem_example : IsReady full_set ("boot42" ∷ [])
unfolding check_sources
check_sources_lem_example = check_sources_lem full_set ("boot42" ∷ []) refl

reconcile-Untouched_example : Untouched still_running (reconcile still_running).1
reconcile-Untouched_example = reconcile-Untouched still_running

abbrev two_rounds : List Round
two_rounds = (none, 1) ∷ (some (bytes "login:"), 7) ∷ []

readiness_lem_example :
    result_of (readiness (bytes "login:" ∷ []) 5 [] two_rounds)
    ≡ verdict
        (any (is_marked (bytes "login:" ∷ [])) (in_time 5 two_rounds))
        (any (is_late 5) two_rounds)
readiness_lem_example = readiness_lem (bytes "login:" ∷ []) 5 [] two_rounds
