-- ===== src/Supervisor/Events.antt =====
-- The events that the selector reports in one round of the loop, and what each does.
use unixtime_machine.Config.{after}
use unixtime_machine.Prelude.{
  ℕ, Bool, true, false, ◌&&◌, ◌||◌, not, any, last, List, [], ◌∷◌, ◌++◌, Option, some, is_some,
  ◌==◌, if◌then◌else◌,
}
use unixtime_machine.Prelude.Bytes.{Bytes, occurs_in}
use unixtime_machine.Errors.{no_client}
use unixtime_machine.Exec.{Action, pure, raise_if, when, choose, for_each, ◌>>=◌, ◌>>◌}
use unixtime_machine.Models.{SessionRecord, starting, ready, active, same_state}
use unixtime_machine.Host.{text}
use unixtime_machine.Shutdown.{Phase, monitor, exit, observe, invalidate_on_input}
use unixtime_machine.Supervisor.State.{
  Supervisor, Machine, reads, sets, perform, write_master, update, transition, current,
  audit_current, utc, detach,
}

-- `console` and `client` carry what was read, where nothing stands for the end of the stream;
-- whether a delivery to the attached client fails comes with the console's output.
pub data Event : Type 0 where
  connect : Event
  console : Bytes → Bool → Event
  client : Bytes → Event

abbrev pub console_tail_size : ℕ
console_tail_size = 16384

-- `any(pattern.encode() in tail for pattern in spec["patterns"])`
abbrev pub shows_pattern : Supervisor → Bool
shows_pattern x = any (λ pattern. occurs_in pattern x.tail) x.patterns

-- The readiness marker has been seen.
unfoldable pub become_ready : Action Machine
unfolding ◌>>=◌ sets transition utc update reads when pure
become_ready = do
  sets (λ x. record x { is_ready = true })
  transition ready "readiness_result" (("result", text "pass") ∷ [])
  now ← utc
  update (λ r. record r { ready_at = some now })
  attached ← reads (λ x. x.attached)
  when attached
      (do transition active "activate" (("reason", text "ready-while-attached") ∷ []); pure tt)

-- `if not self.ready and any(…)`
unfoldable pub check_ready : Action Machine
unfolding ◌>>=◌ reads when become_ready
check_ready = do seen ← reads (λ x. not x.is_ready && shows_pattern x); when seen become_ready

-- The output of the terminal as it enters the transcript and the tail.
unfoldable pub record_output : Bytes → Action Machine
unfolding sets
record_output bytes = sets λ x. record x {
  transcript = x.transcript ++ bytes;
  tail = last console_tail_size (x.tail ++ bytes);
}

unfoldable pub mark_activity : ℕ → Action Machine
unfolding ◌>>=◌ sets utc update pure
mark_activity at = do
  sets (λ x. record x { last_activity = at })
  now ← utc
  update (λ r. record r { last_activity_at = some now })
  pure tt

-- `self.attached.sendall(data)`, with `detach` where it raises
unfoldable pub deliver : Bool → Action Machine
unfolding ◌>>=◌ reads when detach
deliver fails = do attached ← reads (λ x. x.attached); when (attached && fails) detach

abbrev pub confirms : Option Phase → Option Phase → Bool
confirms (some monitor) (some exit) = true
confirms _ _ = false

-- The shutdown driver sees the output; a confirmed prompt renews the deadline.
unfoldable pub observe_output : ℕ → Bytes → Action Machine
unfolding ◌>>=◌ reads perform sets observe
observe_output at bytes = do
  (phase, driver, effects) ← reads (λ x. observe x.driver bytes x.is_ready x.shutdown_phase)
  perform effects
  sets (λ x. record x {
    driver = driver;
    shutdown_phase = phase;
    shutdown_deadline =
        if confirms x.shutdown_phase phase
        then some (after at x.config.shutdown_timeout)
        else x.shutdown_deadline;
  })

unfoldable pub on_console : ℕ → Bytes → Bool → Action Machine
unfolding ◌>>=◌ record_output observe_output mark_activity deliver check_ready pure
on_console at [] fails = pure tt
on_console at (b ∷ bytes) fails = do
  record_output (b ∷ bytes)
  observe_output at (b ∷ bytes)
  mark_activity at
  deliver fails
  check_ready

-- A first attachment starts the readiness deadline.
unfoldable pub begin_readiness : ℕ → Action Machine
unfolding ◌>>=◌ sets audit_current utc update pure
begin_readiness at = do
  sets (λ x. record x { readiness_deadline = some (after at x.config.readiness_timeout) })
  audit_current "readiness_begin" (("trigger", text "first-attach") ∷ [])
  now ← utc
  update (λ r. record r {
    attached_at = some now;
    last_activity_at = some now;
    readiness_started_at = some now;
  })
  pure tt

unfoldable pub keep_readiness : Action Machine
unfolding ◌>>=◌ utc update pure
keep_readiness = do
  now ← utc
  update (λ r. record r { attached_at = some now; last_activity_at = some now })
  pure tt

unfoldable pub announce_attach : SessionRecord → Action Machine
unfolding ◌>>=◌ choose transition audit_current pure
announce_attach r =
    choose (same_state r.state ready) (do transition active "attach" []; pure tt)
      (audit_current "attach" [])

unfoldable pub accept_client : ℕ → Action Machine
unfolding ◌>>=◌ sets current announce_attach reads choose begin_readiness keep_readiness
accept_client at = do
  sets (λ x. record x { attached = true; last_activity = at })
  r ← current
  announce_attach r
  waiting ← reads (λ x. not (is_some x.readiness_deadline))
  choose (same_state r.state starting && waiting) (begin_readiness at) keep_readiness

-- A second client is told that the session is attached, and is sent away.
unfoldable pub on_connect : ℕ → Action Machine
unfolding ◌>>=◌ reads when accept_client
on_connect at = do attached ← reads (λ x. x.attached); when (not attached) (accept_client at)

-- `data.split(b"\x1d", 1)[0]`
abbrev pub before_escape : Bytes → Bytes
before_escape [] = []
before_escape (b ∷ bytes) = let rest = before_escape bytes in if b == 0x1d then [] else b ∷ rest

abbrev pub has_escape : Bytes → Bool
has_escape = any (λ b. b == 0x1d)

abbrev pub is_empty : Bytes → Bool
is_empty [] = true
is_empty (_ ∷ _) = false

-- Input goes to the emulator and voids the driver's evidence.
unfoldable pub type_input : Bytes → Action Machine
unfolding ◌>>=◌ write_master sets invalidate_on_input
type_input bytes = do
  write_master bytes
  sets (λ x. record x { driver = invalidate_on_input x.driver })

unfoldable pub leave : Bytes → Action Machine
unfolding ◌>>=◌ when type_input detach
leave before = do when (not (is_empty before)) (type_input before); detach

-- The client may have been detached earlier in the same round; `recv` then meets `None`.
unfoldable pub on_client : ℕ → Bytes → Action Machine
unfolding ◌>>=◌ reads raise_if choose leave type_input mark_activity
on_client at bytes = do
  attached ← reads (λ x. x.attached)
  raise_if (not attached) no_client
  choose (is_empty bytes || has_escape bytes) (leave (before_escape bytes))
      (do type_input bytes; mark_activity at)

unfoldable pub on_event : ℕ → Event → Action Machine
unfolding on_connect on_console on_client
on_event at connect = on_connect at
on_event at (console bytes fails) = on_console at bytes fails
on_event at (client bytes) = on_client at bytes

unfoldable pub on_events : ℕ → List Event → Action Machine
unfolding for_each on_event
on_events at events = for_each events (on_event at)
