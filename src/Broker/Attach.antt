-- ===== src/Broker/Attach.antt =====
-- `Broker.attach`: the checks before a local client connects, and the relay between its terminal
-- and the supervisor's socket.
use unixtime_machine.Prelude.{
  ℕ, ◌≡◌, refl, ap, ◌==◌, Bool, true, false, not, any, List, [], ◌∷◌, ◌++◌, Option, none, some,
  String, str_eq, if◌then◌else◌,
}
use unixtime_machine.Prelude.Bytes.{Bytes, bytes}
use unixtime_machine.Errors.{not_attachable, no_console_transport, console_unavailable}
use unixtime_machine.Exec.{Exec, or_raise, raise_if, pure, ◌>>=◌, ◌>>◌}
use unixtime_machine.Models.{SessionRecord, starting, ready, active, one_of, value}
use unixtime_machine.Host.{Host}
use unixtime_machine.Broker.Base.{get}

-- What the selector reports: bytes from the supervisor's socket or from the local input, where
-- nothing stands for the end of the stream.
pub data Relayed : Type 0 where
  socket : Bytes → Relayed
  input : Bytes → Relayed

-- What was written to the local output and to the socket, oldest first, and whether it is over.
pub record Relay : Type 0 where
  pub shown : List Bytes
  pub sent : List Bytes
  pub ended : Bool

abbrev pub over : List Bytes → Relay
over sent = record { shown = []; sent = sent; ended = true }

abbrev pub shows : Bytes → Relay → Relay
shows chunk rest = record rest { shown = chunk ∷ rest.shown }

abbrev pub sends : Bytes → Relay → Relay
sends chunk rest = record rest { sent = chunk ∷ rest.sent }

-- `b"\x1d" in data`
abbrev pub has_escape : Bytes → Bool
has_escape = any (λ b. b == 0x1d)

-- The loop of `attach`
unfoldable pub relay : List Relayed → Relay
relay [] = record { shown = []; sent = []; ended = false }
relay (socket [] ∷ events) = over []
relay (socket (b ∷ bs) ∷ events) = shows (b ∷ bs) (relay events)
relay (input [] ∷ events) = over []
relay (input (b ∷ bs) ∷ events) =
    let rest = relay events in
    if has_escape (b ∷ bs) then over ((b ∷ bs) ∷ []) else sends (b ∷ bs) rest

abbrev banner : Bytes
banner = bytes "Local attach; Ctrl-] detaches, Ctrl-E is passed to SIMH.\r\n"

-- `not record.socket_path`
abbrev pub usable_path : Option String → Option String
usable_path none = none
usable_path (some path) = if str_eq path "" then none else some path

abbrev pub is_attachable : SessionRecord → Bool
is_attachable r = one_of r.state (starting ∷ ready ∷ active ∷ [])

-- `Broker.attach`; `accepts` tells whether a connection to the socket succeeds.
unfoldable pub attach : String → (String → Bool) → List Relayed → Exec Host Relay
unfolding ◌>>=◌ get raise_if or_raise pure relay
attach session_id accepts events = do
  r ← get session_id
  raise_if (not (is_attachable r)) (not_attachable (value r.state))
  path ← or_raise no_console_transport (usable_path r.socket_path)
  raise_if (not (accepts path)) console_unavailable
  pure (shows banner (relay events))

-- Chunks that do not end the relay: none is empty, and the local input holds no escape.
pub data Passing : List Relayed → Type 0 where
  no_more : Passing []
  from_socket :
      {b : ℕ} {bs : Bytes} {events : List Relayed}
      → Passing events
      → Passing (socket (b ∷ bs) ∷ events)
  from_input :
      {b : ℕ} {bs : Bytes} {events : List Relayed}
      → has_escape (b ∷ bs) ≡ false
      → Passing events
      → Passing (input (b ∷ bs) ∷ events)

abbrev pub outputs : List Relayed → List Bytes
outputs [] = []
outputs (socket chunk ∷ events) = chunk ∷ outputs events
outputs (input chunk ∷ events) = outputs events

abbrev pub inputs : List Relayed → List Bytes
inputs [] = []
inputs (socket chunk ∷ events) = inputs events
inputs (input chunk ∷ events) = chunk ∷ inputs events

relay_continues :
    (b : ℕ) (bs : Bytes) (events : List Relayed)
    → has_escape (b ∷ bs) ≡ false
    → relay (input (b ∷ bs) ∷ events) ≡ sends (b ∷ bs) (relay events)
unfolding relay
relay_continues b bs events e = rw e refl

relay_stops :
    (b : ℕ) (bs : Bytes) (events : List Relayed)
    → has_escape (b ∷ bs) ≡ true
    → relay (input (b ∷ bs) ∷ events) ≡ over ((b ∷ bs) ∷ [])
unfolding relay
relay_stops b bs events e = rw e refl

abbrev pub detached : List Relayed → Bytes → Relay
detached events chunk = record {
  shown = outputs events;
  sent = inputs events ++ chunk ∷ [];
  ended = true;
}

-- While no stream ends, and up to the first chunk of input that holds the escape, the relay passes every chunk on, in order
-- and unchanged in both directions; that chunk is still sent, the relay is over, and nothing that
-- follows is read.
pub relay_until_escape :
    (events rest : List Relayed) (b : ℕ) (bs : Bytes)
    → Passing events
    → has_escape (b ∷ bs) ≡ true
    → relay (events ++ input (b ∷ bs) ∷ rest) ≡ detached events (b ∷ bs)
unfolding relay
relay_until_escape [] rest b bs passing e = relay_stops b bs rest e
relay_until_escape (socket [] ∷ events) rest b bs passing e = elim passing [ ]
relay_until_escape (input [] ∷ events) rest b bs passing e = elim passing [ ]
relay_until_escape (socket (c ∷ cs) ∷ events) rest b bs (from_socket passing) e =
    ap (shows (c ∷ cs)) (relay_until_escape events rest b bs passing e)
relay_until_escape (input (c ∷ cs) ∷ events) rest b bs (from_input quiet passing) e =
    rw (relay_continues c cs (events ++ input (b ∷ bs) ∷ rest) quiet)
      (ap (sends (c ∷ cs)) (relay_until_escape events rest b bs passing e))
