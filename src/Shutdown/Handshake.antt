-- ===== src/Shutdown/Handshake.antt =====
-- The driver of broker/shutdown.py over a stream of chunks, from `begin` on.
use unixtime_machine.Prelude.{
  ◌≡◌, refl, ap, ◌∙◌, Bool, true, false, ◌&&◌, ◌||◌, List, [], ◌∷◌, ◌++◌, Option, none, some, arith,
  last, last-last, Bool-cases, inl, inr,
}
use unixtime_machine.Prelude.Bytes.{Bytes, occurs_in}
use unixtime_machine.Shutdown.{
  Phase, monitor, exit, Driver, Effects, tail_size, begin, observe, watch, invalidate_on_input,
}
use unixtime_machine.Shutdown.Prompt.{confirmed, joined, confirmed_shown}

-- The driver fed with chunks in turn: its phase, its state and all that it sent.
unfoldable pub feed : Bool → List Bytes → Option Phase → Driver → Option Phase × Driver × List Bytes
feed ready [] phase d = (phase, d, [])
feed ready (c ∷ cs) phase d =
    let (phase', d', effects) = observe d c ready phase in
    let (phase'', d'', sent) = feed ready cs phase' d' in (phase'', d'', effects.sent ++ sent)

feed_exit :
    (ready : Bool) (cs : List Bytes) (d : Driver) → feed ready cs (some exit) d ≡ (some exit, d, [])
unfolding feed observe watch
feed_exit ready [] d = refl
feed_exit ready (c ∷ cs) d = elim (Bool-cases (d.may_already_be_active && ready && false)) [
  | inl e ↦ ground arith
  | inr e ↦ rw e (rw (feed_exit ready cs d))
]

-- The outcome of the wait for the prompt.
abbrev pub answer : Bool → Bytes → Option Phase × List Bytes
answer true quit = (some exit, quit ∷ [])
answer false quit = (some monitor, [])

abbrev pub outcome : Option Phase × Driver × List Bytes → Option Phase × List Bytes
outcome (phase, d, sent) = (phase, sent)

abbrev grown : Driver → Bytes → Driver
grown d c = record d { shutdown_tail = last tail_size (d.shutdown_tail ++ c) }

abbrev answered : Effects
answered = record { sent = []; notes = "monitor prompt observed" ∷ "quit sent" ∷ [] }

observe_seen :
    (d : Driver) (c : Bytes) (ready : Bool)
    → occurs_in d.prompt (last tail_size (d.shutdown_tail ++ c)) ≡ true
    → observe d c ready (some monitor)
      ≡ (some exit, grown d c, record answered { sent = d.quit ∷ [] })
unfolding observe
observe_seen d c ready e = elim (Bool-cases (d.may_already_be_active && ready && false)) [
  | inl w ↦ ground arith
  | inr w ↦ rw w (rw e)
]

observe_unseen :
    (d : Driver) (c : Bytes) (ready : Bool)
    → occurs_in d.prompt (last tail_size (d.shutdown_tail ++ c)) ≡ false
    → observe d c ready (some monitor) ≡ (some monitor, grown d c, record { sent = []; notes = [] })
unfolding observe
observe_unseen d c ready e = elim (Bool-cases (d.may_already_be_active && ready && false)) [
  | inl w ↦ ground arith
  | inr w ↦ rw w (rw e)
]

feed_monitor :
    (ready : Bool) (cs : List Bytes) (seen : Bytes) (d : Driver)
    → d.shutdown_tail ≡ last tail_size seen
    → outcome (feed ready cs (some monitor) d) ≡ answer (confirmed d.prompt seen cs) d.quit
unfolding feed
feed_monitor ready [] seen d t = refl
feed_monitor ready (c ∷ cs) seen d t =
    let tail : last tail_size (d.shutdown_tail ++ c) ≡ last tail_size (seen ++ c) =
      ap (λ (l : Bytes). last tail_size (l ++ c)) t ∙ last-last tail_size seen c in
    elim (Bool-cases (occurs_in d.prompt (last tail_size (seen ++ c)))) [
      | inl e ↦
          rw (observe_seen d c ready (ap (occurs_in d.prompt) tail ∙ e))
            (rw (feed_exit ready cs (grown d c)) (rw e))
      | inr e ↦
          rw (observe_unseen d c ready (ap (occurs_in d.prompt) tail ∙ e))
            (rw e (feed_monitor ready cs (seen ++ c) (grown d c) tail))
    ]

-- A stop that is begun with no prompt on record sends the monitor's escape; from then on, whatever
-- chunks the terminal delivers, `quit` is sent exactly once if the prompt stands in the last 4096
-- bytes after one of them, and never otherwise, and the phase is `exit` exactly in that case.
pub quit_iff_prompt :
    (d : Driver) (ready : Bool) (cs : List Bytes)
    → d.monitor_already_active ≡ false
    → let (phase, d', effects) = begin d in
      (effects.sent ≡ d.enter ∷ [])
      × (outcome (feed ready cs (some phase) d') ≡ answer (confirmed d.prompt [] cs) d.quit)
unfolding begin
quit_iff_prompt d ready cs e =
    elim (Bool-cases (d.may_already_be_active && d.monitor_already_active)) [
      | inl w ↦ ground arith
      | inr w ↦ rw w (refl, feed_monitor ready cs [] (record d { shutdown_tail = [] }) refl)
    ]

-- For a stop that is begun with no prompt on record: if the handshake ends in the phase `exit`, the terminal has shown the
-- prompt since the stop was begun. What it showed before that does not count.
pub exit_needs_prompt :
    (d : Driver) (ready : Bool) (cs : List Bytes)
    → d.monitor_already_active ≡ false
    → (feed ready cs (some (begin d).0) (begin d).1).0 ≡ some exit
    → occurs_in d.prompt (joined cs) ≡ true
exit_needs_prompt d ready cs inactive h = elim (Bool-cases (confirmed d.prompt [] cs)) [
  | inl e ↦ confirmed_shown d.prompt [] cs e
  | inr e ↦ absurd (
      never (
        ap (λ (x : Option Phase × List Bytes). x.0)
          (rw e at ((quit_iff_prompt d ready cs inactive).1))))
]
  where
    never : (feed ready cs (some (begin d).0) (begin d).1).0 ≡ some monitor → ⊥
    never q = cc

abbrev watching : Driver → Bytes → Driver
watching d c = record d {
  live_tail = last tail_size (d.live_tail ++ c);
  monitor_already_active =
      occurs_in d.prompt (last tail_size (d.live_tail ++ c)) || d.monitor_already_active;
}

observe-watching :
    (d : Driver) (c : Bytes)
    → d.may_already_be_active ≡ true
    → ((observe d c true none).0 ≡ none) × ((observe d c true none).1 ≡ watching d c)
unfolding observe
observe-watching d c e = (ground arith, ground arith)

or_swap : (a b c : Bool) → (b || (a || c)) ≡ (a || b || c)
or_swap a b c = ground arith

feed_watched :
    (cs : List Bytes) (seen : Bytes) (d : Driver)
    → d.may_already_be_active ≡ true
    → d.live_tail ≡ last tail_size seen
    → ((feed true cs none d).1.monitor_already_active
        ≡ (confirmed d.prompt seen cs || d.monitor_already_active))
      × ((feed true cs none d).1.may_already_be_active ≡ true)
unfolding feed
feed_watched [] seen d e t = (refl, e)
feed_watched (c ∷ cs) seen d e t =
    let tail : last tail_size (d.live_tail ++ c) ≡ last tail_size (seen ++ c) =
      ap (λ (l : Bytes). last tail_size (l ++ c)) t ∙ last-last tail_size seen c in
    let (flag, may) = feed_watched cs (seen ++ c) (watching d c) e tail in
    rw ((observe-watching d c e).0, (observe-watching d c e).1)
      (
        flag
            ∙ or_swap (occurs_in d.prompt (last tail_size (d.live_tail ++ c)))
                (confirmed d.prompt (seen ++ c) cs) d.monitor_already_active
            ∙ ap (λ (b : Bool). b || confirmed d.prompt (seen ++ c) cs || d.monitor_already_active)
                (ap (occurs_in d.prompt) tail),
        may,
      )

-- What a stop does at once: the phase it enters and what it sends.
abbrev pub opening : Bool → Driver → Phase × List Bytes
opening true d = (exit, d.quit ∷ [])
opening false d = (monitor, d.enter ∷ [])

abbrev pub opened : Phase × Driver × Effects → Phase × List Bytes
opened (phase, d, effects) = (phase, effects.sent)

opened-begin :
    (d : Driver)
    → opened (begin d) ≡ opening (d.may_already_be_active && d.monitor_already_active) d
unfolding begin
opened-begin d = elim (Bool-cases (d.may_already_be_active && d.monitor_already_active)) [
  | inl e ↦ rw e refl
  | inr e ↦ rw e refl
]

abbrev voided : Driver → Driver
voided d = record d { monitor_already_active = false; live_tail = [] }

invalidate_on_input_lem :
    (d : Driver) → d.may_already_be_active ≡ true → invalidate_on_input d ≡ voided d
unfolding invalidate_on_input
invalidate_on_input_lem d e = rw e

-- What the driver would send is not changed by output.
feed_words :
    (cs : List Bytes) (d : Driver)
    → d.may_already_be_active ≡ true
    → (b : Bool) → opening b (feed true cs none d).1 ≡ opening b d
unfolding feed
feed_words [] d e b = refl
feed_words (c ∷ cs) d e b =
    rw ((observe-watching d c e).0, (observe-watching d c e).1)
      (feed_words cs (watching d c) e b ∙ same b)
  where
    same : (b : Bool) → opening b (watching d c) ≡ opening b d
    same true = refl
    same false = refl

-- A guest whose halt itself enters the monitor: after the last input, with the session ready, a
-- stop enters the phase `exit` and sends `quit` at once, and nothing else, exactly if the prompt has
-- stood in the last 4096 bytes of the live terminal after some chunk since then; otherwise it sends
-- the escape alone and waits in the phase `monitor`.
pub begin_after_halt :
    (d : Driver) (cs : List Bytes)
    → d.may_already_be_active ≡ true
    → opened (begin (feed true cs none (invalidate_on_input d)).1)
      ≡ opening (confirmed d.prompt [] cs) d
begin_after_halt d cs e =
    let (flag, may) = feed_watched cs [] (voided d) e refl in
    let active = (feed true cs none (voided d)).1 in
    let test : (active.may_already_be_active && active.monitor_already_active)
        ≡ confirmed d.prompt [] cs =
      ground (arith, flag, may) in
    rw (invalidate_on_input_lem d e, opened-begin, test)
      (feed_words cs (voided d) e (confirmed d.prompt [] cs)
        ∙ opening_voided (confirmed d.prompt [] cs))
  where
    opening_voided : (b : Bool) → opening b (voided d) ≡ opening b d
    opening_voided true = refl
    opening_voided false = refl

-- For a guest whose halt may itself enter the monitor, input that an operator types voids the
-- evidence: a stop that is begun right after it sends the monitor's escape, whatever the terminal
-- had shown before, and then sends `quit`, once, exactly if the prompt stands in the last 4096 bytes
-- after some chunk of the later output.
pub begin-invalidate_on_input :
    (d : Driver) (ready : Bool) (cs : List Bytes)
    → d.may_already_be_active ≡ true
    → let (phase, d', effects) = begin (invalidate_on_input d) in
      (effects.sent ≡ d.enter ∷ [])
      × (outcome (feed ready cs (some phase) d') ≡ answer (confirmed d.prompt [] cs) d.quit)
begin-invalidate_on_input d ready cs e =
    rw (invalidate_on_input_lem d e) (quit_iff_prompt (voided d) ready cs refl)
