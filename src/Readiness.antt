-- ===== src/Readiness.antt =====
-- scripts/utmlib.py `readiness`: the wait for a readiness marker in a log file.
use unixtime_machine.Prelude.{
  ℕ, leb, ◌≡◌, refl, Bool, true, false, any, last, List, [], ◌∷◌, Option, none, some, if◌then◌else◌,
  Bool-cases, inl, inr,
}
use unixtime_machine.Prelude.Bytes.{Bytes, occurs_in}

pub data Result : Type 0 where
  pass : Result
  human_required : Result

abbrev pub shows : List Bytes → Bytes → Bool
shows patterns text = any (λ pattern. occurs_in pattern text) patterns

-- One round of the loop: what the read of the log gives, `none` where there is no file, and the clock
-- after it. Texts are lists of code points.
abbrev pub Round : Type 0
Round = Option Bytes × ℕ

abbrev found : List Bytes → Option Bytes → Bool
found patterns none = false
found patterns (some text) = shows patterns (last 8192 text)

abbrev seen_after : Bytes → Option Bytes → Bytes
seen_after seen none = seen
seen_after seen (some text) = last 8192 text

-- The loop over the rounds that take place; without a result it is still waiting.
unfoldable pub readiness : List Bytes → ℕ → Bytes → List Round → Option (Result × Bytes)
readiness patterns deadline seen [] = none
readiness patterns deadline seen ((text, clock) ∷ rounds) =
    let rest = readiness patterns deadline (seen_after seen text) rounds in
    if found patterns text
    then some (pass, seen_after seen text)
    else if leb deadline clock
    then some (human_required, seen_after seen text)
    else rest

-- The rounds up to the first that finds the deadline passed.
abbrev pub in_time : ℕ → List Round → List Round
in_time deadline [] = []
in_time deadline ((text, clock) ∷ rounds) =
    (text, clock) ∷ (if leb deadline clock then [] else in_time deadline rounds)

-- The text has a marker in its last 8192 characters.
abbrev pub is_marked : List Bytes → Round → Bool
is_marked patterns (none, clock) = false
is_marked patterns (some text, clock) = shows patterns (last 8192 text)

abbrev pub is_late : ℕ → Round → Bool
is_late deadline (text, clock) = leb deadline clock

abbrev pub verdict : Bool → Bool → Option Result
verdict true late = some pass
verdict false true = some human_required
verdict false false = none

abbrev pub result_of : Option (Result × Bytes) → Option Result
result_of none = none
result_of (some (result, seen)) = some result

one_round :
    (patterns : List Bytes) (text : Option Bytes) (clock : ℕ)
    → is_marked patterns (text, clock) ≡ found patterns text
one_round patterns none clock = refl
one_round patterns (some text) clock = refl

-- The wait passes exactly if one of the reads up to the first that finds the deadline passed has a
-- marker in its last 8192 characters; otherwise it asks for a human as soon as a read finds the
-- deadline passed, and until then it is still waiting. At least one read takes place.
pub readiness_lem :
    (patterns : List Bytes) (deadline : ℕ) (seen : Bytes) (rounds : List Round)
    → result_of (readiness patterns deadline seen rounds)
      ≡ verdict (any (is_marked patterns) (in_time deadline rounds)) (any (is_late deadline) rounds)
unfolding readiness
readiness_lem patterns deadline seen [] = refl
readiness_lem patterns deadline seen ((text, clock) ∷ rounds) =
    let rest = readiness_lem patterns deadline (seen_after seen text) rounds in
    elim (Bool-cases (found patterns text)) [
      | inl e ↦ rw (one_round patterns text clock, e) refl
      | inr e ↦ elim (Bool-cases (leb deadline clock)) [
        | inl late ↦ rw (one_round patterns text clock, e, late) refl
        | inr early ↦ rw (one_round patterns text clock, e, early) rest
      ]
    ]
