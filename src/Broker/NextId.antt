-- ===== src/Broker/NextId.antt =====
-- `Broker._next_id`: the first unused identifier from the counter on.
pub mod Numerals
pub mod Total
use Prim.Native.Char.{Char}
use Prim.Native.String.{◌++◌}
use unixtime_machine.Prelude.{
  ℕ, zero, suc, ◌+◌, ◌/◌, ◌%◌, ◌^◌, Bool, ◌||◌, Option, none, some, String, or_else, length, ◌==◌,
  if◌then◌else◌,
}
use unixtime_machine.Prelude.Dict.{Dict, contains}
use unixtime_machine.Errors.{out_of_fuel}
use unixtime_machine.Exec.{Exec, gets, or_raise, modify, pure, ◌>>=◌, ◌>>◌}
use unixtime_machine.Host.{Host, StateFile, Workspace}
use unixtime_machine.Broker.Base.{workspace_path}

abbrev digit : ℕ → Char
digit zero = "0"
digit (suc zero) = "1"
digit (suc (suc zero)) = "2"
digit (suc (suc (suc zero))) = "3"
digit (suc (suc (suc (suc zero)))) = "4"
digit (suc (suc (suc (suc (suc zero))))) = "5"
digit (suc (suc (suc (suc (suc (suc zero)))))) = "6"
digit (suc (suc (suc (suc (suc (suc (suc zero))))))) = "7"
digit (suc (suc (suc (suc (suc (suc (suc (suc zero)))))))) = "8"
digit _ = "9"

-- The last `width` digits of a number before `after`.
last_digits : ℕ → ℕ → String → String
last_digits zero n after = after
last_digits (suc width) n after = last_digits width (n / 10) (String.◌∷◌ (digit (n % 10)) after)

-- The digits of a number with no leading zero, before `after`; zero has none.
leading_digits : ℕ → ℕ → String → String
leading_digits zero n after = after
leading_digits (suc fuel) n after =
    let further = leading_digits fuel (n / 10) (String.◌∷◌ (digit (n % 10)) after) in
    if n == 0 then after else further

-- `f"{number:06d}"`
padded : ℕ → String
unfolding last_digits leading_digits
padded n = leading_digits n (n / 10 ^ 6) (last_digits 6 n "")

-- `f"{system_id}-{number:06d}"`
unfoldable pub candidate : String → ℕ → String
unfolding padded
candidate system_id number = system_id ++ "-" ++ padded number

-- The test that ends the loop, the other way round.
is_taken : String → ℕ → Dict StateFile → Dict Workspace → Bool
unfolding candidate contains
is_taken system_id number files workspaces =
    let id = candidate system_id number in
    contains id files || contains (workspace_path system_id id) workspaces

-- `while True`
find_free : ℕ → String → ℕ → Dict StateFile → Dict Workspace → Option ℕ
unfolding is_taken
find_free zero system_id number files workspaces = none
find_free (suc fuel) system_id number files workspaces =
    let further = find_free fuel system_id (number + 1) files workspaces in
    if is_taken system_id number files workspaces then further else some number

-- One round for each entry that may stand in the way, and one more.
abbrev search_rounds : Host → ℕ
search_rounds h = suc (length h.files + length h.workspaces)

-- `self._next_id`
unfoldable pub next_id : String → Exec Host String
unfolding find_free ◌>>=◌ gets or_raise modify pure
next_id system_id = do
  found ←
      gets (λ h. find_free (search_rounds h) system_id (or_else h.counter 1) h.files h.workspaces)
  number ← or_raise out_of_fuel found
  modify (λ h. record h { counter = some (number + 1) })
  pure (candidate system_id number)
