-- ===== src/Ids.antt =====
-- scripts/utmlib.py `safe_id`: the names that may become part of a path.
use Prim.Native.Char.{code}
use unixtime_machine.Prelude.{
  ℕ, Bool, true, false, ◌&&◌, ◌||◌, List, [], ◌∷◌, String, length, leb, ◌==◌, if◌then◌else◌,
}
use unixtime_machine.Errors.{unsafe_identifier}
use unixtime_machine.Outcome.{Outcome, ok, raised}

-- The code points of a text.
abbrev pub codes : String → List ℕ
codes String.[] = []
codes (String.◌∷◌ c s) = code c ∷ codes s

-- `[a-z0-9]`
abbrev pub is_alphanumeric : ℕ → Bool
is_alphanumeric c = leb b'a' c && leb c b'z' || leb b'0' c && leb c b'9'

-- `[a-z0-9-]`
abbrev pub is_name_char : ℕ → Bool
is_name_char c = is_alphanumeric c || c == b'-'

abbrev pub all_name_chars : List ℕ → Bool
all_name_chars [] = true
all_name_chars (c ∷ cs) = is_name_char c && all_name_chars cs

-- `SAFE_NAME.fullmatch`, with `SAFE_NAME` the pattern `^[a-z0-9][a-z0-9-]{0,63}$`
abbrev pub matches_safe_name : List ℕ → Bool
matches_safe_name [] = false
matches_safe_name (c ∷ cs) = is_alphanumeric c && all_name_chars cs && leb (length cs) 63

-- `safe_id`
unfoldable pub safe_id : String → String → Outcome String
safe_id label value =
    if matches_safe_name (codes value) then ok value else raised (unsafe_identifier label value)
