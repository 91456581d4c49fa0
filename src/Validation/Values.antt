-- ===== src/Validation/Values.antt =====
-- scripts/validate_manifests.py: values of a manifest as the YAML parser returns them, and the tests
-- on names and texts that the checks share.
use unixtime_machine.Prelude.{
  ℕ, Bool, true, false, not, ◌&&◌, ◌||◌, ◌==◌, leb, List, [], ◌∷◌, Option, none, some, String,
  str_eq, any, length, ◌+◌, if◌then◌else◌,
}
use unixtime_machine.Prelude.Int.{ℤ}
use unixtime_machine.Prelude.Bytes.{Bytes, bytes, bytes_eq, starts_with}
use unixtime_machine.Errors.{malformed_manifest, invalid_manifest}
use unixtime_machine.Outcome.{Outcome, ok, raised, refuse_if}
use unixtime_machine.Ids.{codes, is_alphanumeric, all_name_chars}

-- A value under a key. `filled` is a list or mapping that is not empty, or a number with a fraction.
pub data Scalar : Type 0 where
  null : Scalar
  string : String → Scalar
  integer : ℤ → Scalar
  boolean : Bool → Scalar
  empty : Scalar
  filled : Scalar

-- `.get(key)`, for which a missing key is `None`
abbrev pub got : Option Scalar → Scalar
got none = null
got (some value) = value

abbrev pub is_empty_text : String → Bool
is_empty_text String.[] = true
is_empty_text (String.◌∷◌ c s) = false

-- `isinstance(value, str) and value`
abbrev pub text_of : Scalar → Option String
text_of (string s) = if is_empty_text s then none else some s
text_of _ = none

-- `"/" in name or "\\" in name or name in (".", "..")`
unfoldable pub is_unsafe_name : String → Bool
is_unsafe_name name =
    any (λ c. c == b'/' || c == 92) (codes name) || str_eq name "." || str_eq name ".."

-- The same with `not isinstance(name, str)`.
unfoldable pub is_unsafe_value : Scalar → Bool
unfolding is_unsafe_name
is_unsafe_value (string s) = is_unsafe_name s
is_unsafe_value _ = true

-- `not isinstance(name, str) or not name or …`
unfoldable pub is_unsafe_filename : Scalar → Bool
unfolding is_unsafe_name
is_unsafe_filename (string s) = is_empty_text s || is_unsafe_name s
is_unsafe_filename _ = true

-- `[a-z0-9][a-z0-9-]*`
abbrev pub is_disk_id : List ℕ → Bool
is_disk_id [] = false
is_disk_id (c ∷ cs) = is_alphanumeric c && all_name_chars cs

-- `[A-Z0-9_]`
abbrev pub is_token_char : ℕ → Bool
is_token_char c = leb b'A' c && leb c b'Z' || leb b'0' c && leb c b'9' || c == b'_'

-- `[A-Z0-9_]*@`
abbrev pub is_token_end : List ℕ → Bool
is_token_end [] = false
is_token_end (c ∷ []) = c == 64
is_token_end (c ∷ d ∷ cs) = is_token_char c && is_token_end (d ∷ cs)

-- `@[A-Z0-9_]+@`
unfoldable pub is_token : List ℕ → Bool
is_token [] = false
is_token (at ∷ []) = false
is_token (at ∷ c ∷ cs) = at == 64 && is_token_char c && is_token_end cs

abbrev up_to : ℕ → ℕ → Bool
up_to last c = leb b'0' c && leb c last

-- `(?:RP[0-7]|RQ[0-3]|scsi[0-7])`
unfoldable pub is_unit : List ℕ → Bool
unfolding bytes_eq
is_unit (a ∷ b ∷ c ∷ []) = a == b'R' && (b == b'P' && up_to b'7' c || b == b'Q' && up_to b'3' c)
is_unit (a ∷ b ∷ c ∷ d ∷ e ∷ []) = bytes_eq (a ∷ b ∷ c ∷ d ∷ []) (bytes "scsi") && up_to b'7' e
is_unit _ = false

-- `[0-9a-fA-F]`
abbrev pub is_hex : ℕ → Bool
is_hex c = leb b'0' c && leb c b'9' || leb b'a' c && leb c b'f' || leb b'A' c && leb c b'F'

-- `value is not None and not re.fullmatch(r"[0-9a-fA-F]{n}", value)`; on no text the match raises.
unfoldable pub check_digest : ℕ → String → Scalar → Outcome (Unit {0})
check_digest n message null = ok tt
check_digest n message (string s) =
    refuse_if (not (length (codes s) == n && not (any (λ c. not (is_hex c)) (codes s))))
      (invalid_manifest message)
check_digest n message _ = raised malformed_manifest

-- `text.count(pattern)`, for a pattern that does not overlap itself
unfoldable pub occurrences : Bytes → Bytes → ℕ
unfolding starts_with
occurrences pattern [] = 0
occurrences pattern (c ∷ cs) =
    (if starts_with pattern (c ∷ cs) then 1 else 0) + occurrences pattern cs
