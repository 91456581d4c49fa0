-- ===== src/Validation/Items.antt =====
-- scripts/validate_manifests.py: the checks of the entries of `media.items`.
use unixtime_machine.Prelude.{
  Bool, true, false, not, ◌&&◌, ◌||◌, ◌==◌, ltb, List, [], ◌∷◌, Option, String, str_eq, any,
}
use unixtime_machine.Prelude.Int.{pos, negsuc}
use unixtime_machine.Prelude.Bytes.{bytes}
use unixtime_machine.Errors.{invalid_manifest, malformed_manifest}
use unixtime_machine.Outcome.{Outcome, ok, raised, ◌>>=◌, ◌>>◌, refuse_if, require}
use unixtime_machine.Ids.{codes}
use unixtime_machine.Validation.Values.{
  Scalar, null, string, integer, boolean, empty, filled, got, is_empty_text, is_unsafe_value,
  is_unsafe_filename, is_token, check_digest, occurrences,
}

-- What stands under a key that should hold a list: nothing, something else, or a list.
pub data Listed (A : Type 0) : Type 0 where
  unlisted : Listed A
  no_list : Listed A
  listed : List A → Listed A

-- What stands under `required_when_runtime_artifact_prefix`, with its `logical_name` and `ascii`.
pub data Condition : Type 0 where
  unconditional : Condition
  no_condition : Condition
  condition : Option Scalar → Option Scalar → Condition

-- One entry, by its keys.
pub record RawItem : Type 0 where
  pub logical_name : Option Scalar
  pub required : Option Scalar
  pub filenames : Listed Scalar
  pub operator_path : Option Scalar
  pub size : Option Scalar
  pub sha256 : Option Scalar
  pub sha1 : Option Scalar
  pub bootstrap_copy_filename : Option Scalar
  pub install_token : Option Scalar
  pub runtime_option_token : Option Scalar
  pub runtime_option : Option Scalar
  pub condition : Condition

abbrev pub is_text : String → Scalar → Bool
is_text text (string s) = str_eq s text
is_text text _ = false

abbrev pub is_null : Scalar → Bool
is_null null = true
is_null _ = false

-- `not value`
abbrev pub is_falsy : Scalar → Bool
is_falsy null = true
is_falsy (string s) = is_empty_text s
is_falsy (integer (pos n)) = n == 0
is_falsy (integer (negsuc n)) = false
is_falsy (boolean b) = not b
is_falsy empty = true
is_falsy filled = false

-- `isinstance(value, int)`, which holds of a Boolean too
abbrev pub is_int : Scalar → Bool
is_int (integer z) = true
is_int (boolean b) = true
is_int _ = false

abbrev pub is_boolean : Scalar → Bool
is_boolean (boolean b) = true
is_boolean _ = false

abbrev pub is_negative : Scalar → Bool
is_negative (integer (negsuc n)) = true
is_negative _ = false

unfoldable pub check_filenames : Listed Scalar → Scalar → Outcome (Unit {0})
unfolding is_unsafe_value
check_filenames unlisted operator_path =
    refuse_if (not (is_text "explicit" operator_path))
      (invalid_manifest "media item without filenames requires explicit operator path")
check_filenames no_list operator_path =
    raised (invalid_manifest "media filenames must be non-empty list")
check_filenames (listed []) operator_path =
    raised (invalid_manifest "media filenames must be non-empty list")
check_filenames (listed (name ∷ names)) operator_path =
    refuse_if (any is_unsafe_value (name ∷ names)) (invalid_manifest "unsafe media filename")

-- `not isinstance(option, str) or option.count("{path}") != 1`
unfoldable pub is_bad_option : Scalar → Bool
unfolding occurrences
is_bad_option (string s) = not (occurrences (bytes "{path}") (codes s) == 1)
is_bad_option _ = true

unfoldable pub check_option : Scalar → Scalar → Outcome (Unit {0})
unfolding is_token is_bad_option
check_option null option = ok tt
check_option (string token) option = do
  refuse_if (not (is_token (codes token))) (invalid_manifest "bad runtime option token")
  refuse_if (is_bad_option option) (invalid_manifest "bad runtime option")
check_option _ option = raised malformed_manifest

-- Every character of the text is below 128, and it is not empty.
abbrev pub is_ascii_text : Scalar → Bool
is_ascii_text (string s) = not (is_empty_text s) && not (any (λ c. not (ltb c 128)) (codes s))
is_ascii_text _ = false

abbrev pub is_string : Scalar → Bool
is_string (string s) = true
is_string _ = false

unfoldable pub check_condition : Condition → Scalar → Outcome (Unit {0})
check_condition unconditional token = ok tt
check_condition no_condition token = do
  refuse_if (is_falsy token)
      (invalid_manifest "conditional runtime artifact requires runtime_option_token")
  raised (invalid_manifest "bad conditional runtime artifact prefix")
check_condition (condition logical_name ascii) token = do
  refuse_if (is_falsy token)
      (invalid_manifest "conditional runtime artifact requires runtime_option_token")
  refuse_if (not (is_string (got logical_name)) || not (is_ascii_text (got ascii)))
      (invalid_manifest "bad conditional runtime artifact prefix")

-- The body of the loop over the items.
unfoldable pub check_item : RawItem → Outcome (Unit {0})
unfolding check_filenames check_digest check_option check_condition is_unsafe_filename
check_item item = do
  name ← require (invalid_manifest "media item missing logical_name") item.logical_name
  required ← require (invalid_manifest "media item missing required") item.required
  check_filenames item.filenames (got item.operator_path)
  refuse_if (not (is_boolean required)) (invalid_manifest "media required must be bool")
  let size = got item.size
  refuse_if (not (is_null size) && (not (is_int size) || is_negative size))
      (invalid_manifest "bad media size")
  check_digest 64 "bad sha256" (got item.sha256)
  check_digest 40 "bad sha1" (got item.sha1)
  let copy = got item.bootstrap_copy_filename
  refuse_if (not (is_null copy) && is_unsafe_filename copy)
      (invalid_manifest "unsafe bootstrap copy filename")
  refuse_if (not (is_null copy) && is_falsy (got item.install_token))
      (invalid_manifest "bootstrap copy requires install_token")
  check_option (got item.runtime_option_token) (got item.runtime_option)
  check_condition item.condition (got item.runtime_option_token)

unfoldable pub check_items : List RawItem → Outcome (Unit {0})
unfolding check_item
check_items [] = ok tt
check_items (item ∷ items) = do check_item item; check_items items
