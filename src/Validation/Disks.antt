-- ===== src/Validation/Disks.antt =====
-- scripts/validate_manifests.py: the checks of the entries of `prepared.disks`.
pub mod Distinct
use unixtime_machine.Prelude.{
  Bool, true, false, not, ◌||◌, List, [], ◌∷◌, Option, none, some, String, str_eq, any, or_else,
}
use unixtime_machine.Errors.{invalid_manifest}
use unixtime_machine.Outcome.{Outcome, ok, raised, ◌>>=◌, ◌>>◌, refuse_if, require}
use unixtime_machine.Ids.{codes}
use unixtime_machine.Validation.Values.{
  Scalar, string, got, text_of, is_disk_id, is_unit, is_token, is_unsafe_filename,
}

-- One entry, by its keys.
pub record RawDisk : Type 0 where
  pub id : Option Scalar
  pub unit : Option Scalar
  pub device : Option Scalar
  pub golden_filename : Option Scalar
  pub session_filename : Option Scalar
  pub runtime_token : Option Scalar
  pub source_filename : Option Scalar

-- `seen_ids`, `seen_units`, `seen_files` and `seen_tokens`
pub record Seen : Type 0 where
  pub ids : List String
  pub units : List String
  pub files : List String
  pub tokens : List String

abbrev pub nothing_seen : Seen
nothing_seen = record { ids = []; units = []; files = []; tokens = [] }

-- `value in seen`
unfoldable pub member : String → List String → Bool
member x [] = false
member x (y ∷ ys) = str_eq x y || member x ys

-- A key that has to hold a text.
abbrev pub required_text : String → Option Scalar → Outcome String
required_text message value = require (invalid_manifest message) (text_of (got value))

-- The tests after the required keys.
abbrev pub check_texts : RawDisk → Seen → String → String → String → String → String → Outcome Seen
check_texts disk seen id unit golden session token = do
  refuse_if (not (is_disk_id (codes id))) (invalid_manifest "unsafe disk id")
  refuse_if (not (is_unit (codes unit))) (invalid_manifest "unsupported disk unit")
  refuse_if (not (is_token (codes token))) (invalid_manifest "bad runtime token")
  let names = or_else disk.source_filename (string golden) ∷ string golden ∷ string session ∷ []
  refuse_if (any is_unsafe_filename names) (invalid_manifest "unsafe disk filename")
  refuse_if (member id seen.ids || member unit seen.units || member token seen.tokens)
      (invalid_manifest "duplicate prepared disk identity")
  refuse_if (member golden seen.files || member session seen.files)
      (invalid_manifest "duplicate prepared disk filename")
  ok (record {
    ids = id ∷ seen.ids;
    units = unit ∷ seen.units;
    files = golden ∷ session ∷ seen.files;
    tokens = token ∷ seen.tokens;
  })

-- The body of the loop over the disks.
unfoldable pub check_disk : RawDisk → Seen → Outcome Seen
unfolding member is_unit is_token is_unsafe_filename
check_disk disk seen = do
  id ← required_text "prepared disk missing id" disk.id
  unit ← required_text "prepared disk missing unit" disk.unit
  device ← required_text "prepared disk missing device" disk.device
  golden ← required_text "prepared disk missing golden_filename" disk.golden_filename
  session ← required_text "prepared disk missing session_filename" disk.session_filename
  token ← required_text "prepared disk missing runtime_token" disk.runtime_token
  check_texts disk seen id unit golden session token

unfoldable pub check_disks : List RawDisk → Seen → Outcome Seen
unfolding check_disk
check_disks [] seen = ok seen
check_disks (disk ∷ disks) seen = do seen ← check_disk disk seen; check_disks disks seen
