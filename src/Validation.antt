-- ===== src/Validation.antt =====
-- scripts/validate_manifests.py: the checks of all manifests and inventories of the repository.
pub mod Values
pub mod Disks
pub mod Items
pub mod Accepted
pub mod Status
use unixtime_machine.Prelude.{
  ℕ, Bool, true, false, not, ◌&&◌, ◌||◌, ◌==◌, List, [], ◌∷◌, ◌++◌, Option, none, some, String,
  str_eq, any, if◌then◌else◌,
}
use unixtime_machine.Prelude.Dict.{Dict, lookup, put}
use unixtime_machine.Errors.{Error, invalid_manifest, malformed_manifest}
use unixtime_machine.Outcome.{Outcome, ok, raised, ◌>>=◌, ◌>>◌, refuse_if, require}
use unixtime_machine.Ids.{codes}
use unixtime_machine.Validation.Values.{
  Scalar, null, string, got, is_empty_text, is_unsafe_filename,
}
use unixtime_machine.Validation.Disks.{RawDisk, Seen, nothing_seen, check_disks}
use unixtime_machine.Validation.Items.{
  Listed, unlisted, no_list, listed, RawItem, check_items, is_text, is_null, is_falsy, is_int,
  is_boolean,
}

-- What stands under a key that should hold a mapping: nothing, something else, or a mapping.
pub data Section (A : Type 0) : Type 0 where
  without_section : Section A
  no_section : Section A
  section : A → Section A

pub record RawEmulator : Type 0 where
  pub family : Option Scalar
  pub configuration : Option Scalar

pub record RawMedia : Type 0 where
  pub policy : Option Scalar
  pub items : List RawItem

-- A systems/<id>/system.yml with the name of its directory. The list elements that the checks visit
-- are mappings.
pub record RawManifest : Type 0 where
  pub directory : String
  pub has_file : String → Bool  -- `(path.parent / name).is_file()`
  pub id : Option Scalar
  pub name : Option Scalar
  pub track : Option Scalar
  pub year : Option Scalar
  pub emulator : Section RawEmulator
  pub session : Section (Option Scalar)  -- its `public_eligible`
  pub status : Option Scalar
  pub media : Section RawMedia
  pub prepared : Section (Listed RawDisk)  -- its `disks`; `null` is no section here

abbrev required : {A : Type 0} → Option A → String → Outcome A
required value message = require (invalid_manifest message) value

abbrev text_in : Scalar → String
text_in (string s) = s
text_in _ = ""

abbrev mapping_of : {A : Type 0} → Section A → String → Outcome A
mapping_of without_section message = raised (invalid_manifest message)
mapping_of no_section message = raised malformed_manifest
mapping_of (section a) message = ok a

abbrev present : {A : Type 0} → Section A → String → Outcome (Unit {0})
present without_section message = raised (invalid_manifest message)
present no_section message = ok tt
present (section a) message = ok tt

unfoldable check_configuration : RawManifest → Scalar → Outcome (Unit {0})
check_configuration raw null = ok tt
check_configuration raw (string name) = do
  refuse_if (is_falsy (string name) || any (λ c. c == 47 || c == 92) (codes name))
      (invalid_manifest "unsafe emulator.configuration")
  refuse_if (not (raw.has_file name)) (invalid_manifest "emulator.configuration does not exist")
check_configuration raw _ = raised (invalid_manifest "unsafe emulator.configuration")

unfoldable check_media : Section RawMedia → Outcome (Unit {0})
unfolding check_items
check_media without_section = raised (invalid_manifest "media.policy must be external")
check_media no_section = raised malformed_manifest
check_media (section media) = do
  refuse_if (not (is_text "external" (got media.policy)))
      (invalid_manifest "media.policy must be external")
  check_items media.items

-- The disks that the last loop visits.
abbrev pub disks_in : Section (Listed RawDisk) → Outcome (List RawDisk)
disks_in without_section = ok []
disks_in no_section = raised malformed_manifest
disks_in (section unlisted) = raised (invalid_manifest "prepared.disks must be a non-empty list")
disks_in (section no_list) = raised (invalid_manifest "prepared.disks must be a non-empty list")
disks_in (section (listed [])) = raised (invalid_manifest "prepared.disks must be a non-empty list")
disks_in (section (listed (disk ∷ disks))) = ok (disk ∷ disks)

unfoldable pub check_prepared : Section (Listed RawDisk) → Outcome (Unit {0})
unfolding check_disks
check_prepared prepared = do disks ← disks_in prepared; seen ← check_disks disks nothing_seen; ok tt

-- The checks before those of the media; the track comes back.
unfoldable check_head : RawManifest → Outcome Scalar
unfolding check_configuration
check_head raw = do
  sid ← required raw.id "missing id"
  name ← required raw.name "missing name"
  track ← required raw.track "missing track"
  year ← required raw.year "missing year"
  present raw.emulator "missing emulator"
  present raw.session "missing session"
  status ← required raw.status "missing status"
  refuse_if (not (is_text raw.directory sid)) (invalid_manifest "directory must match id")
  refuse_if (not (is_text "unix" track || is_text "unixish" track || is_text "beyond-unix" track))
      (invalid_manifest "bad track")
  refuse_if (not (is_int year)) (invalid_manifest "year must be int")
  emulator ← mapping_of raw.emulator "missing emulator"
  refuse_if (is_falsy (got emulator.family)) (invalid_manifest "emulator.family required")
  check_configuration raw (got emulator.configuration)
  public_eligible ← mapping_of raw.session "missing session"
  refuse_if (not (is_boolean (got public_eligible)))
      (invalid_manifest "public_eligible bool required")
  ok track

-- The body of the loop over the manifests: the identifier and the track.
unfoldable pub check_manifest : RawManifest → Outcome (String × String)
unfolding check_head check_media check_prepared
check_manifest raw = do
  track ← check_head raw
  check_media raw.media
  check_prepared raw.prepared
  ok (raw.directory, text_in track)

-- An inventory/*.yml: its track and systems, or the error of loading it.
pub data Inventory : Type 0 where
  unloadable : Error → Inventory
  inventory : Option Scalar → List Scalar → Inventory

unfoldable pub check_systems : Dict String → Scalar → List Scalar → Outcome (Unit {0})
unfolding lookup
check_systems manifests track [] = ok tt
check_systems manifests track (string sid ∷ systems) = do
  found ← require (invalid_manifest "unknown system") (lookup sid manifests)
  refuse_if (not (is_text found track)) (invalid_manifest "track mismatch")
  check_systems manifests track systems
check_systems manifests track (_ ∷ systems) = raised (invalid_manifest "unknown system")

unfoldable pub check_inventory : Dict String → Inventory → Outcome (Unit {0})
unfolding check_systems
check_inventory manifests (unloadable e) = raised e
check_inventory manifests (inventory track systems) = do
  track ← require malformed_manifest track
  check_systems manifests track systems

-- What the first loop has collected.
pub record Collected : Type 0 where
  pub errors : List Error
  pub manifests : Dict String  -- the track of each accepted system

abbrev pub after_manifest : Outcome (String × String) → Collected → Collected
after_manifest (ok (sid, track)) c = record c { manifests = put sid track c.manifests }
after_manifest (raised e) c = record c { errors = c.errors ++ e ∷ [] }

unfoldable pub collect_manifests : List RawManifest → Collected → Collected
unfolding check_manifest
collect_manifests [] c = c
collect_manifests (raw ∷ raws) c = collect_manifests raws (after_manifest (check_manifest raw) c)

abbrev pub after_inventory : Outcome (Unit {0}) → List Error → List Error
after_inventory (ok _) errors = errors
after_inventory (raised e) errors = errors ++ e ∷ []

unfoldable pub collect_inventories : Dict String → List Inventory → List Error → List Error
unfolding check_inventory
collect_inventories manifests [] errors = errors
collect_inventories manifests (i ∷ rest) errors =
    collect_inventories manifests rest (after_inventory (check_inventory manifests i) errors)

abbrev pub exit_status : List Error → ℕ
exit_status [] = 0
exit_status (_ ∷ _) = 1

-- `main`: the exit status
unfoldable pub main : List RawManifest → List Inventory → ℕ
unfolding collect_manifests collect_inventories
main raws inventories =
    let c = collect_manifests raws (record { errors = []; manifests = [] }) in
    exit_status (collect_inventories c.manifests inventories c.errors)
