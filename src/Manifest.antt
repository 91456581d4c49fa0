-- ===== src/Manifest.antt =====
-- scripts/manifestlib.py: the description of a system in systems/<id>/system.yml, as the YAML parser
-- returns it, reduced to the keys that the broker reads.
use unixtime_machine.Prelude.{
  ℕ, Bool, true, false, not, ◌||◌, List, [], ◌∷◌, Option, none, some, String, str_eq,
}
use unixtime_machine.Prelude.Bytes.{Bytes}
use unixtime_machine.Errors.{
  unsafe_system_id, unknown_system, mismatched_system, manifest_not_mapping,
}
use unixtime_machine.Outcome.{Outcome, ok, raised, ◌>>=◌, ◌>>◌, refuse_if}
use unixtime_machine.Ids.{codes, all_name_chars}

-- One entry of `prepared.disks`.
pub record Disk : Type 0 where
  pub id : String
  pub golden_filename : String
  pub source_filename : Option String
  pub session_filename : String
  pub runtime_token : Bytes

-- One entry of `media.items`, as far as a rendered configuration refers to it.
pub record RuntimeItem : Type 0 where
  pub logical_name : String
  pub filenames : List String
  pub runtime_token : Option Bytes
  pub runtime_option_token : Option Bytes
  pub runtime_option : Option Bytes

pub record Manifest : Type 0 where
  pub id : Option String
  pub has_emulator : Bool  -- emulator is a mapping
  pub family : Option String  -- emulator.family
  pub executable : Option String  -- emulator.executable
  pub configuration : Option String  -- emulator.configuration
  pub rendered_configuration : Option String  -- emulator.rendered_configuration
  pub full_copy : Bool  -- session.copy_method is "full-copy"
  pub disks : Option (List Disk)  -- prepared.disks
  pub patterns : List Bytes  -- readiness.patterns
  pub media_directory : Option String  -- media.directory
  pub media_items : List RuntimeItem  -- media.items
  pub guest_procedure : Option String  -- shutdown.guest_procedure
  pub monitor_may_already_be_active : Bool  -- shutdown.monitor_may_already_be_active

pub data ManifestFile : Type 0 where
  absent : ManifestFile
  not_mapping : ManifestFile
  document : Manifest → ManifestFile

-- `load_yaml`, after `path.is_file()`
load_yaml : String → ManifestFile → Outcome Manifest
load_yaml id absent = raised (unknown_system id)
load_yaml id not_mapping = raised (manifest_not_mapping id)
load_yaml id (document m) = ok m

is_empty : List ℕ → Bool
is_empty [] = true
is_empty (_ ∷ _) = false

-- `data.get("id") == system_id`
names : Option String → String → Bool
names none system_id = false
names (some id) system_id = str_eq id system_id

-- `system_manifest`
unfoldable pub system_manifest : (String → ManifestFile) → String → Outcome Manifest
unfolding load_yaml is_empty names
system_manifest files system_id = do
  refuse_if (is_empty (codes system_id) || not (all_name_chars (codes system_id)))
      (unsafe_system_id system_id)
  manifest ← load_yaml system_id (files system_id)
  refuse_if (not (names manifest.id system_id)) (mismatched_system system_id)
  ok manifest
