-- ===== src/Tests/Validation.antt =====
-- One manifest with one disk, one inventory that lists it, and what their validation says.
use unixtime_machine.Prelude.{◌≡◌, refl, true, [], ◌∷◌, none, some}
use unixtime_machine.Prelude.Int.{pos}
use unixtime_machine.Prelude.Dict.{put}
use unixtime_machine.Validation.Values.{string, integer, boolean}
use unixtime_machine.Validation.Disks.{RawDisk}
use unixtime_machine.Validation.Items.{listed, RawItem, unconditional}
use unixtime_machine.Validation.{RawManifest, section, Inventory, inventory, main}
use unixtime_machine.Validation.Accepted.{AllAccepted}
use unixtime_machine.Validation.Status.{AllServed, main_zero}

abbrev root_disk : RawDisk
root_disk = record {
  id = some (string "root");
  unit = some (string "RP0");
  device = some (string "rp0");
  golden_filename = some (string "root.dsk");
  session_filename = some (string "root.dsk");
  runtime_token = some (string "@SESSION_RP0@");
  source_filename = none;
}

abbrev tape_item : RawItem
tape_item = record {
  logical_name = some (string "tape");
  required = some (boolean true);
  filenames = listed (string "v7.tap" ∷ []);
  operator_path = none;
  size = some (integer (pos 12));
  sha256 = none;
  sha1 = none;
  bootstrap_copy_filename = none;
  install_token = none;
  runtime_option_token = none;
  runtime_option = none;
  condition = unconditional;
}

abbrev v7 : RawManifest
v7 = record {
  directory = "unix-v7";
  has_file = λ name. true;
  id = some (string "unix-v7");
  name = some (string "UNIX V7");
  track = some (string "unix");
  year = some (integer (pos 1979));
  emulator =
      section
        (record { family = some (string "simh"); configuration = some (string "runtime.ini.in") });
  session = section (some (boolean true));
  status = some (string "planned");
  media = section (record { policy = some (string "external"); items = tape_item ∷ [] });
  prepared = section (listed (root_disk ∷ []));
}

abbrev unix_systems : Inventory
unix_systems = inventory (some (string "unix")) (string "unix-v7" ∷ [])

passes : main (v7 ∷ []) (unix_systems ∷ []) ≡ 0
unfolding main put
passes = refl

main_zero_example : AllAccepted (v7 ∷ []) × AllServed (v7 ∷ []) (unix_systems ∷ [])
main_zero_example = main_zero (v7 ∷ []) (unix_systems ∷ []) passes
