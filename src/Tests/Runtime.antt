-- ===== src/Tests/Runtime.antt =====
-- A PDP-11's preparation, with a file system that cannot clone, and witnesses for it.
use unixtime_machine.Prelude.{ℕ, ◌≡◌, refl, true, false, [], ◌∷◌, none, some, String, ◌+◌}
use unixtime_machine.Prelude.Bytes.{bytes}
use unixtime_machine.Prelude.Dict.{contains, put, lookup, without}
use unixtime_machine.Errors.{external_failure}
use unixtime_machine.Outcome.{ok}
use unixtime_machine.Config.{defaults}
use unixtime_machine.Manifest.{system_manifest, document}
use unixtime_machine.Store.Filed.{Lawful-refl, Kept}
use unixtime_machine.Broker.Release.{same_dict}
use unixtime_machine.Broker.Request.{request}
use unixtime_machine.Broker.NextId.{next_id, candidate}
use unixtime_machine.Broker.NextId.Total.{IsFirstFree, next_id_total}
use unixtime_machine.Runtime.Copy.{refused, prepared_disks}
use unixtime_machine.Runtime.Session.{Surroundings, prepare_session}
use unixtime_machine.Runtime.Session.History.{IsFair}
use unixtime_machine.Runtime.Session.Copies.{IsQuiet}
use unixtime_machine.Runtime.Session.Made.{IsMade, prepare_session_copies}
use unixtime_machine.Runtime.Session.Atomic.{IsApart, IsLeft, removed, prepare_session_atomic}
use unixtime_machine.Runtime.Render.Text.{Surface, configuration_text}
use unixtime_machine.Runtime.Render.Lines.{IsFilledIn, configuration_text_lines}
use unixtime_machine.Runtime.Simh.{Workshop, simh_site}
use unixtime_machine.Runtime.Simh.Lawful.{simh_request-Kept}
use unixtime_machine.Tests.Hosts.{
  one_failed, one_failed-IsFiled, v7_manifest, v7_disks, quick_start,
}

abbrev full_disk : Surroundings
full_disk = record {
  pid = "77";
  medium = λ name. record { cloning = refused; fault = some (external_failure 28); mode = 0o644 };
  before_copy = λ id h. h;
  after_copies = λ h. h;
  remains = λ w. none;
}

abbrev surface : Surface
surface = record {
  resolve = bytes;
  template = λ system_id name. ok (bytes "attach rp0 @ROOT@");
  is_media = λ path. false;
  format_path = λ option path. ok path;
}

abbrev shop : Workshop
shop = record {
  manifests = λ id. document v7_manifest;
  around = full_disk;
  surface = surface;
  executable = λ path. true;
}

full_disk-IsFair : IsFair full_disk
full_disk-IsFair = record { before = λ id h. Lawful-refl h; after = Lawful-refl }

full_disk-IsApart : (session transaction : String) → IsApart full_disk session transaction
full_disk-IsApart session transaction = record {
  before = λ id h. record { session_same = refl; transaction_same = refl };
  after = λ h. record { session_same = refl; transaction_same = refl };
}

next_id_total_example :
    (m : ℕ) × (next_id "unix-v7" one_failed
      ≡ (ok (candidate "unix-v7" m), record one_failed { counter = some (m + 1) }))
    × IsFirstFree "unix-v7" one_failed.files one_failed.workspaces 1 m
next_id_total_example = next_id_total "unix-v7" one_failed

prepare_session_atomic_example :
    IsLeft "sessions/unix-v7/v7-2" "sessions/unix-v7/.v7-2.prepare-77" one_failed
      (prepare_session (λ id. document v7_manifest) full_disk "unix-v7" "v7-2" one_failed).1
unfolding prepare_session contains put
prepare_session_atomic_example =
    prepare_session_atomic (λ id. document v7_manifest) full_disk "sessions/unix-v7/v7-2"
      "sessions/unix-v7/.v7-2.prepare-77" (full_disk-IsApart _ _) "unix-v7" "v7-2"
      (removed λ w. refl) one_failed (external_failure 28) refl

two_lines :
    configuration_text surface "unix-v7" "sessions/unix-v7/v7-1" v7_manifest
      (("root.dsk", record { digest = "0f"; mode = 0o640 }) ∷ [])
      v7_disks
      "runtime.ini.in"
    ≡ ok (bytes "attach rp0 sessions/unix-v7/v7-1/root.dsk")
unfolding configuration_text
two_lines = refl

configuration_text_lines_example :
    IsFilledIn (bytes "attach rp0 @ROOT@") (bytes "attach rp0 sessions/unix-v7/v7-1/root.dsk")
configuration_text_lines_example =
    configuration_text_lines surface "unix-v7" "sessions/unix-v7/v7-1" v7_manifest
      (("root.dsk", record { digest = "0f"; mode = 0o640 }) ∷ []) v7_disks "runtime.ini.in"
      (bytes "attach rp0 @ROOT@") (bytes "attach rp0 sessions/unix-v7/v7-1/root.dsk") refl
      (refl, tt) tt two_lines

simh_request-Kept_example :
    Kept one_failed (request (simh_site shop defaults) quick_start "unix-v7" none one_failed).1
simh_request-Kept_example =
    simh_request-Kept shop full_disk-IsFair defaults quick_start "unix-v7" none one_failed tt
      one_failed-IsFiled

abbrev good_disk : Surroundings
good_disk = record full_disk {
  medium = λ name. record { cloning = refused; fault = none; mode = 0o644 };
}

good_disk-IsQuiet : (system_id path : String) → IsQuiet good_disk system_id path
good_disk-IsQuiet system_id path = record {
  before_golden = λ id h. refl;
  before_directory = λ id h. refl;
  after_golden = λ h. refl;
  after_directory = λ h. refl;
}

prepare_session_copies_example :
    IsMade
      (one_failed.golden "unix-v7")
      "unix-v7"
      "v7-2"
      v7_disks
      ("sessions/unix-v7/v7-2", "full-copy" ∷ [])
      (prepare_session (λ id. document v7_manifest) good_disk "unix-v7" "v7-2" one_failed).1
unfolding prepare_session system_manifest prepared_disks contains put lookup without same_dict
prepare_session_copies_example =
    prepare_session_copies (λ id. document v7_manifest) good_disk "unix-v7" "v7-2" v7_manifest
      v7_disks one_failed _ ("sessions/unix-v7/v7-2", "full-copy" ∷ [])
      (good_disk-IsQuiet "unix-v7" _) refl refl refl
