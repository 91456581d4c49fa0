-- ===== src/Tests/Hosts.antt =====
-- A host with one failed session, a site with UNIX V7, and a supervisor's machine.
use unixtime_machine.Prelude.{List, true, false, [], ◌∷◌, none, some, String, eq_iff, arith}
use unixtime_machine.Prelude.Bytes.{bytes}
use unixtime_machine.Prelude.Dict.{lookup}
use unixtime_machine.Prelude.Int.{pos}
use unixtime_machine.Exec.{pure}
use unixtime_machine.Exec.Frame.{Within-pure}
use unixtime_machine.Config.{defaults}
use unixtime_machine.Models.{SessionRecord, new_record, failed, preparing}
use unixtime_machine.Broker.Base.{new_workspace}
use unixtime_machine.Host.{readable, Host, valid, Workspace, Launch}
use unixtime_machine.Store.Filed.{IsFiled}
use unixtime_machine.Manifest.{Disk, Manifest, document}
use unixtime_machine.Backend.{Site, IsLawful, PreparedSession, stdio_pty}
use unixtime_machine.Broker.Request.{Startup}
use unixtime_machine.Shutdown.{Driver}
use unixtime_machine.Supervisor.State.{Supervisor, Machine}
use unixtime_machine.Supervisor.Loop.{Tick}
use unixtime_machine.Supervisor.Events.{connect, console, client}

abbrev v7_path : String
v7_path = "sessions/unix-v7/v7-1"

abbrev pub failed_record : SessionRecord
failed_record = record (new_record "v7-1" "unix-v7") {
  state = failed;
  workspace = some v7_path;
  golden_sha256 = ("root", "0f") ∷ [];
}

abbrev v7_workspace : Workspace
v7_workspace = new_workspace

abbrev pub one_failed : Host
one_failed = record {
  now = 1000;
  files = ("v7-1", valid failed_record) ∷ [];
  counter = none;
  audits = [];
  workspaces = (v7_path, v7_workspace) ∷ [];
  transactions = [];
  golden = λ system file. readable "0f";
  start_ticks = λ pid. none;
  write_faults = [];
  signals = [];
}

pub one_failed-IsFiled : IsFiled one_failed
unfolding lookup
one_failed-IsFiled = record { at_file = λ k r e. ground (arith, eq_iff "v7-1" k) }

abbrev pub v7_disks : List Disk
v7_disks =
    record {
      id = "root";
      golden_filename = "root.dsk";
      source_filename = none;
      session_filename = "root.dsk";
      runtime_token = bytes "@ROOT@";
    }
    ∷ []

abbrev pub v7_manifest : Manifest
v7_manifest = record {
  id = some "unix-v7";
  has_emulator = true;
  family = some "simh";
  executable = some "/usr/bin/pdp11";
  configuration = some "runtime.ini.in";
  rendered_configuration = none;
  full_copy = false;
  media_directory = none;
  media_items = [];
  disks = some v7_disks;
  patterns = bytes "login:" ∷ [];
  guest_procedure = some "sync";
  monitor_may_already_be_active = true;
}

abbrev v7_prepared : PreparedSession
v7_prepared = record {
  workspace = "sessions/unix-v7/unix-v7-000001";
  command = "pdp11" ∷ [];
  readiness_patterns = bytes "login:" ∷ [];
  copy_methods = "copy" ∷ [];
  golden_sha256 = ("root", "0f") ∷ [];
  console = stdio_pty;
}

abbrev pub v7_site : Site
v7_site = record {
  manifests = λ id. document v7_manifest;
  config = defaults;
  prepare = λ system_id session_id. pure v7_prepared;
}

pub v7_site-IsLawful : IsLawful v7_site
v7_site-IsLawful = record { prepare_lawful = λ system_id session_id. Within-pure v7_prepared }

abbrev pub quick_start : Startup
quick_start = record { spawn_error = none; child = 40; rounds = [] }

abbrev pub simh_driver : Driver
simh_driver = record {
  enter = 5 ∷ [];
  prompt = 115 ∷ 105 ∷ 109 ∷ 62 ∷ [];
  quit = 113 ∷ 13 ∷ [];
  may_already_be_active = true;
  monitor_already_active = false;
  live_tail = [];
  shutdown_tail = [];
}

abbrev pub supervisor : Supervisor
supervisor = record {
  session_id = "v7-1";
  workspace = none;
  config = defaults;
  patterns = bytes "login:" ∷ [];
  stop_requested = false;
  stop_reason = none;
  attached = false;
  last_activity = 0;
  started = 0;
  is_ready = false;
  has_failed = true;
  readiness_deadline = none;
  driver = simh_driver;
  tail = [];
  shutdown_deadline = none;
  shutdown_phase = none;
  written = [];
  notes = [];
  transcript = [];
}

abbrev pub machine : Machine
machine = record { sup = supervisor; host = one_failed }

-- A session that is prepared, with its launch file.
abbrev pub one_prepared : Host
one_prepared = record one_failed {
  files =
      ("v7-1", valid (record failed_record { state = preparing; socket_path = some "v7-1.sock" }))
      ∷ [];
  workspaces = (v7_path, record v7_workspace { launch = some v7_launch }) ∷ [];
  start_ticks = λ pid. some 3;
}
  where
    v7_launch : Launch
    v7_launch = record {
      command = "pdp11" ∷ [];
      patterns = bytes "login:" ∷ [];
      console = some "stdio-pty";
      shutdown = record {
        driver = some "simh-monitor";
        requires_guest_sync = true;
        monitor_enter = 5 ∷ [];
        monitor_prompt = bytes "sim>";
        monitor_quit = 113 ∷ 13 ∷ [];
        guest_procedure = some "sync";
        monitor_may_already_be_active = true;
      };
    }

pub one_prepared-IsFiled : IsFiled one_prepared
unfolding lookup
one_prepared-IsFiled = record { at_file = λ k r e. ground (arith, eq_iff "v7-1" k) }

abbrev pub prepared_machine : Machine
prepared_machine = record { sup = record supervisor { has_failed = false }; host = one_prepared }

-- The first client attaches, and the guest shows its login prompt.
abbrev pub first_tick : Tick
first_tick = record {
  signalled = false;
  now = 5;
  running = true;
  signalled_late = false;
  others = λ h. h;
  events = connect ∷ console (bytes "login:") false ∷ [];
  later = 6;
  boundary = [];
  boundary_fails = false;
  exited = none;
}

-- A stop is signalled, and the emulator ends in the same round.
abbrev pub tick : Tick
tick = record {
  signalled = true;
  now = 10;
  running = true;
  signalled_late = false;
  others = λ h. h;
  events = connect ∷ console (115 ∷ 105 ∷ 109 ∷ 62 ∷ []) false ∷ client (104 ∷ []) ∷ [];
  later = 20;
  boundary = [];
  boundary_fails = false;
  exited = some (pos 0);
}

abbrev pub still_running : Host
still_running = record one_failed {
  files =
      (
        "v7-1",
        valid (record failed_record { emulator_pid = some 7; emulator_start_ticks = some 3 }),
      )
      ∷ [];
  start_ticks = λ pid. some 3;
}
