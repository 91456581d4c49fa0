-- ===== src/Lib.antt =====
-- UNIX Time Machine: the session broker, the supervisor of one emulator, and the checks of media,
-- modelled from the Python code.
--
-- A session of a historical system is requested from the broker (broker/manager.py), which admits
-- it, names it, prepares a private workspace and starts a supervisor process
-- (broker/supervisor.py). The supervisor owns the emulator's terminal, relays one client, watches
-- deadlines and performs the stop handshake (broker/shutdown.py). Both sides meet only in the
-- files of the store (broker/store.py): one state file for each session, the audit log, and the
-- launch and stop files in the workspace. Every change of a session's state passes through
-- Store.transition, which checks it against TRANSITIONS (broker/models.py).
--
-- Files:
--     Models (States, Records, Reachable, Graph): broker/models.py and broker/session.py. The
--     state is a data type; TRANSITIONS is `transitions`; a record is `SessionRecord`.
--     Host, Store (Filed, Sound, Kept): what the processes share, as one value `Host`, and
--     broker/store.py over it. `Filed` defines what may become of a state file, `Sound` and `Kept`
--     the rules for operations.
--     Config: broker/config.py. A limit is in thousandths, rounded up, or endless, for Infinity
--     and NaN.
--     Shutdown (Prompt, Handshake): broker/shutdown.py. What the driver sends and logs comes back
--     as `Effects`.
--     Backend, Manifest, Ids: broker/backend.py, scripts/manifestlib.py, and `safe_id` of
--     scripts/utmlib.py.
--     Broker (Base, NextId, Request, Stop, Release, Reconcile, Attach, Transitions):
--     broker/manager.py, one file for each operation, and what the operations do to the state
--     files and to the workspaces.
--     Supervisor (State, Events, Deadlines, Loop; History, Lawful, Rounds; Quiet, Exit):
--     broker/supervisor.py, the loop as a function on the rounds that take place, each of which
--     names what the process meets.
--     Runtime (Copy, Golden, Import, Session, Replace, Render, Simh): `copy_exclusive`,
--     `import_golden` (on the directories below golden/, `Vault`), `prepare_session`,
--     `render_runtime` and `find_emulator` of scripts/utmlib.py, and `SimhBackend.prepare` of
--     broker/backend.py, which composes them. A copy stands for its content by the SHA-256; what
--     the file system and other processes do during the copies is an argument, `Surroundings`; how
--     paths resolve and Python's `str.format` are arguments too, `Surface`. Import/Kept,
--     Import/Atomic, Import/Filled, Import/Loop, Import/Installed, Session/Atomic, Session/Copies,
--     Session/Complete, Session/Made and Session/History, Copy/Result, Render/Lines and
--     Simh/Lawful hold the proofs.
--     Media (Verify, Tape, Boot, Sources): `verify_media` of scripts/utmlib.py, and
--     `write_simh_tape`, `decode_boot42` and the checks of `prepare_43bsd` of
--     scripts/media43bsd.py.
--     Validation (Values, Disks, Items; Disks/Distinct, Accepted, Status):
--     scripts/validate_manifests.py, on the values that the YAML parser returns: `Scalar` for a
--     value, `Listed` and `Section` for what stands under a key that should hold a list or a
--     mapping.
--     Command (Evidence): `cmd_system_stop`, `cmd_system_status` and the file accesses of
--     `cmd_system_start` of scripts/utm.py, on the runtime state of one system (`Desk`).
--     Process, Readiness: `process_exists` of broker/process.py; `pid_alive`, `stop_process` and
--     `readiness` of scripts/utmlib.py.
--     Outcome, Exec, Exec/Frame, Exec/Sparing, Exec/Leads, Errors, Prelude: results, stateful
--     operations that may raise, the rules for relations between the state before and after, the
--     errors, and helpers. Tests: runs of the theorems.
--
-- Exceptions: an operation returns its state beside the error, since what was written before a
-- raise stays written. Waiting and other processes: a wait is a list of rounds, each with an
-- arbitrary change of the host by the other processes; theorems ask of it only what they name.
-- Fuel: `find_free` of Broker/NextId has one round for each name that can be taken, plus one;
-- `payloads` of Media/Tape has the length of the file.
--
-- Failing writes: a write of a record or of an audit line may raise, as `write_faults` of the host
-- says; the counter, the launch and stop files and the logs of the supervisor are taken to be
-- written. What `shutil.rmtree` with ignored errors leaves of a transaction is an argument.
--
-- Not modelled: the JSON and YAML texts (the model starts from what parsing gives), file locks (an
-- operation of the model is atomic between waits), partial results of the `shutil.rmtree` of a
-- release (it succeeds or removes nothing), descriptors and sockets beyond the events they
-- deliver, the rest of the command line, the qualification scripts for other emulators, the
-- catalog and deployment.
pub mod Prelude
pub mod Errors
pub mod Exec
pub mod Models
pub mod Host
pub mod Store
pub mod Outcome
pub mod Readiness
pub mod Process
pub mod Command
pub mod Config
pub mod Shutdown
pub mod Ids
pub mod Manifest
pub mod Backend
pub mod Runtime
pub mod Broker
pub mod Supervisor
pub mod Media
pub mod Tests
pub mod Validation
