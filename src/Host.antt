-- ===== src/Host.antt =====
-- What the broker's processes share: the files below the host root, the process table and the
-- clock. One operation that holds the store's lock is one step on this state.
use unixtime_machine.Prelude.{ℕ, Bool, ◌==◌, false, List, Option, none, some, String, ltb}
use unixtime_machine.Prelude.Int.{ℤ}
use unixtime_machine.Prelude.Dict.{Dict}
use unixtime_machine.Prelude.Bytes.{Bytes}
use unixtime_machine.Errors.{Error}
use unixtime_machine.Models.{SessionRecord, SessionState}

-- What stands in a file `<session id>.json`: a record; JSON that is no mapping (`[]`); a mapping
-- that lacks a field without default; or what cannot be read as JSON.
pub data StateFile : Type 0 where
  valid : SessionRecord → StateFile
  no_mapping : StateFile
  mistyped : StateFile
  unreadable : StateFile

-- A value of an audit entry's detail.
pub data Value : Type 0 where
  text : String → Value
  number : ℤ → Value
  flag : Bool → Value
  message : Error → Value
  state_text : SessionState → Value  -- `state.value`

abbrev pub Detail : Type 0
Detail = List (String × Value)

-- One line of logs/broker-audit.jsonl. The session fields are those of the record, if one is given.
pub record AuditEntry : Type 0 where
  pub event : String
  pub timestamp : ℕ
  pub session : Option (String × String × SessionState)
  pub detail : Detail

-- `ShutdownProtocol.as_dict()`, with the driver's name; the byte strings are those whose
-- hexadecimal text the file holds.
pub record ShutdownSpec : Type 0 where
  pub driver : Option String
  pub requires_guest_sync : Bool
  pub monitor_enter : Bytes
  pub monitor_prompt : Bytes
  pub monitor_quit : Bytes
  pub guest_procedure : Option String
  pub monitor_may_already_be_active : Bool

-- broker-launch.json
pub record Launch : Type 0 where
  pub command : List String
  pub patterns : List Bytes
  pub console : Option String  -- the transport's `kind`, if the file has one
  pub shutdown : ShutdownSpec

-- broker-stop.json
pub record StopRequest : Type 0 where
  pub guest_synced : Bool
  pub recovery : Bool

-- A golden disk as stat and a read find it: nothing, a directory that may not be searched, no regular
-- file, a file that may not be read, or a file with this SHA-256.
pub data GoldenFile : Type 0 where
  no_file : GoldenFile
  no_access : GoldenFile
  no_regular : GoldenFile
  no_read : GoldenFile
  readable : String → GoldenFile

-- A file that stands for its content by the SHA-256, with its permission bits.
pub record DiskFile : Type 0 where
  pub digest : String
  pub mode : ℕ

-- session.json
pub record Metadata : Type 0 where
  pub copy_methods : List String
  pub golden_sha256 : Dict String
  pub session_id : String
  pub system_id : String

-- A session directory: `launch` is `none` where the file is missing, unreadable or lacks a key.
pub record Workspace : Type 0 where
  pub launch : Option Launch
  pub stop : Option StopRequest
  pub disks : Dict DiskFile
  pub metadata : Option Metadata
  pub config : Option (String × Bytes)  -- the rendered configuration, by its file name
  pub removable : Bool  -- `shutil.rmtree` does not raise

pub record Host : Type 0 where
  pub now : ℕ  -- what `utc_now()` reads
  pub files : Dict StateFile  -- state/broker/sessions
  pub counter : Option ℕ  -- `next` of state/broker/counter.json
  pub audits : List AuditEntry  -- oldest first
  pub workspaces : Dict Workspace  -- sessions/<system>/<session>, by path
  pub transactions : Dict Workspace  -- sessions/*/.*.prepare-*, by path
  pub golden : String → String → GoldenFile  -- golden/<system>/<file>
  pub start_ticks : ℕ → Option ℕ  -- field 22 of /proc/<pid>/stat, if it can be read
  -- whether the coming writes of records and of audit lines fail; after the last, all succeed
  pub write_faults : List Bool
  pub signals : List ℕ  -- the processes that were sent SIGTERM, oldest first

abbrev digest_of : GoldenFile → Option String
digest_of (readable digest) = some digest
digest_of no_file = none
digest_of no_access = none
digest_of no_regular = none
digest_of no_read = none

-- The hash of a golden disk, if it can be read.
unfoldable pub golden_hash : Host → String → String → Option String
golden_hash h system_id filename = digest_of (h.golden system_id filename)

-- broker/process.py: `process_start_ticks`
unfoldable pub process_start_ticks : Host → Option ℕ → Option ℕ
process_start_ticks h none = none
process_start_ticks h (some pid) = elim (ltb 0 pid) [
  | Bool.true ↦ h.start_ticks pid
  | Bool.false ↦ none
]

-- `actual is not None and start_ticks is not None and actual == start_ticks`
abbrev both_equal : Option ℕ → Option ℕ → Bool
both_equal none _ = false
both_equal (some _) none = false
both_equal (some actual) (some ticks) = actual == ticks

-- broker/process.py: `process_matches`
unfoldable pub process_matches : Host → Option ℕ → Option ℕ → Bool
unfolding process_start_ticks
process_matches h pid start_ticks = both_equal (process_start_ticks h pid) start_ticks
