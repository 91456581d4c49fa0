-- ===== src/Process.antt =====
-- Probes of processes: `process_exists` of broker/process.py, and `pid_alive` and `stop_process` of
-- scripts/utmlib.py.
use unixtime_machine.Prelude.{
  ℕ, Bool, true, false, List, [], ◌∷◌, Option, none, some, ltb, if◌then◌else◌,
}

-- What `os.kill(pid, 0)` does: it returns, or raises ProcessLookupError or PermissionError.
pub data Probe : Type 0 where
  delivered : Probe
  no_process : Probe
  no_permission : Probe

abbrev probed : Probe → Bool
probed delivered = true
probed no_process = false
probed no_permission = true

-- `process_exists`; an identifier that is absent or not positive names no process.
abbrev pub process_exists : (ℕ → Probe) → Option ℕ → Bool
process_exists kill none = false
process_exists kill (some pid) = if ltb 0 pid then probed (kill pid) else false

-- `pid_alive`: here a process that may not be signalled counts as gone.
abbrev pub pid_alive : Probe → Bool
pid_alive delivered = true
pid_alive no_process = false
pid_alive no_permission = false

-- `stop_process` after SIGINT was sent: the probes of the rounds that begin before its deadline.
abbrev pub stop_process : List Probe → Bool
stop_process [] = false
stop_process (probe ∷ probes) =
    let rest = stop_process probes in if pid_alive probe then rest else true
