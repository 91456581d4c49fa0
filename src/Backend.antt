-- ===== src/Backend.antt =====
-- broker/backend.py: what a kind of emulator provides to the broker, and the SIMH adapter.
use unixtime_machine.Prelude.{
  Bool, true, false, List, [], ◌∷◌, Option, none, some, String, str_eq, if◌then◌else◌,
}
use unixtime_machine.Prelude.Bytes.{Bytes, bytes}
use unixtime_machine.Prelude.Dict.{Dict}
use unixtime_machine.Errors.{no_adapter}
use unixtime_machine.Outcome.{Outcome, ok, raised, ◌>>=◌}
use unixtime_machine.Exec.{Exec}
use unixtime_machine.Exec.Frame.{Within}
use unixtime_machine.Host.{Host, ShutdownSpec}
use unixtime_machine.Manifest.{Manifest, ManifestFile, system_manifest}
use unixtime_machine.Config.{BrokerConfig}
use unixtime_machine.Store.Filed.{history}

pub record ConsoleTransport : Type 0 where
  pub kind : String
  pub authoritative : Bool
  pub separate_diagnostics : Bool

abbrev pub stdio_pty : ConsoleTransport
stdio_pty = record { kind = "stdio-pty"; authoritative = true; separate_diagnostics = false }

abbrev pub external_pty : ConsoleTransport
external_pty = record { kind = "external-pty"; authoritative = true; separate_diagnostics = true }

pub record PreparedSession : Type 0 where
  pub workspace : String
  pub command : List String
  pub readiness_patterns : List Bytes
  pub copy_methods : List String
  pub golden_sha256 : Dict String
  pub console : ConsoleTransport

-- The abstract class `Backend`.
pub record Backend : Type 0 where
  pub prepare : String → String → Exec Host PreparedSession
  pub shutdown_protocol : ShutdownSpec

-- `console_transport`
abbrev pub console_transport : PreparedSession → ConsoleTransport
console_transport prepared = prepared.console

-- `SimhBackend.shutdown_protocol`, in the form of `ShutdownProtocol.as_dict`
unfoldable pub simh_protocol : Option String → Bool → ShutdownSpec
simh_protocol guest_procedure monitor_may_already_be_active = record {
  driver = some "simh-monitor";
  requires_guest_sync = true;
  monitor_enter = 0x05 ∷ [];
  monitor_prompt = bytes "sim>";
  monitor_quit = 113 ∷ 117 ∷ 105 ∷ 116 ∷ 13 ∷ [];
  guest_procedure = guest_procedure;
  monitor_may_already_be_active = monitor_may_already_be_active;
}

-- What the broker finds on its host and does not write: the manifests, its configuration, and how
-- the SIMH adapter prepares a session.
pub record Site : Type 0 where
  pub manifests : String → ManifestFile
  pub config : BrokerConfig
  pub prepare : String → String → Exec Host PreparedSession

-- Preparing a session writes no state file but lawfully.
pub record IsLawful (site : Site) : Type 0 where
  pub prepare_lawful :
      (system_id session_id : String) → Within history (site.prepare system_id session_id)

adapter : Site → Manifest → Outcome Backend
unfolding simh_protocol
adapter site manifest = elim manifest.family [
  | none ↦ raised no_adapter
  | some family ↦
      if str_eq family "simh"
      then ok (record {
        prepare = site.prepare;
        shutdown_protocol =
            simh_protocol manifest.guest_procedure manifest.monitor_may_already_be_active;
      })
      else raised no_adapter
]

-- `backend_for`
unfoldable pub backend_for : Site → String → Outcome Backend
unfolding adapter
backend_for site system_id = do
  manifest ← system_manifest site.manifests system_id
  adapter site manifest
