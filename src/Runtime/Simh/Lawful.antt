-- ===== src/Runtime/Simh/Lawful.antt =====
-- The state files under `SimhBackend.prepare` of broker/backend.py, and under a request that calls it.
use unixtime_machine.Prelude.{refl, String, Option}
use unixtime_machine.Prelude.Bytes.{Bytes}
use unixtime_machine.Exec.Frame.{Within}
use unixtime_machine.Host.{Host}
use unixtime_machine.Manifest.{ManifestFile}
use unixtime_machine.Config.{BrokerConfig}
use unixtime_machine.Backend.{IsLawful}
use unixtime_machine.Broker.Base.{AllLawful}
use unixtime_machine.Broker.Request.{Startup, request}
use unixtime_machine.Broker.Request.History.{request-history}
use unixtime_machine.Store.Filed.{history, IsFiled, Kept}
use unixtime_machine.Store.Kept.{store_rules, modify-history}
use unixtime_machine.Runtime.Render.Text.{Surface}
use unixtime_machine.Runtime.Session.History.{IsFair, prepare_session-history}
use unixtime_machine.Runtime.Render.{render_runtime, write_config}
use unixtime_machine.Runtime.Simh.{Workshop, simh_prepare, simh_site}

write_config-history :
    (path name : String) (text : Bytes) → Within history (write_config path name text)
unfolding write_config
write_config-history path name text = modify-history _ (λ h. refl) (λ h. refl)

pub render_runtime-history :
    (manifests : String → ManifestFile) (surface : Surface) (system_id session_id : String)
    → Within history (render_runtime manifests surface system_id session_id)
unfolding render_runtime
render_runtime-history manifests surface system_id session_id =
    search (store_rules, write_config-history) depth 20

module _ (shop : Workshop) (fair : IsFair shop.around) where
  simh_prepare-history :
      (system_id session_id : String) → Within history (simh_prepare shop system_id session_id)
  unfolding simh_prepare
  simh_prepare-history system_id session_id =
      search
        (
          store_rules,
          prepare_session-history shop.manifests shop.around fair,
          render_runtime-history,
        )
        depth 20

  pub simh_site-IsLawful : (config : BrokerConfig) → IsLawful (simh_site shop config)
  simh_site-IsLawful config = record { prepare_lawful = simh_prepare-history }

  -- From a host where every record stands in its file, and if the other processes keep to the rule
  -- while the disks are copied and while the broker waits: however a request ends whose session the
  -- SIMH adapter prepares, every record stands in its file, and every state file is unchanged, new
  -- with a state reached from requested, or holds a record of the same system with a state that
  -- TRANSITIONS reaches from the old one. The audit log has only grown, and each new line that
  -- records a transition names one that TRANSITIONS permits.
  pub simh_request-Kept :
      (config : BrokerConfig) (startup : Startup) (system_id : String)
      (requested_id : Option String) (h : Host)
      → AllLawful startup.rounds
      → IsFiled h
      → Kept h (request (simh_site shop config) startup system_id requested_id h).1
  unfolding history
  simh_request-Kept config startup system_id requested_id h others filed =
      let lawful = simh_site-IsLawful config in
      (request-history (simh_site shop config) startup system_id requested_id lawful others).at h
        filed
