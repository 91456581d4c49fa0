-- ===== src/Runtime/Simh.antt =====
-- broker/backend.py `SimhBackend.prepare`: the operations of scripts/utmlib.py in the order of a
-- start, and the site whose sessions are prepared by it.
pub mod Lawful
use unixtime_machine.Prelude.{Bool, List, [], ◌∷◌, String}
use unixtime_machine.Prelude.Dict.{Dict}
use unixtime_machine.Errors.{missing_key}
use unixtime_machine.Outcome.{require}
use unixtime_machine.Exec.{Exec, gets, lift, pure, ◌>>=◌, ◌>>◌}
use unixtime_machine.Host.{Host}
use unixtime_machine.Manifest.{ManifestFile, system_manifest}
use unixtime_machine.Config.{BrokerConfig}
use unixtime_machine.Backend.{PreparedSession, Site, stdio_pty}
use unixtime_machine.Runtime.Copy.{find_emulator}
use unixtime_machine.Runtime.Golden.{hash_set}
use unixtime_machine.Runtime.Render.Text.{Surface}
use unixtime_machine.Runtime.Session.{Surroundings, prepare_session}
use unixtime_machine.Runtime.Render.{render_runtime}

-- What a preparation finds: the manifests, what surrounds the copies and the rendering, and which
-- paths are files that may be executed.
pub record Workshop : Type 0 where
  pub manifests : String → ManifestFile
  pub around : Surroundings
  pub surface : Surface
  pub executable : String → Bool

-- `SimhBackend.prepare`
unfoldable pub simh_prepare : Workshop → String → String → Exec Host PreparedSession
unfolding ◌>>=◌ gets lift pure system_manifest prepare_session render_runtime hash_set find_emulator
simh_prepare shop system_id session_id = do
  manifest ← lift (system_manifest shop.manifests system_id)
  (workspace, methods) ← prepare_session shop.manifests shop.around system_id session_id
  config ← render_runtime shop.manifests shop.surface system_id session_id
  disks ← lift (require (missing_key "disks") manifest.disks)
  golden ← gets (λ h. h.golden system_id)
  goldens ← lift (hash_set golden disks [])
  emulator ← lift (find_emulator shop.executable manifest)
  pure (record {
    workspace = workspace;
    command = emulator ∷ config ∷ [];
    readiness_patterns = manifest.patterns;
    copy_methods = methods;
    golden_sha256 = goldens;
    console = stdio_pty;
  })

abbrev pub simh_site : Workshop → BrokerConfig → Site
simh_site shop config = record {
  manifests = shop.manifests;
  config = config;
  prepare = simh_prepare shop;
}
