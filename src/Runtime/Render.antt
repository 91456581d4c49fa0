-- ===== src/Runtime/Render.antt =====
-- scripts/utmlib.py `render_runtime`: the configuration of an emulator, from the template of its
-- system.
pub mod Lines
pub mod Text
use unixtime_machine.Runtime.Render.Text.{Surface, configuration_text}
use Prim.Native.String.{◌++◌}
use unixtime_machine.Prelude.{List, ◌∷◌, Option, none, some, String, or_else, if◌then◌else◌}
use unixtime_machine.Prelude.Bytes.{Bytes}
use unixtime_machine.Prelude.Dict.{lookup, put}
use unixtime_machine.Errors.{session_missing, configuration_missing}
use unixtime_machine.Exec.{Exec, Action, gets, lift, or_raise, pure, modify, ◌>>=◌, ◌>>◌}
use unixtime_machine.Ids.{safe_id}
use unixtime_machine.Host.{Host, Workspace}
use unixtime_machine.Manifest.{Manifest, ManifestFile, system_manifest}
use unixtime_machine.Broker.Base.{workspace_path, new_workspace}
use unixtime_machine.Runtime.Copy.{prepared_disks}

unfoldable pub write_config : String → String → Bytes → Action Host
unfolding modify
write_config path name text = modify λ h.
    let old = or_else (lookup path h.workspaces) new_workspace in
    record h { workspaces = put path (record old { config = some (name, text) }) h.workspaces }

-- `render_runtime`
unfoldable pub render_runtime :
    (String → ManifestFile) → Surface → String → String → Exec Host String
unfolding ◌>>=◌ gets lift or_raise pure safe_id system_manifest prepared_disks configuration_text
    write_config
render_runtime manifests surface system_id session_id = do
  lift (safe_id "system id" system_id)
  manifest ← lift (system_manifest manifests system_id)
  lift (safe_id "session id" session_id)
  let workspace = workspace_path system_id session_id
  found ← gets (λ h. lookup workspace h.workspaces)
  directory ← or_raise (session_missing workspace) found
  disks ← lift (prepared_disks manifest)
  configuration ←
      or_raise configuration_missing
        (if manifest.has_emulator then manifest.configuration else none)
  config ←
      lift (
        configuration_text surface system_id workspace manifest directory.disks disks configuration)
  let name = or_else manifest.rendered_configuration "runtime.ini"
  write_config workspace name config
  pure (workspace ++ "/" ++ name)
