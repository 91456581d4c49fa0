-- ===== src/Broker/Release/Evidence.antt =====
-- What `release` of broker/manager.py does to the workspaces where it raises.
use unixtime_machine.Prelude.{◌≡◌, refl, ◌∙◌}
use unixtime_machine.Prelude.Dict.{Dict}
use unixtime_machine.Exec.{Exec}
use unixtime_machine.Exec.Frame.{Frame}
use unixtime_machine.Host.{Host}

same_workspaces : Frame Host
same_workspaces = record {
  relates = λ h h'. h'.workspaces ≡ h.workspaces;
  refl_at = λ h. refl;
  trans_at = λ s t u p q. q ∙ p;
}
