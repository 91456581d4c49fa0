-- ===== src/Broker/Reconcile.antt =====
-- `Broker.reconcile`: the three loops that look at state files, sessions and preparations.
pub mod Evidence
use unixtime_machine.Prelude.{
  Bool, false, any, List, [], ◌∷◌, ◌++◌, none, some, String, str_eq, if◌then◌else◌,
}
use unixtime_machine.Prelude.Dict.{Dict, keys}
use unixtime_machine.Errors.{supervisor_missing, stale_session, unreadable_json}
use unixtime_machine.Exec.{Exec, gets, pure, ◌>>=◌, ◌>>◌}
use unixtime_machine.Models.{SessionRecord, resetting, released, failed, one_of}
use unixtime_machine.Host.{Host, StateFile, unreadable, process_matches, text, message, Detail}
use unixtime_machine.Store.{all, audit, transition}

-- One line of the result.
pub data Verdict : Type 0 where
  invalid_state_preserved unchanged healthy failed_preserved orphan_preserved : Verdict

abbrev pub Report : Type 0
Report = List (String × Verdict)

abbrev invalid_detail : String → Detail
invalid_detail id =
    ("result", text "invalid-state-preserved")
    ∷ ("path", text id)
    ∷ ("reason", message (unreadable_json id))
    ∷ []

abbrev orphan_detail : String → Detail
orphan_detail path = ("result", text "orphan-preserved") ∷ ("path", text path) ∷ []

-- The first loop: state files that are no JSON are recorded and kept.
report_invalid : Dict StateFile → Exec Host Report
unfolding ◌>>=◌ audit pure
report_invalid [] = pure []
report_invalid ((id, unreadable) ∷ files) = do
  audit "reconcile" none (invalid_detail id)
  rest ← report_invalid files
  pure ((id, invalid_state_preserved) ∷ rest)
report_invalid ((id, _) ∷ files) = report_invalid files

-- The failure of a session whose supervisor is gone.
fail_stale : SessionRecord → Bool → Exec Host (String × Verdict)
unfolding ◌>>=◌ transition audit pure
fail_stale r emulator = do
  let reason = if emulator then supervisor_missing else stale_session
  failed_record ←
      transition (record r { failure = some reason }) failed "failure"
        (("reason", message reason) ∷ [])
  audit "reconcile" (some failed_record)
      (("result", text "preserved") ∷ ("reason", message reason) ∷ [])
  pure (r.session_id, failed_preserved)

-- The body of the second loop.
examine : SessionRecord → Exec Host (String × Verdict)
unfolding ◌>>=◌ gets pure process_matches fail_stale
examine r =
    if one_of r.state (released ∷ failed ∷ resetting ∷ [])
    then pure (r.session_id, unchanged)
    else (do
      supervisor ← gets (λ h. process_matches h r.supervisor_pid r.supervisor_start_ticks)
      emulator ← gets (λ h. process_matches h r.emulator_pid r.emulator_start_ticks)
      if supervisor then pure (r.session_id, healthy) else fail_stale r emulator)

examine_all : List SessionRecord → Exec Host Report
unfolding ◌>>=◌ pure examine
examine_all [] = pure []
examine_all (r ∷ records) = do line ← examine r; rest ← examine_all records; pure (line ∷ rest)

abbrev is_workspace_of : String → SessionRecord → Bool
is_workspace_of path r = elim r.workspace [ none ↦ false | some w ↦ str_eq w path ]

-- The third loop: preparations that no session knows.
report_orphans : List SessionRecord → List String → Exec Host Report
unfolding ◌>>=◌ audit pure
report_orphans records [] = pure []
report_orphans records (path ∷ paths) =
    if any (is_workspace_of path) records then report_orphans records paths else (do
      audit "reconcile" none (orphan_detail path)
      rest ← report_orphans records paths
      pure ((path, orphan_preserved) ∷ rest))

-- `Broker.reconcile`
unfoldable pub reconcile : Exec Host Report
unfolding ◌>>=◌ gets pure report_invalid examine_all report_orphans all
reconcile = do
  files ← gets (λ h. h.files)
  invalid ← report_invalid files
  records ← all false
  examined ← examine_all records
  transactions ← gets (λ h. keys h.transactions)
  orphans ← report_orphans records transactions
  pure (invalid ++ examined ++ orphans)
