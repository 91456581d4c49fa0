-- ===== src/Broker/Reconcile/Evidence.antt =====
-- What `reconcile` of broker/manager.py leaves alone beside the state files and the audit log.
use unixtime_machine.Prelude.{
  ◌≡◌, refl, ◌∙◌, Bool, List, [], ◌∷◌, Option, none, String, any, if◌then◌else◌,
}
use unixtime_machine.Prelude.Dict.{Dict}
use unixtime_machine.Exec.{Exec}
use unixtime_machine.Exec.Frame.{Frame, Within, Within-pure, Within-bind, frame_rules}
use unixtime_machine.Models.{SessionState, SessionRecord, one_of, released, failed, resetting}
use unixtime_machine.Host.{Host, StateFile, valid, no_mapping, mistyped, unreadable, Detail}
use unixtime_machine.Store.{all, write_state, take_write, append, commit, audit, save, transition}
use unixtime_machine.Broker.Reconcile.{
  reconcile, report_invalid, fail_stale, examine, examine_all, report_orphans, is_workspace_of,
  invalid_detail, orphan_detail, invalid_state_preserved, orphan_preserved,
}

-- The workspaces, the preparations and the processes are as before.
pub record Untouched (h h' : Host) : Type 0 where
  pub workspaces : h'.workspaces ≡ h.workspaces
  pub transactions : h'.transactions ≡ h.transactions
  pub signals : h'.signals ≡ h.signals

evidence : Frame Host
evidence = record {
  relates = Untouched;
  refl_at = λ h. record { workspaces = refl; transactions = refl; signals = refl };
  trans_at = λ s t u p q. record {
    workspaces = q.workspaces ∙ p.workspaces;
    transactions = q.transactions ∙ p.transactions;
    signals = q.signals ∙ p.signals;
  };
}

all-evidence : (strict : Bool) → Within evidence (all strict)
unfolding all evidence
all-evidence strict = record {
  at = λ h. record { workspaces = refl; transactions = refl; signals = refl };
}

write_state-evidence : Within evidence write_state
unfolding write_state evidence
write_state-evidence = record { at = λ h. taken h h.write_faults }
  where
    taken : (h : Host) (faults : List Bool) → Untouched h (take_write faults h).1
    taken h [] = record { workspaces = refl; transactions = refl; signals = refl }
    taken h (Bool.false ∷ rest) = record { workspaces = refl; transactions = refl; signals = refl }
    taken h (Bool.true ∷ rest) = record { workspaces = refl; transactions = refl; signals = refl }

append-evidence :
    (event : String) (r : Option SessionRecord) (detail : Detail)
    → Within evidence (append event r detail)
unfolding append evidence
append-evidence event r detail = record {
  at = λ h. record { workspaces = refl; transactions = refl; signals = refl };
}

commit-evidence : (r : SessionRecord) → Within evidence (commit r)
unfolding commit evidence
commit-evidence r = record {
  at = λ h. record { workspaces = refl; transactions = refl; signals = refl };
}

audit-evidence :
    (event : String) (r : Option SessionRecord) (detail : Detail)
    → Within evidence (audit event r detail)
unfolding audit
audit-evidence event r detail =
    Within-bind write_state _ write_state-evidence λ _. append-evidence event r detail

save-evidence : (r : SessionRecord) → Within evidence (save r)
unfolding save
save-evidence r = Within-bind write_state _ write_state-evidence λ _. commit-evidence r

ruleset evidence_rules = (frame_rules, all-evidence, audit-evidence, save-evidence)

transition-evidence :
    (r : SessionRecord) (state : SessionState) (event : String) (detail : Detail)
    → Within evidence (transition r state event detail)
unfolding transition
transition-evidence r state event detail = search evidence_rules depth 9

report_invalid-evidence : (files : Dict StateFile) → Within evidence (report_invalid files)
unfolding report_invalid
report_invalid-evidence [] = Within-pure []
report_invalid-evidence ((id, unreadable) ∷ files) =
    Within-bind (audit "reconcile" none (invalid_detail id)) _
      (audit-evidence "reconcile" none (invalid_detail id))
      λ _.
        Within-bind (report_invalid files) _ (report_invalid-evidence files)
          λ rest. Within-pure ((id, invalid_state_preserved) ∷ rest)
report_invalid-evidence ((id, valid r) ∷ files) = record { at = (report_invalid-evidence files).at }
report_invalid-evidence ((id, no_mapping) ∷ files) = record {
  at = (report_invalid-evidence files).at;
}
report_invalid-evidence ((id, mistyped) ∷ files) = record {
  at = (report_invalid-evidence files).at;
}

fail_stale-evidence :
    (r : SessionRecord) (emulator : Bool) → Within evidence (fail_stale r emulator)
unfolding fail_stale
fail_stale-evidence r emulator = search (evidence_rules, transition-evidence) depth 9

looked_up :
    {A : Type 0} (b : Bool) (m n : Exec Host A)
    → Within evidence m
    → Within evidence n
    → Within evidence (if b then m else n)
looked_up Bool.true m n p q = p
looked_up Bool.false m n p q = q

examine-evidence : (r : SessionRecord) → Within evidence (examine r)
unfolding examine
examine-evidence r =
    looked_up (one_of r.state (released ∷ failed ∷ resetting ∷ [])) _ _ (Within-pure _)
      (search (evidence_rules, looked_up, fail_stale-evidence) depth 12)

examine_all-evidence : (records : List SessionRecord) → Within evidence (examine_all records)
unfolding examine_all
examine_all-evidence [] = Within-pure []
examine_all-evidence (r ∷ records) = Within-bind (examine r) _ (examine-evidence r) λ line.
    Within-bind (examine_all records) _ (examine_all-evidence records)
      (λ rest. Within-pure (line ∷ rest))

report_orphans-evidence :
    (records : List SessionRecord) (paths : List String)
    → Within evidence (report_orphans records paths)
unfolding report_orphans
report_orphans-evidence records [] = Within-pure []
report_orphans-evidence records (path ∷ paths) =
    looked_up (any (is_workspace_of path) records) _ _ (report_orphans-evidence records paths) (
      Within-bind (audit "reconcile" none (orphan_detail path)) _
        (audit-evidence "reconcile" none (orphan_detail path))
        λ _.
          Within-bind (report_orphans records paths) _ (report_orphans-evidence records paths)
            λ rest. Within-pure ((path, orphan_preserved) ∷ rest))

reconcile-evidence : Within evidence reconcile
unfolding reconcile
reconcile-evidence =
    search (evidence_rules, report_invalid-evidence, examine_all-evidence, report_orphans-evidence)
      depth 14

-- Reconciling after an interruption deletes and stops nothing: every workspace and every
-- unfinished preparation is as before, and no process was signalled, whether it ends or raises.
pub reconcile-Untouched : (h : Host) → Untouched h (reconcile h).1
unfolding evidence
reconcile-Untouched h = reconcile-evidence.at h
