-- ===== src/Supervisor/History.antt =====
-- The state files under the writes of broker/supervisor.py.
use unixtime_machine.Prelude.{some, ◌≡◌, String}
use unixtime_machine.Exec.{Exec, pure}
use unixtime_machine.Exec.Frame.{Frame, Within, Within-bind, Within-for_each, frame_rules}
use unixtime_machine.Models.{SessionState, SessionRecord, same_state}
use unixtime_machine.Prelude.Bytes.{Bytes}
use unixtime_machine.Shutdown.{Effects}
use unixtime_machine.Host.{Host, Detail}
use unixtime_machine.Store
use unixtime_machine.Store.{load, save, audit}
use unixtime_machine.Store.Filed.{
  history, Lawful, Lawful-refl, Lawful-trans, IsDerived, audit-history, load-history,
}
use unixtime_machine.Store.Sound.{
  Sound-weaken, Sound-save, Sound-or, Sound-pure, Sound-transition, relabel,
}
use unixtime_machine.Store.Kept.{load_then-history}
use unixtime_machine.Supervisor.State.{
  Supervisor, Machine, on_host, reads, sets, note, write_master, perform, update, update_record,
  move_record, transition, current, audit_current, utc, detach, detach_attached,
}
use unixtime_machine.Store.Filed.{IsPermitted, nothing_more}

-- The history of the state files, seen from the machine.
unfoldable pub machine_history : Frame Machine
machine_history = record {
  relates = λ s t. Lawful s.host t.host;
  refl_at = λ s. Lawful-refl s.host;
  trans_at = λ s t u. Lawful-trans s.host t.host u.host;
}

module _ {A : Type 0} where
  pub Within-on_host : (m : Exec Host A) → Within history m → Within machine_history (on_host m)
  unfolding on_host machine_history history
  Within-on_host m k = record { at = λ s. k.at s.host }

  pub Within-reads : (f : Supervisor → A) → Within machine_history (reads f)
  unfolding reads machine_history
  Within-reads f = record { at = λ s. Lawful-refl s.host }

pub Within-sets : (f : Supervisor → Supervisor) → Within machine_history (sets f)
unfolding sets machine_history
Within-sets f = record { at = λ s. Lawful-refl s.host }

pub Within-utc : Within machine_history utc
unfolding utc machine_history
Within-utc = record { at = λ s. Lawful-refl s.host }

-- Fields that are no part of a session's identity or state may be set.
pub update-history :
    (changes : SessionRecord → SessionRecord)
    → ((r : SessionRecord) → r.session_id ≡ (changes r).session_id)
    → ((r : SessionRecord) → r.state ≡ (changes r).state)
    → ((r : SessionRecord) → r.system_id ≡ (changes r).system_id)
    → Within machine_history (update changes)
unfolding update update_record
update-history changes same_id same_state same_system =
    Within-bind (reads (λ x. x.session_id)) _ (Within-reads (λ x. x.session_id)) λ id.
      Within-on_host (update_record id changes) (
        load_then-history id (λ r. save (changes r))
          λ r.
            Sound-weaken (save (changes r))
              (relabel r (changes r) (same_id r) (same_state r) (same_system r))
              (Sound-save (changes r)))

pub transition-history :
    (state : SessionState) (event : String) (detail : Detail)
    → Within machine_history (transition state event detail)
unfolding transition move_record
transition-history state event detail =
    Within-bind (reads (λ x. x.session_id)) _ (Within-reads (λ x. x.session_id)) λ id.
      Within-on_host (move_record id state event detail) (
        load_then-history id _ λ r.
          Sound-or (same_state r.state state) (pure r) (Store.transition r state event detail)
            (Sound-pure r (λ h d. d)) (Sound-transition r state event detail))

pub current-history : Within machine_history current
unfolding current
current-history =
    Within-bind (reads (λ x. x.session_id)) _ (Within-reads (λ x. x.session_id))
      λ id. Within-on_host (load id) (load-history id)

pub ruleset machine_rules = (
  frame_rules, Within-on_host, Within-reads, Within-sets, Within-utc, update-history,
  transition-history, current-history, audit-history, nothing_more,
)

pub note-history : (line : String) → Within machine_history (note line)
unfolding note
note-history line = Within-sets _

pub audit_current-history :
    (event : String) (detail : Detail)
    → IsPermitted detail
    → Within machine_history (audit_current event detail)
unfolding audit_current
audit_current-history event detail allow =
    Within-bind current _ current-history
      λ r. Within-on_host (audit event (some r) detail) (audit-history event (some r) detail allow)

detach_attached-history : Within machine_history detach_attached
unfolding detach_attached
detach_attached-history = search machine_rules depth 9

pub detach-history : Within machine_history detach
unfolding detach
detach-history = search (machine_rules, detach_attached-history)

pub write_master-history : (bytes : Bytes) → Within machine_history (write_master bytes)
unfolding write_master
write_master-history bytes = Within-sets _

pub perform-history : (effects : Effects) → Within machine_history (perform effects)
unfolding perform
perform-history effects = Within-sets _

pub ruleset supervisor_rules = (
  machine_rules, note-history, audit_current-history, detach-history, write_master-history,
  perform-history,
)
