-- ===== src/Store.antt =====
-- broker/store.py: the state files and the audit log.
pub mod Filed
pub mod Sound
pub mod Kept
use unixtime_machine.Prelude.{
  Bool, true, false, not, List, [], ◌∷◌, ◌++◌, Option, none, some, String, is_some, if◌then◌else◌,
}
use unixtime_machine.Prelude.Dict.{Dict, lookup, put}
use unixtime_machine.Errors.{
  Error, invalid_transition, invalid_state_file, file_not_found, unreadable_json, mistyped_record,
  not_a_mapping, is_bad_record, storage_failed,
}
use unixtime_machine.Exec.{
  Outcome, ok, raised, Exec, pure, lift, modify, raise_if, gets, ◌>>=◌, ◌>>◌, Action,
}
use unixtime_machine.Models.{SessionState, SessionRecord, value, allowed}
use unixtime_machine.Host.{
  Host, StateFile, valid, no_mapping, mistyped, unreadable, AuditEntry, Detail, state_text,
}

-- `SessionRecord.from_dict(json.loads(path.read_text()))`
abbrev pub parse : String → StateFile → Outcome SessionRecord
parse id (valid r) = ok r
parse id no_mapping = raised (not_a_mapping id)
parse id mistyped = raised (mistyped_record id)
parse id unreadable = raised (unreadable_json id)

abbrev pub load_outcome : String → Option StateFile → Outcome SessionRecord
load_outcome id none = raised (file_not_found id)
load_outcome id (some f) = parse id f

-- `Store.load`
unfoldable pub load : String → Exec Host SessionRecord
load id h = (load_outcome id (lookup id h.files), h)

-- One file of the loop in `Store.all`: what it adds, and the error that ends the loop.
abbrev collect :
    Bool
    → String
    → Outcome SessionRecord
    → Outcome (List SessionRecord)
    → Outcome (List SessionRecord)
collect strict id (ok r) (ok rest) = ok (r ∷ rest)
collect strict id (ok r) (raised e) = raised e
collect strict id (raised e) rest =
    if is_bad_record e then (if strict then raised (invalid_state_file id) else rest) else raised e

unfoldable pub all_of : Bool → Dict StateFile → Outcome (List SessionRecord)
all_of strict [] = ok []
all_of strict ((id, f) ∷ rest) = collect strict id (parse id f) (all_of strict rest)

-- `Store.all`
unfoldable pub all : Bool → Exec Host (List SessionRecord)
unfolding all_of
all strict h = (all_of strict h.files, h)

-- The stamps that `save` sets on the record.
abbrev pub stamp : Host → SessionRecord → SessionRecord
stamp h r = record r {
  updated_at = some h.now;
  created_at = if is_some r.created_at then r.created_at else some h.now;
}

abbrev pub take_write : List Bool → Action Host
take_write [] h = (ok tt, h)
take_write (false ∷ rest) h = (ok tt, record h { write_faults = rest })
take_write (true ∷ rest) h = (raised storage_failed, record h { write_faults = rest })

-- A write of a record or of an audit line, before its effect: it may raise.
unfoldable pub write_state : Action Host
write_state h = take_write h.write_faults h

-- `os.replace` at the end of `atomic_json`
unfoldable pub commit : SessionRecord → Exec Host SessionRecord
commit r h = let r' = stamp h r in (ok r', record h { files = put r.session_id (valid r') h.files })

-- `Store.save`; the record comes back, since its stamps are set in place.
unfoldable pub save : SessionRecord → Exec Host SessionRecord
unfolding ◌>>=◌ write_state commit
save r = do write_state; commit r

abbrev pub described : Option SessionRecord → Option (String × String × SessionState)
described none = none
described (some r) = some (r.session_id, r.system_id, r.state)

unfoldable pub append : String → Option SessionRecord → Detail → Action Host
append event r detail h =
    let entry : AuditEntry = record {
      event = event;
      timestamp = h.now;
      session = described r;
      detail = detail;
    } in
    (ok tt, record h { audits = h.audits ++ entry ∷ [] })

-- `Store.audit`
unfoldable pub audit : String → Option SessionRecord → Detail → Action Host
unfolding ◌>>=◌ write_state append
audit event r detail = do write_state; append event r detail

-- `Store.transition`; the record comes back, since its state is set in place.
unfoldable pub transition : SessionRecord → SessionState → String → Detail → Exec Host SessionRecord
unfolding raise_if pure save audit ◌>>=◌
transition r state event detail = do
  raise_if (not (allowed r.state state)) (invalid_transition (value r.state) (value state))
  saved ← save (record r { state = state })
  audit event (some saved) (("from", state_text r.state) ∷ ("to", state_text state) ∷ detail)
  pure saved
