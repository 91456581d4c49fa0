-- ===== src/Runtime/Session/Complete.antt =====
-- What the transaction of `prepare_session` in scripts/utmlib.py has made where it returns: a session
-- directory with a copy of every golden disk.
use unixtime_machine.Prelude.{
  ◌≡◌, refl, subst, Bool, not, List, [], String, Option, none, some, or_else,
}
use unixtime_machine.Prelude.Dict.{Dict, lookup, contains, lookup-put_self}
use unixtime_machine.Errors.{Error, target_not_empty, golden_changed_in_copy}
use unixtime_machine.Broker.Release.{same_dict}
use unixtime_machine.Exec.{modify, raise_if, rescue}
use unixtime_machine.Exec.Leads.{
  Leads, Leads-pure, Leads-bind, Leads-gets, Leads-modify, Leads-raise_if, Leads-rescue,
  Leads-raise,
}
use unixtime_machine.Host.{Host, Workspace, Metadata, GoldenFile}
use unixtime_machine.Broker.Base.{new_workspace, workspace_path}
use unixtime_machine.Manifest.{Disk}
use unixtime_machine.Runtime.Session.Copies.{IsQuiet, HoldsAll, HasCopies, copy_and_hash-HasCopies}
use unixtime_machine.Runtime.Session.{
  Surroundings, directory_at, edit, copy_and_hash, became_unreadable, move, replace_directory,
  fill_transaction,
}

-- The directory of a transaction, or of a session, that is complete.
pub record IsComplete (golden : String → GoldenFile) (disks : List Disk) (metadata : Metadata)
    (w : Workspace) : Type 0 where
  pub copies : HoldsAll golden w.disks disks
  pub described : w.metadata ≡ some metadata

disks_of :
    (o : Option Workspace)
    → (elim o [ none ↦ [] | some w ↦ w.disks ]) ≡ (or_else o new_workspace).disks
disks_of none = refl
disks_of (some w) = refl

-- What a name stands for in a directory of directories.
abbrev pub IsAt : String → Dict Workspace → (Workspace → Type 0) → Type 0
IsAt path directories P = (w : Workspace) × (lookup path directories ≡ some w) × P w

module _ (system_id session_id path : String) (around : Surroundings)
    (quiet : IsQuiet around system_id path) (full_copy : Bool) (disks : List Disk) (h : Host)
    (before : Dict String) where
  abbrev pub metadata_of : List String → Metadata
  metadata_of methods = record {
    copy_methods = methods;
    golden_sha256 = before;
    session_id = session_id;
    system_id = system_id;
  }

  abbrev pub IsCompleteWith : List String → Workspace → Type 0
  IsCompleteWith methods = IsComplete (h.golden system_id) disks (metadata_of methods)

  abbrev described_by : List String → Workspace → Workspace
  described_by methods w = record w { metadata = some (metadata_of methods) }

  edited :
      (methods : List String) (t : Host)
      → HoldsAll (h.golden system_id) (directory_at path t) disks
      → IsAt path (edit path (described_by methods) t).1.transactions (IsCompleteWith methods)
  unfolding edit modify
  edited methods t held =
      let old = or_else (lookup path t.transactions) new_workspace in
      (
        described_by methods old,
        lookup-put_self path (described_by methods old) t.transactions,
        record {
          copies =
              subst (λ d. HoldsAll (h.golden system_id) d disks)
                (disks_of (lookup path t.transactions)) held;
          described = refl;
        },
      )

  moved :
      (to : String) (t : Host) (P : Workspace → Type 0)
      → IsAt path t.transactions P
      → IsAt to (move path to t).workspaces P
  moved to t P (w, e, p) = (w, rw (move, e) (lookup-put_self to w t.workspaces), p)

  became_unreadable-Leads :
      (e : Error) (t : Host) (Q : List String × Dict String → Host → Type 0)
      → Leads (became_unreadable e) t Q
  unfolding became_unreadable
  became_unreadable-Leads e t Q = Leads-raise _ t

  edited-Leads :
      (methods : List String) (t : Host)
      → HoldsAll (h.golden system_id) (directory_at path t) disks
      → Leads
          (edit path (described_by methods))
          t
          (λ _ u. IsAt path u.transactions (IsCompleteWith methods))
  unfolding edit edited
  edited-Leads methods t held = Leads-modify _ t (edited methods t held)

  replaced-Leads :
      (to : String) (t : Host) (P : Workspace → Type 0)
      → IsAt path t.transactions P
      → Leads (replace_directory path to) t (λ _ u. IsAt to u.workspaces P)
  unfolding replace_directory
  replaced-Leads to t P made =
      Leads-bind {P = λ _ u. IsAt path u.transactions P} _ _ t
        (Leads-gets (λ g. contains to g.workspaces) t made)
        λ occupied u made.
          Leads-bind {P = λ _ v. IsAt path v.transactions P}
            (raise_if occupied (target_not_empty to)) _ u (Leads-raise_if occupied _ u λ _. made)
            λ _ v made. Leads-modify (move path to) v (moved to v P made)

  pub fill_transaction-Leads :
      Leads
        (fill_transaction around path system_id session_id full_copy disks before)
        h
        (λ methods t.
          IsAt (workspace_path system_id session_id) t.workspaces (IsCompleteWith methods))
  unfolding fill_transaction
  fill_transaction-Leads =
      let to = workspace_path system_id session_id in
      let body = copy_and_hash around path system_id full_copy disks in
      let good = HasCopies system_id path around quiet full_copy disks h in
      Leads-bind (rescue body became_unreadable) _ h
        (Leads-rescue body became_unreadable h
          (copy_and_hash-HasCopies system_id path around quiet full_copy disks h)
          (λ e t. became_unreadable-Leads e t _))
        λ (methods, after) t copied.
          Leads-bind {P = λ _ u. good u}
            (raise_if (not (same_dict before after)) golden_changed_in_copy) _ t
            (Leads-raise_if _ _ t λ _. copied)
            λ _ u copied.
              Leads-bind (edit path (described_by methods)) _ u (edited-Leads methods u copied.1)
                λ _ v made.
                  Leads-bind (replace_directory path to) _ v
                    (replaced-Leads to v (IsCompleteWith methods) made)
                    λ _ w made. Leads-pure methods w made
