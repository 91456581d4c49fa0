-- ===== src/Runtime/Session/Atomic.antt =====
-- What a failed `prepare_session` of scripts/utmlib.py leaves of directories.
use unixtime_machine.Prelude.{
  ◌≡◌, refl, ◌∙◌, Bool, true, false, Bool-cases, inl, inr, List, [], ◌∷◌, String, str_eq, eq_iff,
  arith, Option, none, some,
}
use unixtime_machine.Prelude.Dict.{
  Dict, lookup, contains, lookup_absent, lookup-put, lookup-without,
}
use unixtime_machine.Errors.{Error, stale_transaction}
use unixtime_machine.Exec.{Exec, Outcome, ok, raised, modify, handle, raise_if, rescue, gets, ◌>>=◌}
use unixtime_machine.Exec.Frame.{
  Frame, Within, Within-bind, Within-pure, Within-modify, Within-raise, frame_rules,
}
use unixtime_machine.Exec.Sparing.{Sparing, OnRaise, later, sparing_rules, raised_at}
use unixtime_machine.Host.{Host, Workspace}
use unixtime_machine.Broker.Base.{new_workspace}
use unixtime_machine.Manifest.{Disk, ManifestFile}
use unixtime_machine.Runtime.Session.{
  Surroundings, settle, remove_directory, transaction_path, edit, copy_disk, copy_disks,
  copy_and_hash, became_unreadable, replace_directory, fill_transaction, discard_transaction,
  with_transaction, prepare_disks, prepare_session,
}

-- One session directory and one transaction's directory are as before.
pub record IsLeft (session transaction : String) (h h' : Host) : Type 0 where
  pub session_same : lookup session h'.workspaces ≡ lookup session h.workspaces
  pub transaction_same : lookup transaction h'.transactions ≡ lookup transaction h.transactions

unfoldable pub left : String → String → Frame Host
left session transaction = record {
  relates = IsLeft session transaction;
  refl_at = λ h. record { session_same = refl; transaction_same = refl };
  trans_at = λ h t u p q. record {
    session_same = q.session_same ∙ p.session_same;
    transaction_same = q.transaction_same ∙ p.transaction_same;
  };
}

-- The other processes leave them alone.
pub record IsApart (around : Surroundings) (session transaction : String) : Type 0 where
  pub before : (id : String) (h : Host) → IsLeft session transaction h (around.before_copy id h)
  pub after : (h : Host) → IsLeft session transaction h (around.after_copies h)

-- A directory is not the one that the transaction makes, or a removal leaves nothing.
pub data Disposable (around : Surroundings) (path transaction : String) : Type 0 where
  other : str_eq path transaction ≡ false → Disposable around path transaction
  removed : ((w : Workspace) → around.remains w ≡ none) → Disposable around path transaction

-- The session directory is as before, and the transaction's directory unless it is `path`.
record IsElsewhere (path session transaction : String) (h h' : Host) : Type 0 where
  session_same : lookup session h'.workspaces ≡ lookup session h.workspaces
  other_same :
      str_eq path transaction ≡ false
      → lookup transaction h'.transactions ≡ lookup transaction h.transactions

module _ (path session transaction : String) where
  unfoldable elsewhere : Frame Host
  elsewhere = record {
    relates = IsElsewhere path session transaction;
    refl_at = λ h. record { session_same = refl; other_same = λ e. refl };
    trans_at = λ h t u p q. record {
      session_same = q.session_same ∙ p.session_same;
      other_same = λ e. q.other_same e ∙ p.other_same e;
    };
  }

  edit-elsewhere : (change : Workspace → Workspace) → Within elsewhere (edit path change)
  unfolding edit elsewhere
  edit-elsewhere change =
      Within-modify _ λ h. record { session_same = refl; other_same = λ e. rw (lookup-put, e) }

  module _ (around : Surroundings) (apart : IsApart around session transaction) where
    others-elsewhere :
        (f : Host → Host)
        → ((h : Host) → IsLeft session transaction h (f h))
        → Within elsewhere (modify f)
    unfolding elsewhere
    others-elsewhere f k =
        Within-modify f λ h. record {
          session_same = (k h).session_same;
          other_same = λ e. (k h).transaction_same;
        }

    before_copy-elsewhere : (id : String) → Within elsewhere (modify (around.before_copy id))
    before_copy-elsewhere id = others-elsewhere _ (apart.before id)

    after_copies-elsewhere : Within elsewhere (modify around.after_copies)
    after_copies-elsewhere = others-elsewhere _ apart.after

    copy_disk-elsewhere :
        (system_id : String) (full_copy : Bool) (disk : Disk)
        → Within elsewhere (copy_disk around path system_id full_copy disk)
    unfolding copy_disk
    copy_disk-elsewhere system_id full_copy disk =
        search (frame_rules, before_copy-elsewhere, edit-elsewhere) depth 9

    copy_disks-elsewhere :
        (system_id : String) (full_copy : Bool) (disks : List Disk)
        → Within elsewhere (copy_disks around path system_id full_copy disks)
    unfolding copy_disks
    copy_disks-elsewhere system_id full_copy [] = Within-pure []
    copy_disks-elsewhere system_id full_copy (disk ∷ disks) =
        Within-bind _ _ (copy_disk-elsewhere system_id full_copy disk) λ method.
          Within-bind _ _ (copy_disks-elsewhere system_id full_copy disks)
            λ methods. Within-pure (method ∷ methods)

    copy_and_hash-elsewhere :
        (system_id : String) (full_copy : Bool) (disks : List Disk)
        → Within elsewhere (copy_and_hash around path system_id full_copy disks)
    unfolding copy_and_hash
    copy_and_hash-elsewhere system_id full_copy disks =
        search (frame_rules, copy_disks-elsewhere, after_copies-elsewhere) depth 9

    became_unreadable-elsewhere : (e : Error) → Within elsewhere (became_unreadable e)
    unfolding became_unreadable
    became_unreadable-elsewhere e = Within-raise _

    -- The new directory appears last, after all that may raise.
    replace_directory-Sparing : (to : String) → Sparing elsewhere (replace_directory path to)
    unfolding replace_directory
    replace_directory-Sparing to = search (frame_rules, sparing_rules) depth 9

    fill_transaction-Sparing :
        (system_id session_id : String) (full_copy : Bool) (disks : List Disk)
        (before : Dict String)
        → Sparing elsewhere
            (fill_transaction around path system_id session_id full_copy disks before)
    unfolding fill_transaction
    fill_transaction-Sparing system_id session_id full_copy disks before =
        search
          (
            frame_rules, sparing_rules, copy_and_hash-elsewhere, became_unreadable-elsewhere,
            edit-elsewhere, replace_directory-Sparing,
          )
          depth 12

  module _ (around : Surroundings) where
    -- The directory that the transaction made is gone again, or is not the one in question.
    discarded :
        (h t : Host) (own : Option Workspace)
        → lookup path t.transactions ≡ own
        → contains path h.transactions ≡ false
        → IsElsewhere path session transaction h t
        → Disposable around path transaction
        → IsLeft session transaction h (remove_directory around.remains path t)
    unfolding contains
    discarded h t none e fresh kept way = record {
      session_same = rw (remove_directory, e) kept.session_same;
      transaction_same =
          let absent = lookup_absent path h.transactions fresh in
          elim (Bool-cases (str_eq path transaction)) [
            | inl same ↦
                rw (remove_directory, e) (ground (arith, eq_iff path transaction, absent, e))
            | inr differ ↦ rw (remove_directory, e) (kept.other_same differ)
          ];
    }
    discarded h t (some w) e fresh kept (removed gone) = record {
      session_same = rw (remove_directory, e) kept.session_same;
      transaction_same =
          let absent = lookup_absent path h.transactions fresh in
          let at = lookup-without path transaction t.transactions in
          elim (Bool-cases (str_eq path transaction)) [
            | inl same ↦
                rw (remove_directory, e, gone) (ground (arith, eq_iff path transaction, absent, at))
            | inr differ ↦
                rw (remove_directory, e, gone, lookup-without, differ) (kept.other_same differ)
          ];
    }
    discarded h t (some w) e fresh kept (other differ) = record {
      session_same = rw (remove_directory, e) kept.session_same;
      transaction_same =
          rw (remove_directory, e) (settled_elsewhere (around.remains w) ∙ kept.other_same differ);
    }
      where
        settled_elsewhere :
            (rest : Option Workspace)
            → lookup transaction (settle path rest t.transactions)
              ≡ lookup transaction t.transactions
        settled_elsewhere none = rw (lookup-without, differ)
        settled_elsewhere (some rest) = rw (lookup-put, differ)

    settled :
        (h : Host) (x : Outcome (List String) × Host)
        → contains path h.transactions ≡ false
        → Disposable around path transaction
        → OnRaise elsewhere h x
        → OnRaise (left session transaction) h (handle x.0 (discard_transaction around path) x.1)
    unfolding discard_transaction left elsewhere
    settled h (ok methods, t) fresh way kept = tt
    settled h (raised e, t) fresh way kept = discarded h t _ refl fresh kept way

    started :
        (b : Bool) (body : Exec Host (List String)) (h : Host)
        → contains path h.transactions ≡ b
        → Disposable around path transaction
        → Sparing elsewhere body
        → OnRaise (left session transaction) h (
            (raise_if b (stale_transaction path) >>= λ _.
            edit path (λ w. new_workspace) >>= λ _. rescue body (discard_transaction around path))
              h)
    unfolding ◌>>=◌ raise_if rescue settled edit modify
    started true body h stale way sb = (left session transaction).refl_at h
    started false body h fresh way sb =
        let made = (edit path (λ w. new_workspace) h).1 in
        let kept = (edit-elsewhere (λ w. new_workspace)).at h in
        settled h (body made) fresh way (later elsewhere h made (body made) kept (sb.at made))

    with_transaction-Sparing :
        (body : Exec Host (List String))
        → Disposable around path transaction
        → Sparing elsewhere body
        → Sparing (left session transaction) (with_transaction around path body)
    unfolding with_transaction started ◌>>=◌ gets
    with_transaction-Sparing body way sb = record {
      at = λ h. started (contains path h.transactions) body h refl way sb;
    }

module _ (around : Surroundings) (session transaction : String)
    (apart : IsApart around session transaction) where
  prepare_disks-Sparing :
      (system_id session_id : String) (full_copy : Bool) (disks : List Disk)
      → Disposable around (transaction_path system_id session_id around.pid) transaction
      → Sparing
          (left session transaction)
          (prepare_disks around system_id session_id full_copy disks)
  unfolding prepare_disks
  prepare_disks-Sparing system_id session_id full_copy disks way =
      search
        (
          frame_rules,
          sparing_rules,
          with_transaction-Sparing,
          fill_transaction-Sparing _ _ _ around apart,
        )
        depth 16

  prepare_session-Sparing :
      (manifests : String → ManifestFile) (system_id session_id : String)
      → Disposable around (transaction_path system_id session_id around.pid) transaction
      → Sparing (left session transaction) (prepare_session manifests around system_id session_id)
  unfolding prepare_session
  prepare_session-Sparing manifests system_id session_id way =
      search (frame_rules, sparing_rules, prepare_disks-Sparing) depth 12

-- Where the preparation of a session raises, every session directory and every transaction's
-- directory that the other processes leave alone while the disks are copied is as it was before: no
-- partial session and no transaction is left behind, and none that was there is lost. The directory
-- of the own transaction is included where its removal, whose errors are ignored, leaves nothing.
pub prepare_session_atomic :
    (manifests : String → ManifestFile) (around : Surroundings) (session transaction : String)
    → IsApart around session transaction
    → (system_id session_id : String)
    → Disposable around (transaction_path system_id session_id around.pid) transaction
    → (h : Host) (e : Error)
    → (prepare_session manifests around system_id session_id h).0 ≡ raised e
    → IsLeft session transaction h (prepare_session manifests around system_id session_id h).1
unfolding left
prepare_session_atomic manifests around session transaction apart system_id session_id way h e p =
    let sparing =
      prepare_session-Sparing around session transaction apart manifests system_id session_id way in
    raised_at (left session transaction) h _ e p (sparing.at h)
