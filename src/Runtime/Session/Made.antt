-- ===== src/Runtime/Session/Made.antt =====
-- What `prepare_session` of scripts/utmlib.py has made where it returns.
use unixtime_machine.Prelude.{◌≡◌, refl, sym, subst, ◌∙◌, ap, Bool, not, List, [], String}
use unixtime_machine.Prelude.Dict.{Dict, contains}
use unixtime_machine.Errors.{
  Error, stale_transaction, incomplete_golden, golden_unreadable, existing_session,
}
use unixtime_machine.Exec.{gets, lift, raise_if}
use unixtime_machine.Exec.Leads.{
  Leads, Leads-pure, Leads-bind, Leads-gets, Leads-lift, Leads-modify, Leads-raise_if, Leads-rescue,
  Leads-raise, Leads-result,
}
use unixtime_machine.Outcome.{Outcome, ok, raised}
use unixtime_machine.Host.{Host, GoldenFile}
use unixtime_machine.Broker.Base.{new_workspace, workspace_path}
use unixtime_machine.Manifest.{Disk, Manifest, ManifestFile, system_manifest}
use unixtime_machine.Ids.{safe_id}
use unixtime_machine.Runtime.Copy.{is_nil, prepared_disks}
use unixtime_machine.Runtime.Golden.{missing_golden, hash_set, or_permission}
use unixtime_machine.Runtime.Session.Copies.{IsQuiet}
use unixtime_machine.Runtime.Session.Complete.{IsAt, IsComplete, fill_transaction-Leads}
use unixtime_machine.Runtime.Session.{
  transaction_path, Surroundings, edit, fill_transaction, discard_transaction, with_transaction,
  prepare_disks, prepare_session,
}

discarded-Leads :
    (around : Surroundings) (path : String) (e : Error) (t : Host) (Q : List String → Host → Type 0)
    → Leads (discard_transaction around path e) t Q
unfolding discard_transaction
discarded-Leads around path e t Q =
    Leads-bind {P = λ _ _. Unit} _ _ t (Leads-modify _ t tt) λ _ u _. Leads-raise e u

module _ (system_id session_id path : String) (around : Surroundings)
    (quiet : IsQuiet around system_id path) (full_copy : Bool) (disks : List Disk)
    (before : Dict String) (golden : String → GoldenFile) where
  -- The session directory is there, and it is complete.
  abbrev pub IsSession : List String → Host → Type 0
  IsSession methods t = IsAt (workspace_path system_id session_id) t.workspaces (
      IsComplete golden disks (record {
        copy_methods = methods;
        golden_sha256 = before;
        session_id = session_id;
        system_id = system_id;
      }))

  fill_transaction-IsSession :
      (h : Host)
      → h.golden system_id ≡ golden
      → Leads (fill_transaction around path system_id session_id full_copy disks before) h IsSession
  fill_transaction-IsSession h e =
      let to = workspace_path system_id session_id in
      subst
        (λ g.
          Leads (fill_transaction around path system_id session_id full_copy disks before) h
            λ methods t. IsAt to t.workspaces (
              IsComplete g disks (record {
                copy_methods = methods;
                golden_sha256 = before;
                session_id = session_id;
                system_id = system_id;
              })))
        e (fill_transaction-Leads system_id session_id path around quiet full_copy disks h before)

  with_transaction-IsSession :
      (h : Host)
      → h.golden system_id ≡ golden
      → Leads
          (with_transaction around path
            (fill_transaction around path system_id session_id full_copy disks before))
          h
          IsSession
  unfolding with_transaction edit
  with_transaction-IsSession h e =
      let body = fill_transaction around path system_id session_id full_copy disks before in
      Leads-bind {P = λ _ t. t.golden system_id ≡ golden} _ _ h
        (Leads-gets (λ g. contains path g.transactions) h e)
        λ stale t e.
          Leads-bind {P = λ _ t. t.golden system_id ≡ golden}
            (raise_if stale (stale_transaction path)) _ t (Leads-raise_if stale _ t λ _. e)
            λ _ u e.
              Leads-bind {P = λ _ t. t.golden system_id ≡ golden} (edit path (λ w. new_workspace)) _
                u (Leads-modify _ u e)
                λ _ v e.
                  Leads-rescue body (discard_transaction around path) v
                    (fill_transaction-IsSession v e)
                    λ x w. discarded-Leads around path x w IsSession

ok_beyond : {A : Type 0} (e : Error) (m : Outcome A) (a : A) → or_permission e m ≡ ok a → m ≡ ok a
ok_beyond e (ok b) a p = p
ok_beyond e (raised x) a p = absurd (cc)

same_value : {A : Type 0} {a b : A} → ok a ≡ ok b → a ≡ b
same_value {a = a} {b = b} e = cc

-- What a preparation has made of the golden disks.
pub record IsMade (golden : String → GoldenFile) (system_id session_id : String) (disks : List Disk)
    (made : String × List String) (t : Host) : Type 0 where
  pub path : made.0 ≡ workspace_path system_id session_id
  pub hashes : Dict String
  pub hashed : hash_set golden disks [] ≡ ok hashes
  pub complete : IsAt (workspace_path system_id session_id) t.workspaces (
      IsComplete golden disks (record {
        copy_methods = made.1;
        golden_sha256 = hashes;
        session_id = session_id;
        system_id = system_id;
      }))

module _ (around : Surroundings) (system_id session_id : String)
    (quiet : IsQuiet around system_id (transaction_path system_id session_id around.pid)) where
  prepare_disks-IsMade :
      (full_copy : Bool) (disks : List Disk) (h : Host)
      → Leads
          (prepare_disks around system_id session_id full_copy disks)
          h
          (IsMade (h.golden system_id) system_id session_id disks)
  unfolding prepare_disks
  prepare_disks-IsMade full_copy disks h =
      let path = transaction_path system_id session_id around.pid in
      let workspace = workspace_path system_id session_id in
      let golden = h.golden system_id in
      let found = λ (t : Host). t.golden system_id ≡ golden in
      Leads-bind {P = λ g t. (g ≡ golden) × found t} (gets (λ g. g.golden system_id)) _ h
        (Leads-gets (λ g. g.golden system_id) h (refl, refl))
        λ seen t (same, e).
          Leads-bind {P = λ _ t. found t} (lift (missing_golden seen disks)) _ t
            (Leads-lift _ t λ _ _. e)
            λ missing t e.
              Leads-bind {P = λ _ t. found t}
                (raise_if (not (is_nil missing)) (incomplete_golden missing)) _ t
                (Leads-raise_if _ _ t λ _. e)
                λ _ t e.
                  Leads-bind {P = λ before t. (hash_set golden disks [] ≡ ok before) × found t}
                    (lift (or_permission golden_unreadable (hash_set seen disks []))) _ t
                    (Leads-lift _ t λ before b. (
                      rw (sym same) (ok_beyond golden_unreadable (hash_set seen disks []) before b),
                      e,
                    ))
                    λ before t (hashed, e).
                      Leads-bind {P = λ _ t. found t} (gets (λ g. contains workspace g.workspaces))
                        _ t (Leads-gets _ t e)
                        λ occupied t e.
                          Leads-bind {P = λ _ t. found t}
                            (raise_if occupied (existing_session workspace)) _ t
                            (Leads-raise_if _ _ t λ _. e)
                            λ _ t e.
                              Leads-bind _ _ t
                                (with_transaction-IsSession system_id session_id path around quiet
                                  full_copy disks before golden t e)
                                λ methods t made.
                                  Leads-pure (workspace, methods) t
                                    (record {
                                      path = refl;
                                      hashes = before;
                                      hashed = hashed;
                                      complete = made;
                                    })

  module _ (manifests : String → ManifestFile) (manifest : Manifest) (disks : List Disk)
      (known : system_manifest manifests system_id ≡ ok manifest)
      (listed : prepared_disks manifest ≡ ok disks) where
    prepare_session-IsMade :
        (h : Host)
        → Leads
            (prepare_session manifests around system_id session_id)
            h
            (IsMade (h.golden system_id) system_id session_id disks)
    unfolding prepare_session
    prepare_session-IsMade h =
        Leads-bind {P = λ _ t. t ≡ h} (lift (safe_id "system id" system_id)) _ h
          (Leads-lift _ h λ _ _. refl)
          λ _ t e.
            Leads-bind {P = λ m u. (m ≡ manifest) × (u ≡ h)}
              (lift (system_manifest manifests system_id)) _ t
              (Leads-lift _ t λ m p. (same_value (sym p ∙ known), e))
              λ m t (same, e).
                Leads-bind {P = λ _ t. t ≡ h} (lift (safe_id "session id" session_id)) _ t
                  (Leads-lift _ t λ _ _. e)
                  λ _ t e.
                    Leads-bind {P = λ d t. (d ≡ disks) × (t ≡ h)} (lift (prepared_disks m)) _ t
                      (Leads-lift _ t
                        λ d p. (same_value (sym p ∙ ap prepared_disks same ∙ listed), e))
                      λ d t (same, e). rw (same, e) (prepare_disks-IsMade m.full_copy disks h)

-- Where the preparation of a session returns, and the other processes have left the golden disks of
-- the system and the transaction's directory alone while the disks were copied: the session's
-- directory holds, for each disk of the manifest, a file with mode 0640 whose SHA-256 is that of the
-- golden disk, and its metadata has the methods that are returned and the hashes of all golden disks.
pub prepare_session_copies :
    (manifests : String → ManifestFile) (around : Surroundings) (system_id session_id : String)
    (manifest : Manifest) (disks : List Disk) (h t : Host) (made : String × List String)
    → IsQuiet around system_id (transaction_path system_id session_id around.pid)
    → system_manifest manifests system_id ≡ ok manifest
    → prepared_disks manifest ≡ ok disks
    → prepare_session manifests around system_id session_id h ≡ (ok made, t)
    → IsMade (h.golden system_id) system_id session_id disks made t
prepare_session_copies manifests around system_id session_id manifest disks h t made quiet known
      listed returned =
    let leads =
      prepare_session-IsMade around system_id session_id quiet manifests manifest disks known listed
        h in
    Leads-result (prepare_session manifests around system_id session_id) h t made leads returned
