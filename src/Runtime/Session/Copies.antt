-- ===== src/Runtime/Session/Copies.antt =====
-- What `prepare_session` of scripts/utmlib.py has copied where it returns.
use unixtime_machine.Prelude.{
  ◌≡◌, refl, sym, subst, ◌∙◌, Bool, not, List, [], ◌∷◌, String, some, str_eq, eq_iff, arith,
  if◌then◌else◌, or_else,
}
use unixtime_machine.Prelude.Dict.{Dict, lookup, lookup_absent, lookup-put, lookup-put_self, put}
use unixtime_machine.Exec.{pure, gets, lift, modify, ◌>>=◌, ◌>>◌}
use unixtime_machine.Exec.Leads.{
  Leads, Leads-pure, Leads-bind, Leads-gets, Leads-lift, Leads-modify, Ended,
}
use unixtime_machine.Outcome.{Outcome, ok, raised, Ensures}
use unixtime_machine.Host.{Host, Workspace, DiskFile, GoldenFile, readable}
use unixtime_machine.Broker.Base.{new_workspace}
use unixtime_machine.Manifest.{Disk}
use unixtime_machine.Runtime.Copy.{Medium}
use unixtime_machine.Runtime.Copy.Result.{IsCopied, copy_exclusive-IsCopied}
use unixtime_machine.Runtime.Golden.{hash_set}
use unixtime_machine.Runtime.Session.{
  Surroundings, directory_at, set_mode, edit, copy_disk, copy_disks, copy_and_hash,
}

-- While the disks are copied, the other processes change neither the golden disks of the system nor
-- the transaction's directory.
pub record IsQuiet (around : Surroundings) (system_id path : String) : Type 0 where
  pub before_golden :
      (id : String) (h : Host) → (around.before_copy id h).golden system_id ≡ h.golden system_id
  pub before_directory :
      (id : String) (h : Host)
      → lookup path (around.before_copy id h).transactions ≡ lookup path h.transactions
  pub after_golden : (h : Host) → (around.after_copies h).golden system_id ≡ h.golden system_id
  pub after_directory :
      (h : Host) → lookup path (around.after_copies h).transactions ≡ lookup path h.transactions

-- A directory holds a copy of one golden disk, with the mode that a private copy gets.
pub record Holds (golden : String → GoldenFile) (files : Dict DiskFile) (disk : Disk) : Type 0 where
  pub digest : String
  pub source : golden disk.golden_filename ≡ readable digest
  pub copy : lookup disk.session_filename files ≡ some (record { digest = digest; mode = 0o640 })

abbrev pub HoldsAll : (String → GoldenFile) → Dict DiskFile → List Disk → Type 0
HoldsAll golden files [] = Unit
HoldsAll golden files (disk ∷ disks) = Holds golden files disk × HoldsAll golden files disks

-- No file is lost or replaced.
abbrev pub IsKept : Dict DiskFile → Dict DiskFile → Type 0
IsKept old new =
    (name : String) (file : DiskFile) → lookup name old ≡ some file → lookup name new ≡ some file

lookup-set_mode :
    (name k : String) (file : DiskFile) (old : Dict DiskFile)
    → lookup k (set_mode (put name file old) name)
      ≡ (if str_eq name k then some (record file { mode = 0o640 }) else lookup k old)
lookup-set_mode name k file old =
    let known = lookup-put name k file old in
    let changed = lookup-put name k (record file { mode = 0o640 }) (put name file old) in
    rw (set_mode, lookup-put_self) (ground (arith, known, changed))

module _ (golden : String → GoldenFile) (disk : Disk) (medium : Medium) (old new : Dict DiskFile)
    (copied : IsCopied medium (golden disk.golden_filename) disk.session_filename old new) where
  Holds-copied : Holds golden (set_mode new disk.session_filename) disk
  Holds-copied = record {
    digest = copied.digest;
    source = copied.source_holds;
    copy =
        rw (copied.result, lookup-set_mode)
          (ground (arith, eq_iff disk.session_filename disk.session_filename));
  }

  IsKept-copied : IsKept old (set_mode new disk.session_filename)
  IsKept-copied name file e =
      let absent = lookup_absent disk.session_filename old copied.was_absent in
      rw (copied.result, lookup-set_mode)
        (ground (arith, eq_iff disk.session_filename name, absent))

directory_at-same :
    (path : String) (h t : Host)
    → lookup path t.transactions ≡ lookup path h.transactions
    → directory_at path t ≡ directory_at path h
directory_at-same path h t e = rw (directory_at, e)

directory_at-edit :
    (path : String) (change : Workspace → Workspace) (h : Host)
    → directory_at path (edit path change h).1
      ≡ (change (or_else (lookup path h.transactions) new_workspace)).disks
unfolding edit modify
directory_at-edit path change h = rw (directory_at, lookup-put_self)

module _ (system_id path : String) where
  -- One copy, or several, from one host to another.
  pub record IsStep (h t : Host) : Type 0 where
    pub golden_same : t.golden system_id ≡ h.golden system_id
    pub kept : IsKept (directory_at path h) (directory_at path t)

  module _ (around : Surroundings) (quiet : IsQuiet around system_id path) (full_copy : Bool) where
    module _ (disk : Disk) (h : Host) where
      abbrev started : Host
      started = around.before_copy disk.id h

      abbrev changed : Dict DiskFile → Workspace → Workspace
      changed disks w = record w { disks = set_mode disks disk.session_filename }

      copied_step :
          (disks : Dict DiskFile)
          → IsCopied
              (around.medium disk.session_filename)
              (started.golden system_id disk.golden_filename)
              disk.session_filename
              (directory_at path started)
              disks
          → IsStep h (edit path (changed disks) started).1
            × Holds
                (h.golden system_id)
                (directory_at path (edit path (changed disks) started).1)
                disk
      unfolding edit modify
      copied_step disks copied =
          let after = sym (directory_at-edit path (changed disks) started) in
          let before = directory_at-same path h started (quiet.before_directory disk.id h) in
          let same = quiet.before_golden disk.id h in
          let medium = around.medium disk.session_filename in
          let files = directory_at path started in
          let new = set_mode disks disk.session_filename in
          let held = Holds-copied (started.golden system_id) disk medium files disks copied in
          let kept = IsKept-copied (started.golden system_id) disk medium files disks copied in
          (
            record {
              golden_same = same;
              kept =
                  subst (λ d. IsKept (directory_at path h) d) after
                    (subst (λ d. IsKept d new) before kept);
            },
            subst (λ d. Holds (h.golden system_id) d disk) after
                (subst (λ g. Holds g new disk) same held),
          )

      copied_next :
          (r : Outcome (String × Dict DiskFile))
          → Ensures
              (λ (method, disks).
                IsCopied
                  (around.medium disk.session_filename)
                  (started.golden system_id disk.golden_filename)
                  disk.session_filename
                  (directory_at path started)
                  disks)
              r
          → Ended
              (λ _ t. IsStep h t × Holds (h.golden system_id) (directory_at path t) disk)
              ((lift r >>= λ (method, disks). edit path (changed disks) >> pure method) started)
      unfolding ◌>>=◌ lift pure edit modify copied_step
      copied_next (ok (method, disks)) copied = copied_step disks copied
      copied_next (raised e) copied = tt

      copy_disk-Holds :
          Leads
            (copy_disk around path system_id full_copy disk)
            h
            (λ _ t. IsStep h t × Holds (h.golden system_id) (directory_at path t) disk)
      unfolding copy_disk copied_next ◌>>=◌ gets modify
      copy_disk-Holds = record {
        at =
            copied_next _
              (copy_exclusive-IsCopied (not full_copy) (around.medium disk.session_filename)
                (started.golden system_id disk.golden_filename) disk.session_filename
                (directory_at path started)).at;
      }

    Holds-kept :
        (golden : String → GoldenFile) (old new : Dict DiskFile) (disk : Disk)
        → IsKept old new
        → Holds golden old disk
        → Holds golden new disk
    Holds-kept golden old new disk kept held = record {
      digest = held.digest;
      source = held.source;
      copy = kept disk.session_filename _ held.copy;
    }

    HoldsAll-golden :
        (golden other : String → GoldenFile) (files : Dict DiskFile) (disks : List Disk)
        → other ≡ golden
        → HoldsAll other files disks
        → HoldsAll golden files disks
    HoldsAll-golden golden other files disks e held = subst (λ g. HoldsAll g files disks) e held

    IsStep-trans : (h t u : Host) → IsStep h t → IsStep t u → IsStep h u
    IsStep-trans h t u first second = record {
      golden_same = second.golden_same ∙ first.golden_same;
      kept = λ name file e. second.kept name file (first.kept name file e);
    }

    copy_disks-HoldsAll :
        (disks : List Disk) (h : Host)
        → Leads
            (copy_disks around path system_id full_copy disks)
            h
            (λ _ t. IsStep h t × HoldsAll (h.golden system_id) (directory_at path t) disks)
    unfolding copy_disks
    copy_disks-HoldsAll [] h =
        Leads-pure [] h (record { golden_same = refl; kept = λ name file e. e }, tt)
    copy_disks-HoldsAll (disk ∷ disks) h =
        Leads-bind _ _ h (copy_disk-Holds disk h) λ method t (first, held).
          Leads-bind _ _ t (copy_disks-HoldsAll disks t) λ methods u (second, rest).
            let kept =
              Holds-kept (h.golden system_id) (directory_at path t) (directory_at path u) disk
                second.kept held in
            let others =
              HoldsAll-golden (h.golden system_id) (t.golden system_id) (directory_at path u) disks
                first.golden_same rest in
            Leads-pure (method ∷ methods) u (IsStep-trans h t u first second, (kept, others))

    module _ (disks : List Disk) (h : Host) where
      abbrev pub HasCopies : Host → Type 0
      HasCopies t = IsStep h t × HoldsAll (h.golden system_id) (directory_at path t) disks

      HasCopies-after : (t : Host) → HasCopies t → HasCopies (around.after_copies t)
      HasCopies-after t (step, held) =
          let same = directory_at-same path t (around.after_copies t) (quiet.after_directory t) in
          (
            record {
              golden_same = quiet.after_golden t ∙ step.golden_same;
              kept = subst (λ d. IsKept (directory_at path h) d) (sym same) step.kept;
            },
            subst (λ d. HoldsAll (h.golden system_id) d disks) (sym same) held,
          )

      pub copy_and_hash-HasCopies :
          Leads (copy_and_hash around path system_id full_copy disks) h (λ _ t. HasCopies t)
      unfolding copy_and_hash
      copy_and_hash-HasCopies = Leads-bind _ _ h (copy_disks-HoldsAll disks h) λ methods t copied.
          Leads-bind {P = λ _ u. HasCopies u} (modify around.after_copies) _ t
            (Leads-modify around.after_copies t (HasCopies-after t copied))
            λ _ u more.
              Leads-bind {P = λ _ v. HasCopies v} (gets (λ g. g.golden system_id)) _ u
                (Leads-gets (λ g. g.golden system_id) u more)
                λ golden v more.
                  Leads-bind {P = λ _ w. HasCopies w} (lift (hash_set golden disks [])) _ v
                    (Leads-lift (hash_set golden disks []) v λ _ _. more)
                    λ after w more. Leads-pure (methods, after) w more
