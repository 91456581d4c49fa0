-- ===== src/Runtime/Import/Loop.antt =====
-- The loop of `import_golden` of scripts/utmlib.py, on the transaction's directory.
use unixtime_machine.Prelude.{
  ◌≡◌, refl, sym, ap, subst, ◌∙◌, true, List, [], ◌∷◌, String, Option, some, str_eq, or_else,
  if◌then◌else◌,
}
use unixtime_machine.Prelude.Dict.{Dict, lookup, lookup-put_self, put}
use unixtime_machine.Exec.{gets, lift, pure, ◌>>=◌}
use unixtime_machine.Exec.Leads.{
  Leads, Leads-pure, Leads-bind, Leads-gets, Leads-lift, Leads-modify,
}
use unixtime_machine.Host.{GoldenFile, DiskFile, readable}
use unixtime_machine.Manifest.{Disk}
use unixtime_machine.Outcome.{ok, Yields-result}
use unixtime_machine.Runtime.Copy.{copy_exclusive}
use unixtime_machine.Runtime.Copy.Result.{IsCopied, copy_exclusive-IsCopied}
use unixtime_machine.Runtime.Import.{
  GoldenSet, Vault, Staging, new_set, edit_set, files_in, read_only, digest_in, chown, import_disk,
  import_disks,
}
use unixtime_machine.Runtime.Import.Filled.{
  IsSealed, AreSealed, AllReadOnly, IsHashed, IsKept, IsAdded, sealed_file, lookup-read_only,
  digest_in-read_only, IsKept-added, IsSealed-added, AllReadOnly-added, IsHashed-added,
}

-- What the loop has made of the files and the hashes.
pub record IsFilled (source : String → GoldenFile) (disks : List Disk)
    (before after : Dict (String × String)) (old new : Dict DiskFile) : Type 0 where
  pub kept : IsKept old new
  pub copies : AreSealed source new disks
  pub modes : AllReadOnly old → AllReadOnly new
  pub hashed : IsHashed before old → IsHashed after new

IsSealed-kept :
    (source : String → GoldenFile) (old new : Dict DiskFile) (disk : Disk)
    → IsKept old new
    → IsSealed source old disk
    → IsSealed source new disk
IsSealed-kept source old new disk kept held = record {
  digest = held.digest;
  staged = held.staged;
  copy = kept disk.golden_filename _ held.copy;
}

module _ (path : String) where
  -- The transaction's directory is there, with this content.
  abbrev pub IsAt : GoldenSet → Vault → Type 0
  IsAt s v = lookup path v.staged ≡ some s

  pub edit_set-IsAt :
      (change : GoldenSet → GoldenSet) (s : GoldenSet) (v : Vault)
      → IsAt s v
      → Leads (edit_set path change) v (λ _ t. IsAt (change s) t)
  unfolding edit_set
  edit_set-IsAt change s v e = Leads-modify _ v (
      lookup-put_self path _ _ ∙ ap (λ (o : Option GoldenSet). some (change (or_else o new_set))) e)

  files_in-IsAt : (s : GoldenSet) (v : Vault) → IsAt s v → files_in path v ≡ s.files
  files_in-IsAt s v e = rw (files_in, e) refl

  abbrev with_files : GoldenSet → Dict DiskFile → GoldenSet
  with_files s files = record s { files = files }

  module _ (staging : Staging) (source : String → GoldenFile) where
    module _ (disk : Disk) (s : GoldenSet) where
      abbrev IsOneMore : String → Vault → Type 0
      IsOneMore digest t =
          (new : Dict DiskFile) × IsAdded source disk digest s.files new × IsAt (with_files s new) t

      added :
          (files : Dict DiskFile) (digest : String)
          → IsCopied
              (staging.medium disk.golden_filename)
              (source (or_else disk.source_filename disk.golden_filename))
              disk.golden_filename
              s.files
              files
          → digest_in disk.golden_filename (read_only disk.golden_filename files) ≡ ok digest
          → IsAdded source disk digest s.files (read_only disk.golden_filename files)
      added files digest copied e =
          let name = disk.golden_filename in
          let same =
            digest_in-read_only name digest _ s.files
              (ap (λ d. digest_in name (read_only name d)) (sym copied.result) ∙ e) in
          record {
            staged = copied.source_holds ∙ ap readable same;
            absent = copied.was_absent;
            law = λ k.
                ap (λ d. lookup k (read_only name d)) copied.result
                ∙ lookup-read_only name k _ s.files
                ∙ ap (λ d. if str_eq name k then some (sealed_file d) else lookup k s.files) same;
          }

      hashed_step :
          (files : Dict DiskFile) (method : String) (t : Vault)
          → IsCopied
              (staging.medium disk.golden_filename)
              (source (or_else disk.source_filename disk.golden_filename))
              disk.golden_filename
              s.files
              files
          → IsAt (with_files s (read_only disk.golden_filename files)) t
          → Leads {A = String × String}
              (gets (files_in path) >>= λ copied.
                lift (digest_in disk.golden_filename copied) >>= λ digest. pure (method, digest))
              t
              (λ (method, digest) u. IsOneMore digest u)
      hashed_step files method t copied e =
          let new = read_only disk.golden_filename files in
          Leads-bind {P = λ d u. (d ≡ new) × IsAt (with_files s new) u} (gets (files_in path)) _ t
            (Leads-gets (files_in path) t (files_in-IsAt (with_files s new) t e, e))
            λ d u (same, e).
              Leads-bind
                {P = λ digest w.
                  (digest_in disk.golden_filename new ≡ ok digest) × IsAt (with_files s new) w}
                (lift (digest_in disk.golden_filename d)) _ u
                (Leads-lift _ u λ digest p. (ap (digest_in disk.golden_filename) (sym same) ∙ p, e))
                λ digest w (p, e).
                  Leads-pure (method, digest) w (new, added files digest copied p, e)

      import_disk-IsOneMore :
          (v : Vault)
          → IsAt s v
          → Leads
              (import_disk staging path source disk)
              v
              (λ (method, digest) t. IsOneMore digest t)
      unfolding import_disk
      import_disk-IsOneMore v e =
          let name = disk.golden_filename in
          let from = source (or_else disk.source_filename name) in
          Leads-bind {P = λ d t. (d ≡ s.files) × IsAt s t} (gets (files_in path)) _ v
            (Leads-gets (files_in path) v (files_in-IsAt s v e, e))
            λ directory t (same, e).
              Leads-bind
                {P = λ (x : String × Dict DiskFile) u.
                  IsCopied (staging.medium name) from name s.files x.1 × IsAt s u}
                (lift (copy_exclusive true (staging.medium name) from name directory)) _ t
                (Leads-lift _ t λ (method, files) p. (
                  subst (λ d. IsCopied (staging.medium name) from name d files) same
                      (Yields-result _ _
                        (copy_exclusive-IsCopied true (staging.medium name) from name directory) p),
                  e,
                ))
                λ (method, files) u (copied, e).
                  Leads-bind _ _ u (edit_set-IsAt (λ s. record s { files = files }) s u e) λ _ w e.
                    Leads-bind {P = λ _ w. IsAt (with_files s files) w} (lift (chown staging)) _ w
                      (Leads-lift _ w λ _ _. e)
                      λ _ w e.
                        Leads-bind _ _ w
                          (edit_set-IsAt (λ s. record s { files = read_only name s.files })
                            (with_files s files) w e)
                          λ _ w e. hashed_step files method w copied e

    -- The loop leaves the other fields of the directory alone.
    abbrev pub IsFull :
        List Disk → Dict (String × String) → Dict (String × String) → GoldenSet → Vault → Type 0
    IsFull disks before after s t =
        (new : Dict DiskFile) × IsFilled source disks before after s.files new
        × IsAt (with_files s new) t

    pub import_disks-IsFull :
        (disks : List Disk) (hashes : Dict (String × String)) (s : GoldenSet) (v : Vault)
        → IsAt s v
        → Leads
            (import_disks staging path source disks hashes)
            v
            (λ (methods, after) t. IsFull disks hashes after s t)
    unfolding import_disks
    import_disks-IsFull [] hashes s v e =
        Leads-pure ([], hashes) v
          (
            s.files,
            record { kept = λ name file p. p; copies = tt; modes = λ a. a; hashed = λ a. a },
            e,
          )
    import_disks-IsFull (disk ∷ disks) hashes s v e =
        Leads-bind _ _ v (import_disk-IsOneMore disk s v e) λ (method, digest) t (one, first, e).
          Leads-bind _ _ t
            (import_disks-IsFull disks (put disk.id (disk.golden_filename, digest) hashes)
              (with_files s one) t e)
            λ (methods, after) u (new, rest, e).
              Leads-pure (method ∷ methods, after) u
                (
                  new,
                  record {
                    kept = λ name file p.
                        rest.kept name file
                          (IsKept-added source disk digest s.files one first name file p);
                    copies = (
                      IsSealed-kept source one new disk rest.kept
                          (IsSealed-added source disk digest s.files one first),
                      rest.copies,
                    );
                    modes = λ all.
                        rest.modes (AllReadOnly-added source disk digest s.files one first all);
                    hashed = λ held.
                        rest.hashed
                          (IsHashed-added source disk digest s.files one first hashes held);
                  },
                  e,
                )
