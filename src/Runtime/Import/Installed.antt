-- ===== src/Runtime/Import/Installed.antt =====
-- What `import_golden` of scripts/utmlib.py has installed where it returns.
use unixtime_machine.Prelude.{ℕ, ◌≡◌, refl, sym, subst, not, List, [], String, Option, some}
use unixtime_machine.Prelude.Dict.{Dict, lookup, lookup-put_self, contains}
use unixtime_machine.Exec.{modify, raise_if, gets, lift, or_raise, pure, ◌>>=◌}
use unixtime_machine.Exec.Leads.{
  Leads, Leads-after, Leads-or_raise, Leads-pure, Leads-bind, Leads-gets, Leads-lift, Leads-modify,
  Leads-raise_if, Leads-rescue, Leads-raise, Leads-result, Leads-weaken,
}
use unixtime_machine.Host.{GoldenFile, DiskFile}
use unixtime_machine.Manifest.{Disk, Manifest, ManifestFile, system_manifest}
use unixtime_machine.Outcome.{ok, Yields-result}
use unixtime_machine.Errors.{
  Error, target_not_empty, no_golden_group, stale_import, media_as_golden, incomplete_staging,
  existing_golden_set,
}
use unixtime_machine.Exec.{Exec}
use unixtime_machine.Ids.{safe_id}
use unixtime_machine.Runtime.Copy.{prepared_disks, is_nil}
use unixtime_machine.Runtime.Golden.{missing_by, is_file}
use unixtime_machine.Runtime.Import.{
  GoldenSet, Vault, Staging, holds_anything, new_set, edit_set, chown, remove_empty, publish,
  replaceable, replace_set, fill_import, discard_import, import_in, import_golden, import_path,
  remove_staged, resolved, directory_of, staged_disks,
}
use unixtime_machine.Runtime.Import.Filled.{AreSealed, AllReadOnly, IsHashed}
use unixtime_machine.Runtime.Import.Loop.{IsAt, edit_set-IsAt, import_disks-IsFull}

-- A golden set that is there: it holds each staged disk, every file has mode 0440, the metadata has
-- hashes that are those of its files, and the directory has mode 0750 and the group.
pub record IsInstalled (source : String → GoldenFile) (disks : List Disk) (group : Option ℕ)
    (set : GoldenSet) : Type 0 where
  pub copies : AreSealed source set.files disks
  pub modes : AllReadOnly set.files
  pub hashes : Dict (String × String)
  pub described : set.metadata ≡ some hashes
  pub hashed : IsHashed hashes set.files
  pub metadata_mode : set.metadata_mode ≡ some 0o440
  pub mode : set.mode ≡ 0o750
  pub group_set : set.group ≡ group

abbrev pub HasSet : String → (GoldenSet → Type 0) → Vault → Type 0
HasSet name P v = (set : GoldenSet) × (lookup name v.sets ≡ some set) × P set

empty-AllReadOnly : AllReadOnly []
unfolding lookup
empty-AllReadOnly k f e = absurd (cc)

empty-IsHashed : (files : Dict DiskFile) → IsHashed [] files
unfolding lookup
empty-IsHashed files id name digest e = absurd (cc)

module _ (staging : Staging) (path system_id : String) where
  published :
      (s : GoldenSet) (v : Vault)
      → IsAt path s v
      → lookup system_id (publish path system_id v).sets ≡ some s
  published s v e = rw (publish, e, lookup-put_self) refl

  replace_set-installs :
      (s : GoldenSet) (v : Vault)
      → IsAt path s v
      → Leads (replace_set staging path system_id) v (λ _ t. lookup system_id t.sets ≡ some s)
  unfolding replace_set
  replace_set-installs s v e =
      Leads-bind {P = λ _ t. IsAt path s t} (gets (λ v. lookup system_id v.sets)) _ v
        (Leads-gets _ v e)
        λ old t e.
          Leads-bind {P = λ _ t. IsAt path s t}
            (raise_if (holds_anything old) (target_not_empty system_id)) _ t
            (Leads-raise_if _ _ t λ _. e)
            λ _ t e.
              Leads-bind {P = λ _ t. IsAt path s t} (modify (remove_empty system_id)) _ t
                (Leads-modify (remove_empty system_id) t e)
                λ _ t e.
                  Leads-bind {P = λ _ t. IsAt path s t} (lift (replaceable staging)) _ t
                    (Leads-lift _ t λ _ _. e)
                    λ _ t e. Leads-modify (publish path system_id) t (published s t e)

  module _ (source : String → GoldenFile) (disks : List Disk) where
    abbrev Installed : Vault → Type 0
    Installed = HasSet system_id (IsInstalled source disks staging.group)

    abbrev opened : Option ℕ → GoldenSet
    opened group = record new_set { mode = 0o750; group = group }

    module _ (methods : List String) (hashes : Dict (String × String)) (files : Dict DiskFile) where
      abbrev full : GoldenSet
      full = record (opened staging.group) { files = files }

      abbrev finished : GoldenSet
      finished = record full { metadata = some hashes; metadata_mode = some 0o440 }

      finish-Installed :
          (v : Vault)
          → IsInstalled source disks staging.group finished
          → IsAt path full v
          → Leads
              (edit_set path (λ s. record s { metadata = some hashes }) >>= λ _.
                lift (chown staging) >>= λ _.
                edit_set path (λ s. record s { metadata_mode = some 0o440 }) >>= λ _.
                replace_set staging path system_id >>= λ _. pure methods)
              v
              (λ _ t. Installed t)
      finish-Installed v good e =
          let described = record full { metadata = some hashes } in
          Leads-bind _ _ v (edit_set-IsAt path (λ s. record s { metadata = some hashes }) full v e)
            λ _ t e.
              Leads-bind {P = λ _ t. IsAt path described t} (lift (chown staging)) _ t
                (Leads-lift _ t λ _ _. e)
                λ _ t e.
                  Leads-bind _ _ t
                    (edit_set-IsAt path (λ s. record s { metadata_mode = some 0o440 }) described t
                      e)
                    λ _ t e.
                      Leads-bind _ _ t (replace_set-installs finished t e)
                        λ _ t e. Leads-pure methods t (finished, e, good)

    fill_import-Installed :
        (v : Vault)
        → IsAt path new_set v
        → Leads (fill_import staging path system_id source disks) v (λ _ t. Installed t)
    unfolding fill_import
    fill_import-Installed v e =
        Leads-bind {P = λ group t. (staging.group ≡ some group) × IsAt path new_set t}
          (or_raise no_golden_group staging.group) _ v (Leads-or_raise _ _ v λ group g. (g, e))
          λ group t (g, e).
            Leads-bind {P = λ _ t. IsAt path new_set t} (lift (chown staging)) _ t
              (Leads-lift _ t λ _ _. e)
              λ _ t e.
                Leads-bind _ _ t
                  (edit_set-IsAt path (λ s. record s { mode = 0o750; group = some group }) new_set t
                    e)
                  λ _ t e.
                    Leads-bind _ _ t
                      (import_disks-IsFull path staging source disks [] (opened (some group)) t e)
                      λ (methods, hashes) t (files, filled, e).
                        finish-Installed methods hashes files t
                          (record {
                            copies = filled.copies;
                            modes = filled.modes empty-AllReadOnly;
                            hashes = hashes;
                            described = refl;
                            hashed = filled.hashed (empty-IsHashed []);
                            metadata_mode = refl;
                            mode = refl;
                            group_set = refl;
                          })
                          (subst (λ o. IsAt path (record (opened o) { files = files }) t) (sym g) e)

    discard_import-nothing :
        {Q : List String → Vault → Type 0} (e : Error) (v : Vault)
        → Leads (discard_import staging path e) v Q
    unfolding discard_import
    discard_import-nothing e v =
        Leads-after (modify (remove_staged staging.remains path)) _ v λ _ t. Leads-raise e t

    import_in-Installed :
        (v : Vault) → Leads (import_in staging path system_id source disks) v (λ _ t. Installed t)
    unfolding import_in edit_set
    import_in-Installed v = Leads-after (gets (λ v. contains path v.staged)) _ v λ stale t.
        Leads-after (raise_if stale (stale_import path)) _ t λ _ t.
          Leads-bind {P = λ _ u. IsAt path new_set u} (edit_set path (λ s. new_set)) _ t
            (Leads-modify _ t (lookup-put_self path new_set t.staged))
            λ _ t e.
              Leads-rescue (fill_import staging path system_id source disks)
                (discard_import staging path) t (fill_import-Installed t e) discard_import-nothing

-- What an import that returned has worked on, and the set that it has installed.
pub record HasImported (manifests : String → ManifestFile) (staging : Staging) (system_id : String)
    (t : Vault) : Type 0 where
  pub manifest : Manifest
  pub manifest_read : system_manifest manifests system_id ≡ ok manifest
  pub disks : List Disk
  pub disks_read : prepared_disks manifest ≡ ok disks
  pub source : String → GoldenFile
  pub source_read : directory_of staging.source ≡ ok source
  pub installed : HasSet system_id (IsInstalled source disks staging.group) t

known :
    {A B : Type 0} {Q : B → Vault → Type 0} (r : unixtime_machine.Outcome.Outcome A)
    (f : A → Exec Vault B) (v : Vault)
    → ((a : A) (t : Vault) → r ≡ ok a → Leads (f a) t Q)
    → Leads (lift r >>= f) v Q
known r f v k = Leads-bind {P = λ a _. r ≡ ok a} (lift r) f v (Leads-lift r v λ a e. e) k

import_golden-HasImported :
    (manifests : String → ManifestFile) (staging : Staging) (system_id : String) (v : Vault)
    → Leads
        (import_golden manifests staging system_id)
        v
        (λ _ t. HasImported manifests staging system_id t)
unfolding import_golden
import_golden-HasImported manifests staging system_id v =
    known (safe_id "system id" system_id) _ v λ _ v _.
      known (system_manifest manifests system_id) _ v λ manifest v manifest_read.
        known (resolved staging.source) _ v λ _ v _.
          Leads-after (raise_if staging.is_media media_as_golden) _ v λ _ v.
            known (directory_of staging.source) _ v λ source v source_read.
              known (prepared_disks manifest) _ v λ disks v disks_read.
                known (missing_by is_file source (staged_disks disks)) _ v λ missing v _.
                  Leads-after (raise_if (not (is_nil missing)) (incomplete_staging missing)) _ v
                    λ _ v. Leads-after (gets (λ v. lookup system_id v.sets)) _ v λ old v.
                      Leads-after (raise_if (holds_anything old) (existing_golden_set system_id)) _
                        v
                        λ _ v.
                          Leads-weaken
                            (import_in staging (import_path system_id staging.pid) system_id source
                              disks)
                            v
                            (λ _ t installed. record {
                              manifest = manifest;
                              manifest_read = manifest_read;
                              disks = disks;
                              disks_read = disks_read;
                              source = source;
                              source_read = source_read;
                              installed = installed;
                            })
                            (import_in-Installed staging (import_path system_id staging.pid)
                              system_id source disks v)

-- An import of golden disks that returns has installed the golden set of its system: for each disk
-- of the manifest it holds a file with the SHA-256 of the staged file and mode 0440, no file has
-- another mode, its metadata, with mode 0440 too, has hashes that are those of its files, and the
-- directory has mode 0750 and the group of the golden disks.
pub import_golden_installed :
    (manifests : String → ManifestFile) (staging : Staging) (system_id : String) (v t : Vault)
    (methods : List String)
    → import_golden manifests staging system_id v ≡ (ok methods, t)
    → HasImported manifests staging system_id t
import_golden_installed manifests staging system_id v t methods e =
    Leads-result _ v t methods (import_golden-HasImported manifests staging system_id v) e
