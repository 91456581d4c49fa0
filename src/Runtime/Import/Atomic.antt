-- ===== src/Runtime/Import/Atomic.antt =====
-- What a failed `import_golden` of scripts/utmlib.py leaves of directories.
use unixtime_machine.Prelude.{
  ◌≡◌, refl, ◌∙◌, Bool, true, false, Bool-cases, inl, inr, List, [], ◌∷◌, String, str_eq, eq_iff,
  arith, Option, none, some, ap, if◌then◌else◌,
}
use unixtime_machine.Prelude.Dict.{
  Dict, lookup, contains, lookup_absent, lookup-put, lookup-without,
}
use unixtime_machine.Errors.{Error, stale_import, target_not_empty}
use unixtime_machine.Outcome.{Outcome, ok, raised}
use unixtime_machine.Exec.{Exec, modify, raise_if, rescue, gets, lift, handle, ◌>>=◌}
use unixtime_machine.Exec.Frame.{
  Frame, Within, Within-bind, Within-pure, Within-modify, frame_rules,
}
use unixtime_machine.Exec.Sparing.{Sparing, OnRaise, later, sparing_rules, raised_at}
use unixtime_machine.Host.{GoldenFile}
use unixtime_machine.Manifest.{Disk, ManifestFile}
use unixtime_machine.Runtime.Import.{
  GoldenSet, Vault, Staging, new_set, holds_anything, publish, remove_empty, remove_staged, settle,
  replaceable, import_path, edit_set, import_disk, import_disks, replace_set, fill_import,
  discard_import, import_in, import_golden,
}
use unixtime_machine.Runtime.Import.Kept.{sets-remove_staged}

-- A golden set that holds anything; an empty directory counts as none.
abbrev pub content : Option GoldenSet → Option GoldenSet
content o = if holds_anything o then o else none

-- No golden set has changed, and neither has one directory of a transaction.
pub record IsIntact (transaction : String) (v v' : Vault) : Type 0 where
  pub sets_same : (k : String) → content (lookup k v'.sets) ≡ content (lookup k v.sets)
  pub staged_same : lookup transaction v'.staged ≡ lookup transaction v.staged

-- A directory is not the one that the transaction makes, or a removal leaves nothing.
pub data Disposable (staging : Staging) (path transaction : String) : Type 0 where
  other : str_eq path transaction ≡ false → Disposable staging path transaction
  removed : ((s : GoldenSet) → staging.remains s ≡ none) → Disposable staging path transaction

unfoldable intact : String → Frame Vault
intact transaction = record {
  relates = IsIntact transaction;
  refl_at = λ v. record { sets_same = λ k. refl; staged_same = refl };
  trans_at = λ u v w p q. record {
    sets_same = λ k. q.sets_same k ∙ p.sets_same k;
    staged_same = q.staged_same ∙ p.staged_same;
  };
}

-- The same, but for the directory `path`.
record IsElsewhere (path : String) (v v' : Vault) : Type 0 where
  sets_same : (k : String) → content (lookup k v'.sets) ≡ content (lookup k v.sets)
  others_same : (k : String) → str_eq path k ≡ false → lookup k v'.staged ≡ lookup k v.staged

module _ (path : String) where
  unfoldable elsewhere : Frame Vault
  elsewhere = record {
    relates = IsElsewhere path;
    refl_at = λ v. record { sets_same = λ k. refl; others_same = λ k e. refl };
    trans_at = λ u v w p q. record {
      sets_same = λ k. q.sets_same k ∙ p.sets_same k;
      others_same = λ k e. q.others_same k e ∙ p.others_same k e;
    };
  }

  edit_set-elsewhere : (change : GoldenSet → GoldenSet) → Within elsewhere (edit_set path change)
  unfolding edit_set elsewhere
  edit_set-elsewhere change =
      Within-modify _ λ v. record { sets_same = λ k. refl; others_same = λ k e. rw (lookup-put, e) }

  module _ (staging : Staging) (source : String → GoldenFile) where
    import_disk-elsewhere : (disk : Disk) → Within elsewhere (import_disk staging path source disk)
    unfolding import_disk
    import_disk-elsewhere disk = search (frame_rules, edit_set-elsewhere) depth 12

    import_disks-elsewhere :
        (disks : List Disk) (hashes : Dict (String × String))
        → Within elsewhere (import_disks staging path source disks hashes)
    unfolding import_disks
    import_disks-elsewhere [] hashes = Within-pure ([], hashes)
    import_disks-elsewhere (disk ∷ disks) hashes =
        Within-bind _ _ (import_disk-elsewhere disk) λ (method, digest).
          Within-bind _ _ (import_disks-elsewhere disks _)
            λ (methods, more). Within-pure (method ∷ methods, more)

    removed_empty :
        (to : String) (v : Vault)
        → holds_anything (lookup to v.sets) ≡ false
        → IsElsewhere path v (remove_empty to v)
    removed_empty to v bare = record {
      sets_same = λ k.
          let gone = lookup-without to k v.sets in
          elim (Bool-cases (str_eq to k)) [
            | inl same ↦ ground (arith, eq_iff to k, gone, bare)
            | inr differ ↦ rw (remove_empty, lookup-without, differ) refl
          ];
      others_same = λ k e. refl;
    }

    last_step :
        (r : Outcome (Unit {0})) (to : String) (v : Vault)
        → OnRaise elsewhere v ((lift r >>= λ _. modify (publish path to)) v)
    unfolding ◌>>=◌ lift modify elsewhere
    last_step (ok _) to v = tt
    last_step (raised e) to v = record { sets_same = λ k. refl; others_same = λ k e. refl }

    replaced :
        (to : String) (b : Bool) (v : Vault)
        → holds_anything (lookup to v.sets) ≡ b
        → OnRaise elsewhere v (
            (raise_if b (target_not_empty to) >>= λ _. modify (remove_empty to) >>= λ _.
            lift (replaceable staging) >>= λ _. modify (publish path to))
              v)
    unfolding ◌>>=◌ raise_if modify lift last_step elsewhere
    replaced to true v bare = record { sets_same = λ k. refl; others_same = λ k e. refl }
    replaced to false v bare =
        later elsewhere v (remove_empty to v) _ (removed_empty to v bare)
          (last_step (replaceable staging) to (remove_empty to v))

    -- The new set appears last, after all that may raise.
    replace_set-Sparing : (to : String) → Sparing elsewhere (replace_set staging path to)
    unfolding replace_set replaced ◌>>=◌ gets
    replace_set-Sparing to = record {
      at = λ v. replaced to (holds_anything (lookup to v.sets)) v refl;
    }

    fill_import-Sparing :
        (system_id : String) (disks : List Disk)
        → Sparing elsewhere (fill_import staging path system_id source disks)
    unfolding fill_import
    fill_import-Sparing system_id disks =
        search
          (
            frame_rules, sparing_rules, edit_set-elsewhere, import_disks-elsewhere,
            replace_set-Sparing,
          )
          depth 20

  module _ (transaction : String) (staging : Staging)
      (way : Disposable staging path transaction) where
    settled_elsewhere :
        (rest : Option GoldenSet) (t : Vault)
        → str_eq path transaction ≡ false
        → lookup transaction (settle path rest t.staged) ≡ lookup transaction t.staged
    settled_elsewhere none t differ = rw (lookup-without, differ)
    settled_elsewhere (some rest) t differ = rw (lookup-put, differ)

    -- The directory that the transaction made is gone again, or is not the one in question.
    discarded_same :
        (v t : Vault) (own : Option GoldenSet)
        → Disposable staging path transaction
        → lookup path t.staged ≡ own
        → contains path v.staged ≡ false
        → IsElsewhere path v t
        → lookup transaction (remove_staged staging.remains path t).staged
          ≡ lookup transaction v.staged
    unfolding contains
    discarded_same v t none way e fresh kept =
        let absent = lookup_absent path v.staged fresh in
        elim (Bool-cases (str_eq path transaction)) [
          | inl same ↦ rw (remove_staged, e) (ground (arith, eq_iff path transaction, absent, e))
          | inr differ ↦ rw (remove_staged, e) (kept.others_same transaction differ)
        ]
    discarded_same v t (some s) (other differ) e fresh kept =
        rw (remove_staged, e)
          (settled_elsewhere (staging.remains s) t differ ∙ kept.others_same transaction differ)
    discarded_same v t (some s) (removed gone) e fresh kept =
        let absent = lookup_absent path v.staged fresh in
        let at = lookup-without path transaction t.staged in
        elim (Bool-cases (str_eq path transaction)) [
          | inl same ↦
              rw (remove_staged, e, gone) (ground (arith, eq_iff path transaction, absent, at))
          | inr differ ↦
              rw (remove_staged, e, gone, lookup-without, differ)
                (kept.others_same transaction differ)
        ]

    settled :
        (v : Vault) (x : Outcome (List String) × Vault)
        → contains path v.staged ≡ false
        → OnRaise elsewhere v x
        → OnRaise (intact transaction) v (handle x.0 (discard_import staging path) x.1)
    unfolding discard_import intact elsewhere
    settled v (ok methods, t) fresh kept = tt
    settled v (raised e, t) fresh kept = record {
      sets_same = λ k.
          ap (λ (d : Dict GoldenSet). content (lookup k d))
            (sets-remove_staged staging.remains path t _ refl)
          ∙ kept.sets_same k;
      staged_same = discarded_same v t _ way refl fresh kept;
    }

    started :
        (b : Bool) (body : Exec Vault (List String)) (v : Vault)
        → contains path v.staged ≡ b
        → Sparing elsewhere body
        → OnRaise (intact transaction) v (
            (raise_if b (stale_import path) >>= λ _.
            edit_set path (λ s. new_set) >>= λ _. rescue body (discard_import staging path))
              v)
    unfolding ◌>>=◌ raise_if rescue settled edit_set modify
    started true body v stale sb = (intact transaction).refl_at v
    started false body v fresh sb =
        let made = (edit_set path (λ s. new_set) v).1 in
        let kept = (edit_set-elsewhere (λ s. new_set)).at v in
        settled v (body made) fresh (later elsewhere v made (body made) kept (sb.at made))

    import_in-Sparing :
        (system_id : String) (source : String → GoldenFile) (disks : List Disk)
        → Sparing (intact transaction) (import_in staging path system_id source disks)
    unfolding import_in started ◌>>=◌ gets
    import_in-Sparing system_id source disks =
        let body = fill_import staging path system_id source disks in
        record {
          at = λ v.
              started (contains path v.staged) body v refl
                (fill_import-Sparing staging source system_id disks);
        }

import_golden-Sparing :
    (manifests : String → ManifestFile) (staging : Staging) (system_id transaction : String)
    → Disposable staging (import_path system_id staging.pid) transaction
    → Sparing (intact transaction) (import_golden manifests staging system_id)
unfolding import_golden
import_golden-Sparing manifests staging system_id transaction way =
    search (frame_rules, sparing_rules, import_in-Sparing) depth 20

-- Where an import of golden disks raises, every golden set is as before, but that an empty directory
-- in its place may be gone, and so is every directory of an import, the one of this import included
-- where its removal, whose errors are ignored, leaves nothing.
pub import_golden_atomic :
    (manifests : String → ManifestFile) (staging : Staging) (system_id transaction : String)
    → Disposable staging (import_path system_id staging.pid) transaction
    → (v : Vault) (e : Error) → (import_golden manifests staging system_id v).0 ≡ raised e
    → IsIntact transaction v (import_golden manifests staging system_id v).1
unfolding intact
import_golden_atomic manifests staging system_id transaction way v e p =
    raised_at (intact transaction) v _ e p
      ((import_golden-Sparing manifests staging system_id transaction way).at v)
