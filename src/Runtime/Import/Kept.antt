-- ===== src/Runtime/Import/Kept.antt =====
-- What `import_golden` of scripts/utmlib.py does to the golden sets that are there.
use unixtime_machine.Prelude.{
  ◌≡◌, refl, sym, ap, ◌∙◌, Bool, true, false, Bool-cases, inl, inr, List, [], ◌∷◌, String, Option,
  none, some, str_eq, eq_iff, arith,
}
use unixtime_machine.Prelude.Dict.{Dict, lookup, lookup-put, lookup-without}
use unixtime_machine.Errors.{Error, target_not_empty}
use unixtime_machine.Outcome.{Outcome, ok, raised}
use unixtime_machine.Exec.{modify, raise_if, gets, lift, ◌>>=◌}
use unixtime_machine.Exec.Frame.{
  Frame, Within, Within-bind, Within-pure, Within-modify, Within-raise, frame_rules,
}
use unixtime_machine.Host.{GoldenFile}
use unixtime_machine.Manifest.{Disk, ManifestFile}
use unixtime_machine.Runtime.Import.{
  GoldenSet, Vault, Staging, holds_anything, edit_set, import_disk, import_disks, publish,
  remove_empty, remove_staged, replaceable, replace_set, fill_import, discard_import, import_in,
  import_golden,
}

-- A golden set that holds anything is as before.
pub record KeepsSets (v v' : Vault) : Type 0 where
  pub at_set :
      (k : String) (s : GoldenSet)
      → lookup k v.sets ≡ some s
      → holds_anything (some s) ≡ true
      → lookup k v'.sets ≡ some s

unfoldable keeping : Frame Vault
keeping = record {
  relates = KeepsSets;
  refl_at = λ v. record { at_set = λ k s e h. e };
  trans_at = λ u v w p q. record { at_set = λ k s e h. q.at_set k s (p.at_set k s e h) h };
}

edit_set-keeping :
    (path : String) (change : GoldenSet → GoldenSet) → Within keeping (edit_set path change)
unfolding edit_set keeping
edit_set-keeping path change = Within-modify _ λ v. record { at_set = λ k s e h. e }

pub sets-remove_staged :
    (remains : GoldenSet → Option GoldenSet) (path : String) (v : Vault) (own : Option GoldenSet)
    → lookup path v.staged ≡ own
    → (remove_staged remains path v).sets ≡ v.sets
sets-remove_staged remains path v none e = rw (remove_staged, e) refl
sets-remove_staged remains path v (some set) e = rw (remove_staged, e) refl

discard_import-keeping :
    (staging : Staging) (path : String) (e : Error) → Within keeping (discard_import staging path e)
unfolding discard_import keeping
discard_import-keeping staging path e =
    Within-bind _ _
      (Within-modify _ λ v. record {
        at_set = λ k s f h. ap (lookup k) (sets-remove_staged staging.remains path v _ refl) ∙ f;
      })
      (λ _. Within-raise e)

true_not_false : {A : Type 0} → true ≡ false → A
true_not_false e = absurd (cc)

held_not :
    {A : Type 0} (to k : String) (s : GoldenSet) (v : Vault)
    → str_eq to k ≡ true
    → lookup k v.sets ≡ some s
    → holds_anything (some s) ≡ true
    → holds_anything (lookup to v.sets) ≡ false
    → A
held_not to k s v same e h bare =
    let key : to ≡ k = ground (arith, eq_iff to k) in
    let here : lookup to v.sets ≡ some s = ap (λ (x : String). lookup x v.sets) key ∙ e in
    let held : holds_anything (lookup to v.sets) ≡ true = ap holds_anything here ∙ h in
    true_not_false (sym held ∙ bare)

module _ (from to : String) where
  published :
      (v : Vault) (set : Option GoldenSet) (k : String) (s : GoldenSet)
      → lookup from v.staged ≡ set
      → lookup k v.sets ≡ some s
      → str_eq to k ≡ false
      → lookup k (publish from to v).sets ≡ some s
  published v none k s f e differ = rw (f, publish) e
  published v (some set) k s f e differ = rw (f, publish, lookup-put, differ) e

  emptied :
      (v : Vault) → holds_anything (lookup to v.sets) ≡ false → KeepsSets v (remove_empty to v)
  emptied v bare = record {
    at_set = λ k s e h. elim (Bool-cases (str_eq to k)) [
      | inl same ↦ held_not to k s v same e h bare
      | inr differ ↦ rw (remove_empty, lookup-without, differ) e
    ];
  }

  placed : (v : Vault) → lookup to v.sets ≡ none → KeepsSets v (publish from to v)
  placed v free = record {
    at_set = λ k s e h. elim (Bool-cases (str_eq to k)) [
      | inl same ↦ held_not to k s v same e h (ap holds_anything free)
      | inr differ ↦ published v (lookup from v.staged) k s refl e differ
    ];
  }

  finished :
      (r : Outcome (Unit {0})) (v : Vault)
      → lookup to v.sets ≡ none
      → KeepsSets v ((lift r >>= λ _. modify (publish from to)) v).1
  unfolding ◌>>=◌ lift modify
  finished (ok _) v free = placed v free
  finished (raised e) v free = record { at_set = λ k s e h. e }

  removed_to : (v : Vault) → lookup to (remove_empty to v).sets ≡ none
  removed_to v = ground (arith, lookup-without to to v.sets, eq_iff to to)

  replaced :
      (staging : Staging) (b : Bool) (v : Vault)
      → holds_anything (lookup to v.sets) ≡ b
      → KeepsSets v
          ((raise_if b (target_not_empty to) >>= λ _. modify (remove_empty to) >>= λ _.
              lift (replaceable staging) >>= λ _. modify (publish from to))
            v).1
  unfolding ◌>>=◌ raise_if modify lift finished
  replaced staging true v bare = record { at_set = λ k s e h. e }
  replaced staging false v bare =
      let rest = finished (replaceable staging) (remove_empty to v) (removed_to v) in
      let first = emptied v bare in
      record { at_set = λ k s e h. rest.at_set k s (first.at_set k s e h) h }

  replace_set-keeping : (staging : Staging) → Within keeping (replace_set staging from to)
  unfolding replace_set keeping ◌>>=◌ gets replaced
  replace_set-keeping staging = record {
    at = λ v. replaced staging (holds_anything (lookup to v.sets)) v refl;
  }

module _ (staging : Staging) (path : String) (source : String → GoldenFile) where
  import_disk-keeping : (disk : Disk) → Within keeping (import_disk staging path source disk)
  unfolding import_disk
  import_disk-keeping disk = search (frame_rules, edit_set-keeping) depth 12

  import_disks-keeping :
      (disks : List Disk) (hashes : Dict (String × String))
      → Within keeping (import_disks staging path source disks hashes)
  unfolding import_disks
  import_disks-keeping [] hashes = Within-pure ([], hashes)
  import_disks-keeping (disk ∷ disks) hashes =
      Within-bind _ _ (import_disk-keeping disk) λ (method, digest).
        Within-bind _ _ (import_disks-keeping disks _)
          λ (methods, more). Within-pure (method ∷ methods, more)

  fill_import-keeping :
      (system_id : String) (disks : List Disk)
      → Within keeping (fill_import staging path system_id source disks)
  unfolding fill_import
  fill_import-keeping system_id disks =
      search (frame_rules, edit_set-keeping, import_disks-keeping, replace_set-keeping) depth 20

  import_in-keeping :
      (system_id : String) (disks : List Disk)
      → Within keeping (import_in staging path system_id source disks)
  unfolding import_in
  import_in-keeping system_id disks =
      search (frame_rules, edit_set-keeping, fill_import-keeping, discard_import-keeping) depth 16

import_golden-keeping :
    (manifests : String → ManifestFile) (staging : Staging) (system_id : String)
    → Within keeping (import_golden manifests staging system_id)
unfolding import_golden
import_golden-keeping manifests staging system_id = search (frame_rules, import_in-keeping) depth 20

-- An import of golden disks, whether it returns or raises, leaves every golden set that holds
-- anything as it was, that of its own system included.
pub import_golden-KeepsSets :
    (manifests : String → ManifestFile) (staging : Staging) (system_id : String) (v : Vault)
    → KeepsSets v (import_golden manifests staging system_id v).1
unfolding keeping
import_golden-KeepsSets manifests staging system_id v =
    (import_golden-keeping manifests staging system_id).at v
