-- ===== src/Runtime/Import/Filled.antt =====
-- What the loop of `import_golden` of scripts/utmlib.py puts into the transaction's directory.
use unixtime_machine.Prelude.{
  ℕ, ◌≡◌, refl, sym, ap, subst, ◌∙◌, true, false, Bool-cases, inl, inr, List, [], ◌∷◌, String,
  Option, none, some, str_eq, eq_iff, arith, or_else, if◌then◌else◌,
}
use unixtime_machine.Prelude.Dict.{
  Dict, lookup, lookup_absent, lookup-put, lookup-put_self, put, contains,
}
use unixtime_machine.Host.{GoldenFile, DiskFile, readable}
use unixtime_machine.Manifest.{Disk}
use unixtime_machine.Outcome.{ok}
use unixtime_machine.Runtime.Import.{read_only, digest_in}

-- A file of a golden set, with this digest.
abbrev pub sealed_file : String → DiskFile
sealed_file digest = record { digest = digest; mode = 0o440 }

-- A directory holds a copy of one staged disk, with mode 0440.
pub record IsSealed (source : String → GoldenFile) (files : Dict DiskFile) (disk : Disk)
    : Type 0 where
  pub digest : String
  pub staged : source (or_else disk.source_filename disk.golden_filename) ≡ readable digest
  pub copy : lookup disk.golden_filename files ≡ some (sealed_file digest)

abbrev pub AreSealed : (String → GoldenFile) → Dict DiskFile → List Disk → Type 0
AreSealed source files [] = Unit
AreSealed source files (disk ∷ disks) = IsSealed source files disk × AreSealed source files disks

-- Every file has mode 0440.
abbrev pub AllReadOnly : Dict DiskFile → Type 0
AllReadOnly files = (k : String) (f : DiskFile) → lookup k files ≡ some f → f.mode ≡ 0o440

-- Every recorded hash is that of the file it names.
abbrev pub IsHashed : Dict (String × String) → Dict DiskFile → Type 0
IsHashed hashes files =
    (id name digest : String)
    → lookup id hashes ≡ some (name, digest)
    → lookup name files ≡ some (sealed_file digest)

abbrev pub IsKept : Dict DiskFile → Dict DiskFile → Type 0
IsKept old new =
    (name : String) (file : DiskFile) → lookup name old ≡ some file → lookup name new ≡ some file

-- One copy has been added.
pub record IsAdded (source : String → GoldenFile) (disk : Disk) (digest : String)
    (old new : Dict DiskFile) : Type 0 where
  pub staged : source (or_else disk.source_filename disk.golden_filename) ≡ readable digest
  pub absent : contains disk.golden_filename old ≡ false
  pub law :
      (k : String)
      → lookup k new
        ≡ (if str_eq disk.golden_filename k then some (sealed_file digest) else lookup k old)

pub lookup-read_only :
    (name k : String) (file : DiskFile) (old : Dict DiskFile)
    → lookup k (read_only name (put name file old))
      ≡ (if str_eq name k then some (record file { mode = 0o440 }) else lookup k old)
lookup-read_only name k file old =
    let known = lookup-put name k file old in
    let changed = lookup-put name k (record file { mode = 0o440 }) (put name file old) in
    rw (read_only, lookup-put_self) (ground (arith, known, changed))

pub digest_in-read_only :
    (name digest : String) (file : DiskFile) (old : Dict DiskFile)
    → digest_in name (read_only name (put name file old)) ≡ ok digest
    → file.digest ≡ digest
digest_in-read_only name digest file old e = same_digest (sym (rw (digest_in, here) refl) ∙ e)
  where
    here : lookup name (read_only name (put name file old)) ≡ some (record file { mode = 0o440 })
    here = rw (read_only, lookup-put_self) (lookup-put_self name _ _)

    same_digest : ok file.digest ≡ ok digest → file.digest ≡ digest
    same_digest p = cc

module _ (source : String → GoldenFile) (disk : Disk) (digest : String) (old new : Dict DiskFile)
    (added : IsAdded source disk digest old new) where
  pub IsKept-added : IsKept old new
  IsKept-added name file e =
      let absent = lookup_absent disk.golden_filename old added.absent in
      added.law name ∙ ground (arith, eq_iff disk.golden_filename name, absent, e)

  lookup-added : lookup disk.golden_filename new ≡ some (sealed_file digest)
  lookup-added =
      added.law disk.golden_filename
      ∙ ground (arith, eq_iff disk.golden_filename disk.golden_filename)

  pub IsSealed-added : IsSealed source new disk
  IsSealed-added = record { digest = digest; staged = added.staged; copy = lookup-added }

  pub AllReadOnly-added : AllReadOnly old → AllReadOnly new
  AllReadOnly-added all k f e = elim (Bool-cases (str_eq disk.golden_filename k)) [
    | inl same ↦ sym (ap mode_of (here k f e same))
    | inr differ ↦ all k f (ground (arith, added.law k, differ, e))
  ]
    where
      mode_of : Option DiskFile → ℕ
      mode_of none = 0
      mode_of (some g) = g.mode

      here :
          (k : String) (f : DiskFile)
          → lookup k new ≡ some f
          → str_eq disk.golden_filename k ≡ true
          → some (sealed_file digest) ≡ some f
      here k f e same = ground (arith, added.law k, same, e)

  pub IsHashed-added :
      (hashes : Dict (String × String))
      → IsHashed hashes old
      → IsHashed (put disk.id (disk.golden_filename, digest) hashes) new
  IsHashed-added hashes hashed id name d e = elim (Bool-cases (str_eq disk.id id)) [
    | inl same ↦ recorded name d (here same)
    | inr differ ↦ IsKept-added name (sealed_file d) (hashed id name d (earlier differ))
  ]
    where
      Entry : Type 0
      Entry = String × String

      entry : Entry
      entry = (disk.golden_filename, digest)

      here : str_eq disk.id id ≡ true → ◌≡◌ {A = Option Entry} (some entry) (some (name, d))
      here same = ground (arith, lookup-put disk.id id entry hashes, e, same)

      earlier : str_eq disk.id id ≡ false → lookup id hashes ≡ some (name, d)
      earlier differ = ground (arith, lookup-put disk.id id entry hashes, e, differ)

      recorded :
          (name d : String)
          → ◌≡◌ {A = Option Entry} (some entry) (some (name, d))
          → lookup name new ≡ some (sealed_file d)
      recorded name d p =
          let same : disk.golden_filename ≡ name = cc in
          let alike : digest ≡ d = cc in
          subst (λ n. lookup n new ≡ some (sealed_file d)) same
            (subst (λ g. lookup disk.golden_filename new ≡ some (sealed_file g)) alike lookup-added)
