-- ===== src/Tests/Import.antt =====
-- An import that may not change the owner of its files, beside a golden set that is there.
use unixtime_machine.Prelude.{refl, false, [], ◌∷◌, none, some}
use unixtime_machine.Prelude.Dict.{contains, put, lookup}
use unixtime_machine.Errors.{permission_denied}
use unixtime_machine.Host.{readable}
use unixtime_machine.Manifest.{document}
use unixtime_machine.Runtime.Copy.{refused, copy_exclusive}
use unixtime_machine.Runtime.Import.{GoldenSet, Vault, Staging, source_directory, import_golden}
use unixtime_machine.Runtime.Import.Kept.{KeepsSets, import_golden-KeepsSets}
use unixtime_machine.Runtime.Import.Installed.{HasImported, import_golden_installed}
use unixtime_machine.Runtime.Import.Atomic.{IsIntact, removed, import_golden_atomic}
use unixtime_machine.Tests.Hosts.{v7_manifest}

abbrev bsd_set : GoldenSet
bsd_set = record {
  files = ("root.dsk", record { digest = "1e"; mode = 0o440 }) ∷ [];
  metadata = some [];
  metadata_mode = some 0o440;
  mode = 0o750;
  group = some 990;
}

abbrev vault : Vault
vault = record { sets = ("43bsd-vax", bsd_set) ∷ []; staged = [] }

abbrev no_owner : Staging
no_owner = record {
  pid = "77";
  source = source_directory (λ name. readable "0f");
  is_media = false;
  medium = λ name. record { cloning = refused; fault = none; mode = 0o644 };
  group = some 990;
  chown_fault = some (permission_denied "root.dsk");
  replace_fault = none;
  remains = λ s. none;
}

abbrev as_root : Staging
as_root = record no_owner { chown_fault = none }

import_golden-KeepsSets_example :
    KeepsSets vault (import_golden (λ id. document v7_manifest) as_root "unix-v7" vault).1
import_golden-KeepsSets_example =
    import_golden-KeepsSets (λ id. document v7_manifest) as_root "unix-v7" vault

import_golden_atomic_example :
    IsIntact "golden/.unix-v7.import-77" vault
      (import_golden (λ id. document v7_manifest) no_owner "unix-v7" vault).1
unfolding import_golden contains put lookup
import_golden_atomic_example =
    import_golden_atomic (λ id. document v7_manifest) no_owner "unix-v7" "golden/.unix-v7.import-77"
      (removed λ s. refl) vault (permission_denied "root.dsk") refl

import_golden_installed_example :
    HasImported
      (λ id. document v7_manifest)
      as_root
      "unix-v7"
      (import_golden (λ id. document v7_manifest) as_root "unix-v7" vault).1
unfolding import_golden lookup contains copy_exclusive put
import_golden_installed_example =
    import_golden_installed (λ id. document v7_manifest) as_root "unix-v7" vault
      (import_golden (λ id. document v7_manifest) as_root "unix-v7" vault).1 ("full-copy" ∷ []) refl
