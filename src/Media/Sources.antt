-- ===== src/Media/Sources.antt =====
-- scripts/media43bsd.py: the source files of the 4.3BSD tape, and what `prepare_43bsd` checks before
-- it writes anything.
use unixtime_machine.Prelude.{
  ℕ, ◌≡◌, refl, ◌≤◌, ◌&&◌, not, ltb, filter, length, Bool, true, false, List, [], ◌∷◌, String,
  str_eq, arith, if◌then◌else◌,
}
use unixtime_machine.Errors.{
  Error, media_not_directory, destination_exists, destination_inside_source, incomplete_sources,
  multiple_boots,
}
use unixtime_machine.Outcome.{Outcome, ok, ◌>>◌, refuse_if, Ensures, Ensures-bind, Ensures-require}

pub record TapeFile : Type 0 where
  pub compressed : String
  pub name : String
  pub block_size : ℕ

abbrev tape_file_of : String → String → ℕ → TapeFile
tape_file_of compressed name block_size = record {
  compressed = compressed;
  name = name;
  block_size = block_size;
}

-- `TAPE_FILES`, in the order of the tape
abbrev pub tape_files : List TapeFile
tape_files =
    tape_file_of "stand.gz" "stand" 512
    ∷ tape_file_of "miniroot.gz" "miniroot" 10240
    ∷ tape_file_of "rootdump.gz" "rootdump" 10240
    ∷ tape_file_of "srcsys.tar.gz" "srcsys.tar" 10240
    ∷ tape_file_of "usr.tar.gz" "usr.tar" 10240
    ∷ tape_file_of "vfont.tar.gz" "vfont.tar" 10240
    ∷ tape_file_of "src.tar.gz" "src.tar" 10240
    ∷ tape_file_of "new.tar.gz" "new.tar" 10240
    ∷ tape_file_of "ingres.tar.gz" "ingres.tar" 10240
    ∷ []

abbrev pub boot_names : List String
boot_names = "boot42" ∷ "boot42.uue" ∷ "boot42.uu" ∷ []

-- What the checks see: resolved paths by their parts, and the files of the source directory.
pub record Preparation : Type 0 where
  pub source : List String
  pub source_is_dir : Bool
  pub destination : List String
  pub exists : Bool  -- `destination.exists()`
  pub has_file : String → Bool  -- `(source / name).is_file()`

-- `source == destination or source in destination.parents`
abbrev pub is_within : List String → List String → Bool
is_within [] path = true
is_within (p ∷ ps) [] = false
is_within (p ∷ ps) (q ∷ qs) = str_eq p q && is_within ps qs

abbrev pub missing_files : Preparation → List TapeFile → List String
missing_files p [] = []
missing_files p (file ∷ files) =
    let rest = missing_files p files in
    if p.has_file file.compressed then rest else file.compressed ∷ rest

abbrev pub is_empty : List String → Bool
is_empty [] = true
is_empty (_ ∷ _) = false

abbrev pub boots : Preparation → List String
boots p = filter p.has_file boot_names

-- The checks, in their order; the sources of the bootstrap come back.
unfoldable pub check_sources : Preparation → Outcome (List String)
check_sources p = do
  refuse_if (not p.source_is_dir) media_not_directory
  refuse_if p.exists destination_exists
  refuse_if (is_within p.source p.destination) destination_inside_source
  refuse_if (not (is_empty (missing_files p tape_files)))
      (incomplete_sources (missing_files p tape_files))
  refuse_if (ltb 1 (length (boots p))) multiple_boots
  ok (boots p)

abbrev pub all_present : Preparation → List TapeFile → Bool
all_present p [] = true
all_present p (file ∷ files) = p.has_file file.compressed && all_present p files

-- What an accepted preparation has.
pub record IsReady (p : Preparation) (found : List String) : Type 0 where
  pub fresh : p.exists ≡ false
  pub outside : is_within p.source p.destination ≡ false
  pub complete : all_present p tape_files ≡ true
  pub one_boot : length found ≤ 1

refused_unless : (b : Bool) (e : Error) → Ensures (λ _. b ≡ false) (refuse_if b e)
refused_unless true e = tt
refused_unless false e = refl

none_missing :
    (p : Preparation) (files : List TapeFile)
    → not (is_empty (missing_files p files)) ≡ false
    → all_present p files ≡ true
none_missing p [] e = refl
none_missing p (file ∷ files) e = ground (arith, none_missing p files)

check_sources-Ensures : (p : Preparation) → Ensures (IsReady p) (check_sources p)
unfolding check_sources
check_sources-Ensures p =
    Ensures-bind (λ _. p.source_is_dir ≡ p.source_is_dir) _
      (refuse_if (not p.source_is_dir) media_not_directory) _ (dir_checked p.source_is_dir)
      λ _ _.
        Ensures-bind (λ _. p.exists ≡ false) _ (refuse_if p.exists destination_exists) _
          (refused_unless p.exists destination_exists)
          λ _ fresh.
            Ensures-bind (λ _. is_within p.source p.destination ≡ false) _
              (refuse_if (is_within p.source p.destination) destination_inside_source) _
              (refused_unless _ destination_inside_source)
              λ _ outside.
                Ensures-bind (λ _. not (is_empty (missing_files p tape_files)) ≡ false) _
                  (refuse_if (not (is_empty (missing_files p tape_files)))
                    (incomplete_sources (missing_files p tape_files)))
                  _ (refused_unless _ _)
                  λ _ none_left.
                    Ensures-bind (λ _. ltb 1 (length (boots p)) ≡ false) _
                      (refuse_if (ltb 1 (length (boots p))) multiple_boots) _
                      (refused_unless _ multiple_boots)
                      λ _ few. record {
                        fresh = fresh;
                        outside = outside;
                        complete = none_missing p tape_files none_left;
                        one_boot = at_most_one (length (boots p)) few;
                      }
  where
    dir_checked : (b : Bool) → Ensures (λ _. b ≡ b) (refuse_if (not b) media_not_directory)
    dir_checked true = refl
    dir_checked false = tt

    at_most_one : (n : ℕ) → ltb 1 n ≡ false → n ≤ 1
    at_most_one n e = ground arith

-- The preparation of the 4.3BSD media starts only where the destination does not exist and is not in
-- the source directory, all nine files of the tape are there, and there is at most one bootstrap.
pub check_sources_lem :
    (p : Preparation) (found : List String) → check_sources p ≡ ok found → IsReady p found
check_sources_lem p found e =
    Ensures-require (IsReady p) (check_sources p) (check_sources-Ensures p) e
