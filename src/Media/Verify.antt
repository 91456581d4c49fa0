-- ===== src/Media/Verify.antt =====
-- scripts/utmlib.py `verify_media`: the check of the media files of a system against its manifest.
use unixtime_machine.Prelude.{
  ◌≡◌, refl, ℕ, ◌+◌, ◌==◌, Bool, true, false, ◌&&◌, leb, List, [], ◌∷◌, Option, none, some, String,
  map, arith, if◌then◌else◌,
}
use unixtime_machine.Prelude.Bytes.{Bytes, bytes_eq}

-- An entry of `media.items`; hashes are ASCII texts.
pub record MediaItem : Type 0 where
  pub logical_name : String
  pub filenames : List String
  pub explicit : Bool  -- `operator_path` is "explicit"
  pub required : Bool
  pub size : Option ℕ
  pub sha256 : Option Bytes

-- A regular file as the check reads it.
pub record MediaFile : Type 0 where
  pub st_size : ℕ
  pub digest : Bytes

pub data Status : Type 0 where
  missing : Status
  pass : Status
  fail : Status
  unpinned : Status

-- The media directory: `none` where `path.is_file()` does not hold.
abbrev pub Directory : Type 0
Directory = String → Option MediaFile

-- `str.lower` on ASCII
abbrev pub lower : Bytes → Bytes
lower [] = []
lower (c ∷ cs) = (if leb b'A' c && leb c b'Z' then c + 32 else c) ∷ lower cs

abbrev pub found_files : Directory → List String → List MediaFile
found_files directory [] = []
found_files directory (name ∷ names) =
    let rest = found_files directory names in
    elim (directory name) [ none ↦ rest | some file ↦ file ∷ rest ]

abbrev pub size_matches : Option ℕ → MediaFile → Bool
size_matches none file = true
size_matches (some expected) file = file.st_size == expected

abbrev pub if_absent : MediaItem → Status
if_absent item = if item.required then missing else pass

-- The comparison of the one file with its hash.
abbrev pub hash_status : Option Bytes → MediaFile → Status
hash_status none file = unpinned
hash_status (some expected) file =
    if bytes_eq (lower file.digest) (lower expected) then pass else fail

abbrev pub status_of_found : MediaItem → List MediaFile → Status
status_of_found item [] = if_absent item
status_of_found item (file ∷ []) =
    if size_matches item.size file then hash_status item.sha256 file else fail
status_of_found item (file ∷ another ∷ more) = fail

abbrev pub no_names : List String → Bool
no_names [] = true
no_names (_ ∷ _) = false

-- One round of the loop.
unfoldable pub verify_item : Directory → MediaItem → Status
verify_item directory item =
    if no_names item.filenames && item.explicit
    then if_absent item
    else status_of_found item (found_files directory item.filenames)

-- `verify_media`, by logical name
unfoldable pub verify_media : Directory → List MediaItem → List (String × Status)
unfolding verify_item
verify_media directory items = map (λ item. (item.logical_name, verify_item directory item)) items

-- The one file that is found has the size that the manifest gives, if any, and its hash.
pub record IsVerified (item : MediaItem) (files : List MediaFile) : Type 0 where
  pub file : MediaFile
  pub expected : Bytes
  pub only_file : files ≡ file ∷ []
  pub size_holds : size_matches item.size file ≡ true
  pub pinned : item.sha256 ≡ some expected
  pub hash_holds : bytes_eq (lower file.digest) (lower expected) ≡ true

passed_hash :
    (item : MediaItem) (file : MediaFile) (h : Option Bytes)
    → item.sha256 ≡ h
    → size_matches item.size file ≡ true
    → hash_status h file ≡ pass
    → IsVerified item (file ∷ [])
passed_hash item file none p s e = absurd (cc)
passed_hash item file (some expected) p s e = record {
  file = file;
  expected = expected;
  only_file = refl;
  size_holds = s;
  pinned = p;
  hash_holds = ground arith;
}

passed :
    (item : MediaItem) (files : List MediaFile)
    → item.required ≡ true
    → status_of_found item files ≡ pass
    → IsVerified item files
passed item [] r e = absurd (ground arith)
passed item (file ∷ []) r e = passed_hash item file item.sha256 refl (ground arith) (ground arith)
passed item (file ∷ another ∷ more) r e = absurd (cc)

-- A required item passes only with evidence: exactly one of its accepted files is there, the
-- manifest pins a hash, and the file's size and hash are the ones that the manifest gives.
pub pass_needs_hash :
    (directory : Directory) (item : MediaItem)
    → item.required ≡ true
    → verify_item directory item ≡ pass
    → IsVerified item (found_files directory item.filenames)
unfolding verify_item
pass_needs_hash directory item r e =
    passed item (found_files directory item.filenames) r (ground arith)
