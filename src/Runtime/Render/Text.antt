-- ===== src/Runtime/Render/Text.antt =====
-- The computation in `render_runtime` of scripts/utmlib.py: the replacements, and the text that they
-- make of a template. Texts are lists of code points.
use Prim.Native.String.{◌++◌}
use unixtime_machine.Prelude.{
  ℕ, Bool, not, ◌&&◌, ◌||◌, ◌==◌, List, [], ◌∷◌, Option, none, some, String, or_else, any,
  if◌then◌else◌,
}
use unixtime_machine.Prelude.Bytes.{Bytes, bytes, occurs_in, bytes_eq}
use unixtime_machine.Prelude.Dict.{Dict, contains}
use unixtime_machine.Errors.{
  unsafe_runtime_path, missing_session_disk, missing_artifact, bad_option_contract,
  unsafe_replacement, unsafe_whitespace, unresolved_token,
}
use unixtime_machine.Outcome.{Outcome, ok, ◌>>=◌, ◌>>◌, refuse_if, require}
use unixtime_machine.Host.{DiskFile}
use unixtime_machine.Manifest.{Disk, RuntimeItem, Manifest}
use unixtime_machine.Runtime.Replace.{replace}

-- What rendering finds outside the session: how a path resolves, the templates, by system and file
-- name, which files below media/ exist, and Python's `str.format` with a `path`.
pub record Surface : Type 0 where
  pub resolve : String → Bytes
  pub template : String → String → Outcome Bytes
  pub is_media : String → Bool
  pub format_path : Bytes → Bytes → Outcome Bytes

-- Texts to replace, with their replacements; a Python dict in the order of its keys.
abbrev pub Replacements : Type 0
Replacements = List (Bytes × Bytes)

-- `replacements[token] = value`
unfoldable pub assign : Bytes → Bytes → Replacements → Replacements
unfolding bytes_eq
assign token value [] = (token, value) ∷ []
assign token value ((key, old) ∷ entries) =
    let rest = assign token value entries in
    if bytes_eq key token then (key, value) ∷ entries else (key, old) ∷ rest

-- The characters `\n\r\t ;"`
abbrev pub is_unsafe_in_path : ℕ → Bool
is_unsafe_in_path c = c == 10 || c == 13 || c == 9 || c == 32 || c == 59 || c == 34

-- `runtime_path`
abbrev pub runtime_path : Surface → String → Outcome Bytes
runtime_path surface path = do
  refuse_if (any is_unsafe_in_path (surface.resolve path)) unsafe_runtime_path
  ok (surface.resolve path)

-- The first loop, over the disks in the session's directory.
unfoldable pub disk_replacements :
    Surface → String → Dict DiskFile → List Disk → Replacements → Outcome Replacements
unfolding contains assign
disk_replacements surface workspace files [] entries = ok entries
disk_replacements surface workspace files (disk ∷ disks) entries = do
  let path = workspace ++ "/" ++ disk.session_filename
  refuse_if (not (contains disk.session_filename files)) (missing_session_disk path)
  value ← runtime_path surface path
  disk_replacements surface workspace files disks (assign disk.runtime_token value entries)

-- `next((path for path in candidates if path.is_file()), None)`
abbrev pub first_file : Surface → String → List String → Option String
first_file surface directory [] = none
first_file surface directory (name ∷ names) =
    let rest = first_file surface directory names in
    let path = directory ++ "/" ++ name in if surface.is_media path then some path else rest

-- A key that is missing or empty.
abbrev pub truthy : Option Bytes → Option Bytes
truthy none = none
truthy (some []) = none
truthy (some (c ∷ cs)) = some (c ∷ cs)

unfoldable pub support_replacement :
    Surface → String → RuntimeItem → Option Bytes → Replacements → Outcome Replacements
unfolding assign
support_replacement surface directory item none entries = ok entries
support_replacement surface directory item (some token) entries = do
  artifact ←
      require (missing_artifact item.logical_name) (first_file surface directory item.filenames)
  value ← runtime_path surface artifact
  ok (assign token value entries)

-- The second loop, over the media that an emulator needs.
unfoldable pub support_replacements :
    Surface → String → List RuntimeItem → Replacements → Outcome Replacements
unfolding support_replacement
support_replacements surface directory [] entries = ok entries
support_replacements surface directory (item ∷ items) entries = do
  entries ← support_replacement surface directory item (truthy item.runtime_token) entries
  support_replacements surface directory items entries

abbrev pub option_text : Surface → RuntimeItem → Option String → Outcome Bytes
unfolding occurs_in
option_text surface item none = ok []
option_text surface item (some artifact) = do
  option ← require (bad_option_contract item.logical_name) item.runtime_option
  refuse_if (not (occurs_in (bytes "{path}") option)) (bad_option_contract item.logical_name)
  path ← runtime_path surface artifact
  surface.format_path option path

unfoldable pub option_replacement :
    Surface → String → RuntimeItem → Option Bytes → Replacements → Outcome Replacements
unfolding assign
option_replacement surface directory item none entries = ok entries
option_replacement surface directory item (some token) entries = do
  value ← option_text surface item (first_file surface directory item.filenames)
  ok (assign token value entries)

-- The third loop, over the media that an emulator may use.
unfoldable pub option_replacements :
    Surface → String → List RuntimeItem → Replacements → Outcome Replacements
unfolding option_replacement
option_replacements surface directory [] entries = ok entries
option_replacements surface directory (item ∷ items) entries = do
  entries ← option_replacement surface directory item (truthy item.runtime_option_token) entries
  option_replacements surface directory items entries

-- The characters `\n\r\t"`
abbrev pub is_unsafe_in_value : ℕ → Bool
is_unsafe_in_value c = c == 10 || c == 13 || c == 9 || c == 34

-- The last loop, which fills in the template.
unfoldable pub fill_in : Replacements → Bytes → Outcome Bytes
unfolding occurs_in replace
fill_in [] config = ok config
fill_in ((token, value) ∷ entries) config = do
  refuse_if (any is_unsafe_in_value value) unsafe_replacement
  refuse_if (any (λ c. c == 32) value && not (occurs_in (bytes " = ") value)) unsafe_whitespace
  fill_in entries (replace token value config)

-- All replacements, in the order in which their keys come first.
unfoldable pub replacements_of :
    Surface → String → String → Manifest → Dict DiskFile → List Disk → Outcome Replacements
unfolding disk_replacements support_replacements option_replacements
replacements_of surface system_id workspace manifest files disks = do
  let logs = (bytes "@SESSION_LOG_DIR@", surface.resolve (workspace ++ "/fs-uae-logs")) ∷ []
  let directory = "media/" ++ or_else manifest.media_directory system_id
  entries ← disk_replacements surface workspace files disks logs
  entries ← support_replacements surface directory manifest.media_items entries
  option_replacements surface directory manifest.media_items entries

-- The text of the configuration, from its template.
unfoldable pub rendered : Replacements → Bytes → Outcome Bytes
unfolding fill_in
rendered entries template = do
  config ← fill_in entries template
  refuse_if (any (λ c. c == 64) config) unresolved_token
  ok config

-- From the reading of the template to the text that is written.
unfoldable pub configuration_text :
    Surface → String → String → Manifest → Dict DiskFile → List Disk → String → Outcome Bytes
unfolding replacements_of rendered
configuration_text surface system_id workspace manifest files disks configuration = do
  template ← surface.template system_id configuration
  entries ← replacements_of surface system_id workspace manifest files disks
  rendered entries template
