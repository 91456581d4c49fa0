-- ===== src/Runtime/Render/Lines.antt =====
-- scripts/utmlib.py `render_runtime`: what a rendered configuration has in common with its template.
use Prim.Native.String.{◌++◌}
use unixtime_machine.Prelude.{
  not, ℕ, ◌≡◌, refl, ◌∙◌, Bool, true, false, ◌==◌, List, [], ◌∷◌, Option, none, some, String, any,
  count, arith, if◌then◌else◌,
}
use unixtime_machine.Prelude.Bytes.{Bytes, bytes_eq}
use unixtime_machine.Prelude.Dict.{Dict, contains}
use unixtime_machine.Errors.{missing_session_disk, missing_artifact}
use unixtime_machine.Outcome.{
  Outcome, ok, ◌>>=◌, refuse_if, require, Yields, Yields-ok, Yields-bind, Yields-then, Yields-map,
  Yields-result, Yields-refuse_if,
}
use unixtime_machine.Host.{DiskFile}
use unixtime_machine.Manifest.{Disk, RuntimeItem, Manifest}
use unixtime_machine.Runtime.Replace.{replace, count-replace}
use unixtime_machine.Runtime.Render.Text.{
  Surface, Replacements, assign, disk_replacements, support_replacements, option_replacements,
  replacements_of, fill_in, rendered, configuration_text, is_unsafe_in_value, truthy,
  support_replacement, option_replacement, runtime_path, first_file,
}

abbrev pub is_newline : ℕ → Bool
is_newline c = c == 10

abbrev pub is_at : ℕ → Bool
is_at c = c == 64

-- Every key is a text of one line.
abbrev pub HasPlainKeys : Replacements → Type 0
HasPlainKeys [] = Unit
HasPlainKeys ((token, value) ∷ entries) = (count is_newline token ≡ 0) × HasPlainKeys entries

abbrev pub IsPlain : Option Bytes → Type 0
IsPlain none = Unit
IsPlain (some token) = count is_newline token ≡ 0

abbrev pub AllPlainDisks : List Disk → Type 0
AllPlainDisks [] = Unit
AllPlainDisks (disk ∷ disks) = (count is_newline disk.runtime_token ≡ 0) × AllPlainDisks disks

abbrev pub AllPlainItems : List RuntimeItem → Type 0
AllPlainItems [] = Unit
AllPlainItems (item ∷ items) =
    IsPlain item.runtime_token × (IsPlain item.runtime_option_token × AllPlainItems items)

HasPlainKeys-assign :
    (token value : Bytes) (entries : Replacements)
    → count is_newline token ≡ 0
    → HasPlainKeys entries
    → HasPlainKeys (assign token value entries)
unfolding assign
HasPlainKeys-assign token value [] plain keys = (plain, tt)
HasPlainKeys-assign token value ((key, old) ∷ entries) plain keys =
    let rest = HasPlainKeys-assign token value entries plain keys.1 in
    elim (bytes_eq key token)
      as (λ b.
        HasPlainKeys
          (if b then (key, value) ∷ entries else (key, old) ∷ assign token value entries)) [
            | true ↦ keys
            | false ↦ (keys.0, rest)
          ]

no_newline : (xs : Bytes) → any is_unsafe_in_value xs ≡ false → count is_newline xs ≡ 0
no_newline [] e = refl
no_newline (x ∷ xs) e = ground (arith, no_newline xs)

-- The loops add keys of the manifest alone.
disk_replacements-HasPlainKeys :
    (surface : Surface) (workspace : String) (files : Dict DiskFile) (disks : List Disk)
    (entries : Replacements)
    → AllPlainDisks disks
    → HasPlainKeys entries
    → Yields HasPlainKeys (disk_replacements surface workspace files disks entries)
unfolding disk_replacements
disk_replacements-HasPlainKeys surface workspace files [] entries plain keys =
    Yields-ok _ entries keys
disk_replacements-HasPlainKeys surface workspace files (disk ∷ disks) entries plain keys =
    let path = workspace ++ "/" ++ disk.session_filename in
    let absent = not (contains disk.session_filename files) in
    Yields-then HasPlainKeys (refuse_if absent (missing_session_disk path)) _ λ _.
      Yields-then HasPlainKeys (runtime_path surface path) _ λ value.
        disk_replacements-HasPlainKeys surface workspace files disks _ plain.1
          (HasPlainKeys-assign disk.runtime_token value entries plain.0 keys)

assigned :
    (m : Outcome Bytes) (token : Bytes) (entries : Replacements)
    → count is_newline token ≡ 0
    → HasPlainKeys entries
    → Yields HasPlainKeys (m >>= λ value. ok (assign token value entries))
assigned m token entries plain keys =
    Yields-then HasPlainKeys m _
      λ value. Yields-ok HasPlainKeys _ (HasPlainKeys-assign token value entries plain keys)

support_replacement-HasPlainKeys :
    (surface : Surface) (directory : String) (item : RuntimeItem) (token : Option Bytes)
    (entries : Replacements)
    → IsPlain token
    → HasPlainKeys entries
    → Yields HasPlainKeys (support_replacement surface directory item (truthy token) entries)
unfolding support_replacement
support_replacement-HasPlainKeys surface directory item none entries plain keys =
    Yields-ok _ entries keys
support_replacement-HasPlainKeys surface directory item (some []) entries plain keys =
    Yields-ok _ entries keys
support_replacement-HasPlainKeys surface directory item (some (c ∷ cs)) entries plain keys =
    let artifact = first_file surface directory item.filenames in
    Yields-then HasPlainKeys (require (missing_artifact item.logical_name) artifact) _
      λ path. assigned (runtime_path surface path) (c ∷ cs) entries plain keys

support_replacements-HasPlainKeys :
    (surface : Surface) (directory : String) (items : List RuntimeItem) (entries : Replacements)
    → AllPlainItems items
    → HasPlainKeys entries
    → Yields HasPlainKeys (support_replacements surface directory items entries)
unfolding support_replacements
support_replacements-HasPlainKeys surface directory [] entries plain keys = Yields-ok _ entries keys
support_replacements-HasPlainKeys surface directory (item ∷ items) entries plain keys =
    Yields-bind HasPlainKeys HasPlainKeys _ _
      (support_replacement-HasPlainKeys surface directory item item.runtime_token entries plain.0
        keys)
      λ more. support_replacements-HasPlainKeys surface directory items more plain.1.1

option_replacement-HasPlainKeys :
    (surface : Surface) (directory : String) (item : RuntimeItem) (token : Option Bytes)
    (entries : Replacements)
    → IsPlain token
    → HasPlainKeys entries
    → Yields HasPlainKeys (option_replacement surface directory item (truthy token) entries)
unfolding option_replacement
option_replacement-HasPlainKeys surface directory item none entries plain keys =
    Yields-ok _ entries keys
option_replacement-HasPlainKeys surface directory item (some []) entries plain keys =
    Yields-ok _ entries keys
option_replacement-HasPlainKeys surface directory item (some (c ∷ cs)) entries plain keys =
    assigned _ (c ∷ cs) entries plain keys

option_replacements-HasPlainKeys :
    (surface : Surface) (directory : String) (items : List RuntimeItem) (entries : Replacements)
    → AllPlainItems items
    → HasPlainKeys entries
    → Yields HasPlainKeys (option_replacements surface directory items entries)
unfolding option_replacements
option_replacements-HasPlainKeys surface directory [] entries plain keys = Yields-ok _ entries keys
option_replacements-HasPlainKeys surface directory (item ∷ items) entries plain keys =
    Yields-bind HasPlainKeys HasPlainKeys _ _
      (option_replacement-HasPlainKeys surface directory item item.runtime_option_token entries
        plain.1.0 keys)
      λ more. option_replacements-HasPlainKeys surface directory items more plain.1.1

replacements_of-HasPlainKeys :
    (surface : Surface) (system_id workspace : String) (manifest : Manifest) (files : Dict DiskFile)
    (disks : List Disk)
    → AllPlainDisks disks
    → AllPlainItems manifest.media_items
    → Yields HasPlainKeys (replacements_of surface system_id workspace manifest files disks)
unfolding replacements_of
replacements_of-HasPlainKeys surface system_id workspace manifest files disks plain items =
    Yields-bind HasPlainKeys HasPlainKeys _ _
      (disk_replacements-HasPlainKeys surface workspace files disks _ plain (refl, tt))
      λ first keys.
        Yields-bind HasPlainKeys HasPlainKeys _ _
          (support_replacements-HasPlainKeys surface _ manifest.media_items first items keys)
          λ second. option_replacements-HasPlainKeys surface _ manifest.media_items second items

fill_in-lines :
    (entries : Replacements) (config : Bytes)
    → HasPlainKeys entries
    → Yields (λ text. count is_newline text ≡ count is_newline config) (fill_in entries config)
unfolding fill_in
fill_in-lines [] config keys = Yields-ok _ config refl
fill_in-lines ((token, value) ∷ entries) config keys =
    Yields-refuse_if _ (any is_unsafe_in_value value) _ _ λ safe. Yields-then _ _ _ λ _.
      let kept = count-replace is_newline token value config keys.0 (no_newline value safe) in
      Yields-map _ (fill_in-lines entries (replace token value config) keys.1) λ text e. e ∙ kept

-- No line is added to the template or lost, and nothing is left that looks like a key.
pub record IsFilledIn (template text : Bytes) : Type 0 where
  pub same_lines : count is_newline text ≡ count is_newline template
  pub no_token : any is_at text ≡ false

rendered-IsFilledIn :
    (entries : Replacements) (template : Bytes)
    → HasPlainKeys entries
    → Yields (IsFilledIn template) (rendered entries template)
unfolding rendered
rendered-IsFilledIn entries template keys =
    Yields-bind _ (IsFilledIn template) _ _ (fill_in-lines entries template keys) λ text lines.
      Yields-refuse_if (IsFilledIn template) (any is_at text) _ (ok text) λ plain.
        Yields-ok (IsFilledIn template) text (record { same_lines = lines; no_token = plain })

configuration_text-IsFilledIn :
    (surface : Surface) (system_id workspace : String) (manifest : Manifest) (files : Dict DiskFile)
    (disks : List Disk) (configuration : String) (template : Bytes)
    → surface.template system_id configuration ≡ ok template
    → AllPlainDisks disks
    → AllPlainItems manifest.media_items
    → Yields
        (IsFilledIn template)
        (configuration_text surface system_id workspace manifest files disks configuration)
unfolding configuration_text
configuration_text-IsFilledIn surface system_id workspace manifest files disks configuration
      template read plain items =
    let keys =
      replacements_of-HasPlainKeys surface system_id workspace manifest files disks plain items in
    rw read (
      Yields-bind HasPlainKeys (IsFilledIn template) _ _ keys
        λ entries plain. rendered-IsFilledIn entries template plain)

-- A configuration that is rendered has as many line breaks as its template and no `@`, provided
-- that no key of the manifest has a line break: neither a path nor an option adds a line or removes
-- one, and no key is left.
pub configuration_text_lines :
    (surface : Surface) (system_id workspace : String) (manifest : Manifest) (files : Dict DiskFile)
    (disks : List Disk) (configuration : String) (template text : Bytes)
    → surface.template system_id configuration ≡ ok template
    → AllPlainDisks disks
    → AllPlainItems manifest.media_items
    → configuration_text surface system_id workspace manifest files disks configuration ≡ ok text
    → IsFilledIn template text
configuration_text_lines surface system_id workspace manifest files disks configuration template
      text read plain items =
    Yields-result
      (configuration_text surface system_id workspace manifest files disks configuration) text
      (configuration_text-IsFilledIn surface system_id workspace manifest files disks configuration
        template read plain items)
