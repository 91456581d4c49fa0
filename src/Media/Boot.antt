-- ===== src/Media/Boot.antt =====
-- scripts/media43bsd.py `decode_boot42`: the strict decoder of the bootstrap's uuencoded text.
use unixtime_machine.Prelude.{
  ℕ, ◌≡◌, refl, ◌<◌, ◌+◌, ◌-◌, ◌*◌, ◌/◌, ◌%◌, ◌==◌, ◌&&◌, ◌||◌, not, ltb, leb, any, length, Bool,
  true, false, List, [], ◌∷◌, ◌++◌, Option, none, some, arith, if◌then◌else◌,
}
use unixtime_machine.Prelude.Bytes.{Bytes, bytes, bytes_eq}
use unixtime_machine.Errors.{
  boot_empty, boot_bad_header, boot_no_end, boot_data_after_end, boot_no_terminator,
  boot_invalid_characters, boot_invalid_length, boot_early_terminator, boot_length_mismatch,
  boot_undecodable,
}
use unixtime_machine.Outcome.{
  Outcome, ok, raised, ◌>>=◌, ◌>>◌, refuse_if, require, Ensures, Ensures-bind, Ensures-require,
  Ensures-unit,
}

-- Whether `bytes.strip` leaves nothing.
abbrev is_space : ℕ → Bool
is_space b = b == 32 || leb 9 b && leb b 13

abbrev pub is_blank : Bytes → Bool
is_blank line = not (any (λ b. not (is_space b)) line)

-- The lines before the first line `end`, and those after it.
abbrev pub split_end : List Bytes → Option (List Bytes × List Bytes)
split_end [] = none
split_end (line ∷ lines) =
    let further = split_end lines in
    if bytes_eq line (bytes "end")
    then some ([], lines)
    else elim further [ none ↦ none | some (before, after) ↦ some (line ∷ before, after) ]

-- `encoded[-1] in (b"`", b" ")`
abbrev pub ends_empty : List Bytes → Bool
ends_empty [] = false
ends_empty (line ∷ []) = bytes_eq line (96 ∷ []) || bytes_eq line (32 ∷ [])
ends_empty (line ∷ another ∷ more) = ends_empty (another ∷ more)

abbrev pub in_range : ℕ → Bool
in_range b = leb 0x20 b && leb b 0x60

-- The length that the first byte of a line declares.
abbrev pub declared_of : Bytes → ℕ
declared_of [] = 0
declared_of (first ∷ rest) = (first - 0x20) % 64

abbrev pub is_empty : Bytes → Bool
is_empty [] = true
is_empty (_ ∷ _) = false

module _ (a2b_uu : Bytes → Option Bytes) where
  -- The checks of one line, and its bytes.
  unfoldable pub decode_line : ℕ → Bool → Bytes → Outcome Bytes
  decode_line number is_last line = do
    refuse_if (is_empty line || any (λ b. not (in_range b)) line) (boot_invalid_characters number)
    let declared = declared_of line
    refuse_if (ltb 45 declared || not (length line == 1 + 4 * ((declared + 2) / 3)))
        (boot_invalid_length number)
    refuse_if (declared == 0 && not is_last) boot_early_terminator
    part ← require boot_undecodable (a2b_uu line)
    refuse_if (not (length part == declared)) (boot_length_mismatch number)
    ok part

  -- The loop over the encoded lines, of which the last has the number `end`.
  unfoldable pub decode_lines : ℕ → ℕ → List Bytes → Outcome Bytes
  unfolding decode_line
  decode_lines number end [] = ok []
  decode_lines number end (line ∷ lines) = do
    part ← decode_line number (number == end) line
    rest ← decode_lines (number + 1) end lines
    ok (part ++ rest)

  unfoldable pub decode_encoded : List Bytes × List Bytes → Outcome Bytes
  unfolding decode_lines
  decode_encoded (encoded, after) = do
    refuse_if (any (λ line. not (is_blank line)) after) boot_data_after_end
    refuse_if (not (ends_empty encoded)) boot_no_terminator
    content ← decode_lines 2 (1 + length encoded) encoded
    refuse_if (is_empty content) boot_empty
    ok content

  -- `decode_boot42` on the lines of a uuencoded file
  unfoldable pub decode_boot42 : List Bytes → Outcome Bytes
  unfolding decode_encoded
  decode_boot42 [] = raised boot_bad_header
  decode_boot42 (header ∷ lines) = do
    refuse_if (not (bytes_eq header (bytes "begin 700 boot42"))) boot_bad_header
    parts ← require boot_no_end (split_end lines)
    decode_encoded parts

-- The sum of the lengths that the lines declare.
abbrev pub declared_total : List Bytes → ℕ
declared_total [] = 0
declared_total (line ∷ lines) = declared_of line + declared_total lines

-- What the lines up to `end` declare.
abbrev pub declared_in : Option (List Bytes × List Bytes) → ℕ
declared_in none = 0
declared_in (some (encoded, after)) = declared_total encoded

length_append : (xs ys : Bytes) → length (xs ++ ys) ≡ length xs + length ys
length_append [] ys = omega arith
length_append (x ∷ xs) ys = omega (arith, length_append xs ys)

module _ (a2b_uu : Bytes → Option Bytes) where
  line_length :
      (number : ℕ) (is_last : Bool) (line : Bytes)
      → Ensures (λ part. length part ≡ declared_of line) (decode_line a2b_uu number is_last line)
  unfolding decode_line
  line_length number is_last line = ground arith

  lines_length :
      (number end : ℕ) (lines : List Bytes)
      → Ensures
          (λ content. length content ≡ declared_total lines)
          (decode_lines a2b_uu number end lines)
  unfolding decode_lines
  lines_length number end [] = refl
  lines_length number end (line ∷ lines) =
      Ensures-bind (λ part. length part ≡ declared_of line) _
        (decode_line a2b_uu number (number == end) line) _ (line_length number (number == end) line)
        λ part p.
          Ensures-bind (λ rest. length rest ≡ declared_total lines) _
            (decode_lines a2b_uu (number + 1) end lines) _ (lines_length (number + 1) end lines)
            λ rest q. omega (arith, length_append part rest, p, q)

  -- The content is what the lines declare, and there is some.
  abbrev pub Complete : ℕ → Bytes → Type 0
  Complete total content = (length content ≡ total) × (0 < length content)

  filled :
      (content : Bytes) (total : ℕ)
      → length content ≡ total
      → Ensures (Complete total) (refuse_if (is_empty content) boot_empty >>= λ _. ok content)
  filled [] total e = tt
  filled (b ∷ bs) total e = (e, omega arith)

  encoded-Complete :
      (encoded after : List Bytes)
      → Ensures (Complete (declared_total encoded)) (decode_encoded a2b_uu (encoded, after))
  unfolding decode_encoded
  encoded-Complete encoded after =
      Ensures-bind (λ _. Unit {0}) _
        (refuse_if (any (λ line. not (is_blank line)) after) boot_data_after_end) _ (Ensures-unit _)
        λ _ _.
          Ensures-bind (λ _. Unit {0}) _ (refuse_if (not (ends_empty encoded)) boot_no_terminator) _
            (Ensures-unit _)
            λ _ _.
              Ensures-bind (λ content. length content ≡ declared_total encoded) _
                (decode_lines a2b_uu 2 (1 + length encoded) encoded) _
                (lines_length 2 (1 + length encoded) encoded)
                λ content e. filled content (declared_total encoded) e

  parts-Complete :
      (parts : Option (List Bytes × List Bytes))
      → Ensures (Complete (declared_in parts)) (require boot_no_end parts >>= decode_encoded a2b_uu)
  parts-Complete none = tt
  parts-Complete (some (encoded, after)) = encoded-Complete encoded after

  boot-Complete :
      (header : Bytes) (lines : List Bytes)
      → Ensures (Complete (declared_in (split_end lines))) (decode_boot42 a2b_uu (header ∷ lines))
  unfolding decode_boot42
  boot-Complete header lines =
      Ensures-bind (λ _. Unit {0}) _
        (refuse_if (not (bytes_eq header (bytes "begin 700 boot42"))) boot_bad_header) _
        (Ensures-unit _) λ _ _. parts-Complete (split_end lines)

  -- Whatever the line decoder does, a bootstrap that is accepted is not empty and has exactly as many
  -- bytes as the lines before `end` declare together: nothing was lost or added on the way.
  pub decode_boot42_complete :
      (header : Bytes) (lines : List Bytes) (content : Bytes)
      → decode_boot42 a2b_uu (header ∷ lines) ≡ ok content
      → (length content ≡ declared_in (split_end lines)) × (0 < length content)
  decode_boot42_complete header lines content e =
      Ensures-require (Complete (declared_in (split_end lines)))
        (decode_boot42 a2b_uu (header ∷ lines)) (boot-Complete header lines) e
