-- ===== src/Media/Tape.antt =====
-- scripts/media43bsd.py `write_simh_tape`: files as records of one block size, each between two
-- markers that give the size, with tape marks after each file and at the end.
use unixtime_machine.Prelude.{
  ◌≡◌, refl, ap, ◌∙◌, ℕ, zero, suc, ◌+◌, ◌-◌, ◌/◌, ◌%◌, ◌≤◌, ◌<◌, List, [], ◌∷◌, ◌++◌, length, take,
  drop, replicate, arith,
}
use unixtime_machine.Prelude.Bytes.{Bytes}

-- `struct.pack("<I", n)`, for n below 2 ^ 32
unfoldable pub marker : ℕ → Bytes
marker n = n % 256 ∷ n / 256 % 256 ∷ n / 65536 % 256 ∷ n / 16777216 % 256 ∷ []

abbrev pub tape_mark : Bytes
tape_mark = 0 ∷ 0 ∷ 0 ∷ 0 ∷ []

-- `block += b"\0" * (block_size - len(block))`
unfoldable pub padded_block : ℕ → Bytes → Bytes
padded_block block_size block = block ++ replicate (block_size - length block) 0

-- The padded blocks of `data`, in order; the length of the data is enough fuel.
unfoldable pub payloads : ℕ → ℕ → Bytes → List Bytes
unfolding padded_block
payloads zero block_size content = []
payloads (suc fuel) block_size [] = []
payloads (suc fuel) block_size (b ∷ bs) =
    padded_block block_size (take block_size (b ∷ bs))
    ∷ payloads fuel block_size (drop block_size (b ∷ bs))

unfoldable pub records : ℕ → List Bytes → Bytes
unfolding marker
records block_size [] = []
records block_size (block ∷ blocks) =
    marker block_size ++ (block ++ (marker block_size ++ records block_size blocks))

unfoldable pub tape_file : Bytes → ℕ → Bytes
unfolding records payloads
tape_file content block_size =
    records block_size (payloads (length content) block_size content) ++ tape_mark

-- `write_simh_tape`: what it writes
unfoldable pub write_simh_tape : List (Bytes × ℕ) → Bytes
unfolding tape_file
write_simh_tape [] = tape_mark
write_simh_tape ((content, block_size) ∷ files) =
    tape_file content block_size ++ write_simh_tape files

abbrev pub joined : List Bytes → Bytes
joined [] = []
joined (block ∷ blocks) = block ++ joined blocks

-- Every block is exactly `n` bytes long.
pub data AllSized (n : ℕ) : List Bytes → Type 0 where
  no_blocks : AllSized n []
  sized :
      {block : Bytes} {blocks : List Bytes}
      → length block ≡ n
      → AllSized n blocks
      → AllSized n (block ∷ blocks)

length-take_le : (n : ℕ) (xs : Bytes) → length (take n xs) ≤ n
length-take_le zero xs = omega arith
length-take_le (suc n) [] = omega arith
length-take_le (suc n) (x ∷ xs) = omega (arith, length-take_le n xs)

length-replicate : (n a : ℕ) → length (replicate n a) ≡ n
length-replicate zero a = refl
length-replicate (suc n) a = ap suc (length-replicate n a)

length_append : (xs ys : Bytes) → length (xs ++ ys) ≡ length xs + length ys
length_append [] ys = omega arith
length_append (x ∷ xs) ys = omega (arith, length_append xs ys)

length-padded_block : (n : ℕ) (block : Bytes) → length block ≤ n → length (padded_block n block) ≡ n
unfolding padded_block
length-padded_block n block h = omega (
  arith,
  length_append block (replicate (n - length block) 0),
  length-replicate (n - length block) 0,
)

payloads-sized : (fuel n : ℕ) (content : Bytes) → AllSized n (payloads fuel n content)
unfolding payloads
payloads-sized zero n content = no_blocks
payloads-sized (suc fuel) n [] = no_blocks
payloads-sized (suc fuel) n (b ∷ bs) =
    sized (length-padded_block n (take n (b ∷ bs)) (length-take_le n (b ∷ bs)))
      (payloads-sized fuel n (drop n (b ∷ bs)))

suc_minus : (n k : ℕ) → suc n - suc k ≡ n - k
suc_minus n k = omega arith

-- A block that is full is not padded, and one that is not full is the last.
take_joined :
    (n : ℕ) (xs rest : Bytes)
    → take (length (drop n xs)) rest ≡ drop n xs
    → take (length xs) (take n xs ++ (replicate (n - length (take n xs)) 0 ++ rest)) ≡ xs
take_joined zero xs rest h = h
take_joined (suc n) [] rest h = refl
take_joined (suc n) (x ∷ xs) rest h =
    ap (λ k. x ∷ take (length xs) (take n xs ++ (replicate k 0 ++ rest)))
      (suc_minus n (length (take n xs)))
    ∙ ap (λ l. x ∷ l) (take_joined n xs rest h)

append_assoc : (xs ys zs : Bytes) → ((xs ++ ys) ++ zs) ≡ (xs ++ (ys ++ zs))
append_assoc [] ys zs = refl
append_assoc (x ∷ xs) ys zs = ap (λ l. x ∷ l) (append_assoc xs ys zs)

length-drop_le : (n : ℕ) (b : ℕ) (bs : Bytes) → 0 < n → length (drop n (b ∷ bs)) ≤ length bs
length-drop_le zero b bs h = elim h [ ]
length-drop_le (suc zero) b bs h = omega arith
length-drop_le (suc (suc n)) b [] h = omega arith
length-drop_le (suc (suc n)) b (x ∷ bs) h = omega (arith, length-drop_le (suc n) x bs (omega arith))

payloads-restore :
    (fuel n : ℕ) (content : Bytes)
    → 0 < n
    → length content ≤ fuel
    → take (length content) (joined (payloads fuel n content)) ≡ content
unfolding payloads padded_block
payloads-restore zero n [] pos h = refl
payloads-restore zero n (b ∷ bs) pos h = absurd (omega arith)
payloads-restore (suc fuel) n [] pos h = refl
payloads-restore (suc fuel) n (b ∷ bs) pos h =
    let xs : Bytes = b ∷ bs in
    let rest : Bytes = joined (payloads fuel n (drop n xs)) in
    ap (take (length xs)) (append_assoc (take n xs) (replicate (n - length (take n xs)) 0) rest)
    ∙ take_joined n xs rest
        (payloads-restore fuel n (drop n xs) pos (omega (arith, length-drop_le n b bs pos)))

-- With a positive block size, every block of a file on the tape has exactly that size, and the
-- blocks in order begin with the data of the file: padding stands only after its end.
pub payloads_lem :
    (content : Bytes) (block_size : ℕ)
    → 0 < block_size
    → AllSized block_size (payloads (length content) block_size content)
      × (take (length content) (joined (payloads (length content) block_size content)) ≡ content)
payloads_lem content block_size pos = (
  payloads-sized (length content) block_size content,
  payloads-restore (length content) block_size content pos (omega arith),
)
