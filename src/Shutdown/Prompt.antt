-- ===== src/Shutdown/Prompt.antt =====
-- When the terminal has shown the prompt: the test that the driver makes on its tail, stated of the
-- whole stream of chunks.
use unixtime_machine.Prelude.{
  ℕ, ◌-◌, ◌≡◌, refl, Bool, true, false, ◌||◌, List, [], ◌∷◌, ◌++◌, arith, length, take, last,
  Bool-cases, inl, inr, take-append-drop, subst,
}
use mathlib.Core.List.{append_assoc}
use unixtime_machine.Prelude.Bytes.{Bytes, occurs_in, starts_with}
use unixtime_machine.Shutdown.{tail_size}

starts_with-append : (p xs ys : Bytes) → starts_with p xs ≡ true → starts_with p (xs ++ ys) ≡ true
unfolding starts_with
starts_with-append [] xs ys h = refl
starts_with-append (a ∷ p) [] ys h = cc
starts_with-append (a ∷ p) (x ∷ xs) ys h = ground (arith, starts_with-append p xs ys)

-- A prompt in a part of the stream is a prompt in the stream.
pub occurs-append_right : (p xs ys : Bytes) → occurs_in p ys ≡ true → occurs_in p (xs ++ ys) ≡ true
unfolding occurs_in
occurs-append_right p [] ys h = h
occurs-append_right p (x ∷ xs) ys h = elim (Bool-cases (starts_with p (x ∷ (xs ++ ys)))) [
  | inl e ↦ rw e
  | inr e ↦ rw e (occurs-append_right p xs ys h)
]

pub occurs_in-last : (p xs : Bytes) (n : ℕ) → occurs_in p (last n xs) ≡ true → occurs_in p xs ≡ true
occurs_in-last p xs n h =
    subst (λ (l : Bytes). occurs_in p l ≡ true) (take-append-drop (length xs - n) xs)
      (occurs-append_right p (take (length xs - n) xs) (last n xs) h)

-- The terminal's output since the stop was begun, chunk by chunk, shows the prompt in its tail.
abbrev pub confirmed : Bytes → Bytes → List Bytes → Bool
confirmed prompt seen [] = false
confirmed prompt seen (c ∷ cs) =
    occurs_in prompt (last tail_size (seen ++ c)) || confirmed prompt (seen ++ c) cs

abbrev pub joined : List Bytes → Bytes
joined [] = []
joined (c ∷ cs) = c ++ joined cs

occurs-append_left : (p xs ys : Bytes) → occurs_in p xs ≡ true → occurs_in p (xs ++ ys) ≡ true
unfolding occurs_in
occurs-append_left p [] [] h = h
occurs-append_left p [] (y ∷ ys) h = ground (arith, starts_with-append p [] (y ∷ ys))
occurs-append_left p (x ∷ xs) ys h =
    ground (arith, starts_with-append p (x ∷ xs) ys, occurs-append_left p xs ys)

pub confirmed_shown :
    (p seen : Bytes) (cs : List Bytes)
    → confirmed p seen cs ≡ true
    → occurs_in p (seen ++ joined cs) ≡ true
confirmed_shown p seen [] h = cc
confirmed_shown p seen (c ∷ cs) h =
    let assoc : (seen ++ c) ++ joined cs ≡ seen ++ (c ++ joined cs) =
      append_assoc seen c (joined cs) in
    let later = confirmed_shown p (seen ++ c) cs in
    elim (Bool-cases (occurs_in p (last tail_size (seen ++ c)))) [
      | inl e ↦
          rw (← assoc) (
            occurs-append_left p (seen ++ c) (joined cs) (occurs_in-last p (seen ++ c) tail_size e))
      | inr e ↦ rw (← assoc) (later (rw e at h))
    ]
