-- ===== src/Runtime/Replace.antt =====
-- Python's `str.replace`, on texts as lists of code points, with which `render_runtime` of
-- scripts/utmlib.py fills in a configuration.
use unixtime_machine.Prelude.{
  ℕ, zero, suc, ◌+◌, ◌≡◌, refl, sym, ap, Bool, true, [], ◌∷◌, ◌++◌, count, length, take, arith,
  if◌then◌else◌, Bool-cases, inl, inr, ◌==◌,
}
use mathlib.Core.Bool.{and-eq-true_iff}
use unixtime_machine.Prelude.{==_iff}
use unixtime_machine.Prelude.Bytes.{Bytes, starts_with}

-- An empty token stands between any two characters, and at both ends.
unfoldable pub interleave : Bytes → Bytes → Bytes
interleave value [] = value
interleave value (c ∷ text) = value ++ c ∷ interleave value text

-- `skip` characters of the text belong to the token that was replaced last.
unfoldable pub replace_from : ℕ → Bytes → ℕ → Bytes → Bytes → Bytes
replace_from t token skip value [] = []
replace_from t token (suc skip) value (c ∷ text) = replace_from t token skip value text
replace_from t token zero value (c ∷ text) =
    let matched = replace_from t token (length token) value text in
    let unmatched = replace_from t token zero value text in
    if starts_with (t ∷ token) (c ∷ text) then value ++ matched else c ∷ unmatched

-- `text.replace(token, value)`
unfoldable pub replace : Bytes → Bytes → Bytes → Bytes
unfolding interleave replace_from
replace [] value text = interleave value text
replace (t ∷ token) value text = replace_from t token zero value text

module _ (test : ℕ → Bool) where
  pub count-append : (xs ys : Bytes) → count test (xs ++ ys) ≡ count test xs + count test ys
  count-append [] ys = omega arith
  count-append (x ∷ xs) ys = omega (arith, count-append xs ys)

  count_one : (c : ℕ) (text : Bytes) → count test (c ∷ text) ≡ 0 → count test text ≡ 0
  count_one c text e = omega (arith, e)

  -- What a token matches has none of the characters that the token has none of.
  count_matched :
      (token text : Bytes)
      → starts_with token text ≡ true
      → count test token ≡ 0
      → count test (take (length token) text) ≡ 0
  unfolding starts_with
  count_matched [] text e z = refl
  count_matched (t ∷ token) [] e z = absurd (cc)
  count_matched (t ∷ token) (c ∷ text) e z =
      let both = (and-eq-true_iff (t == c) (starts_with token text)).0 e in
      let same = (==_iff t c).0 both.0 in
      let rest = count_matched token text both.1 (count_one t token z) in
      let head : count test (t ∷ []) ≡ 0 = omega (arith, z) in
      let other : count test (c ∷ []) ≡ count test (t ∷ []) =
        ap (λ (x : ℕ). count test (x ∷ [])) (sym same) in
      omega (arith, rest, head, other)

  -- A value and a token without such characters leave their number as it is.
  count-replace_from :
      (t : ℕ) (token : Bytes) (skip : ℕ) (value text : Bytes)
      → count test (t ∷ token) ≡ 0
      → count test value ≡ 0
      → count test (take skip text) ≡ 0
      → count test (replace_from t token skip value text) ≡ count test text
  unfolding replace_from
  count-replace_from t token zero value [] zt zv zs = refl
  count-replace_from t token (suc skip) value [] zt zv zs = refl
  count-replace_from t token (suc skip) value (c ∷ text) zt zv zs =
      let ih = count-replace_from t token skip value text zt zv in omega (arith, ih, zs)
  count-replace_from t token zero value (c ∷ text) zt zv zs =
      let unmatched = count-replace_from t token zero value text zt zv refl in
      elim (Bool-cases (starts_with (t ∷ token) (c ∷ text))) [
        | inl m ↦
            let gone = count_matched (t ∷ token) (c ∷ text) m zt in
            let matched =
              count-replace_from t token (length token) value text zt zv (omega (arith, gone)) in
            rw (m, count-append) (omega (arith, gone, matched, zv))
        | inr m ↦ rw m (omega (arith, unmatched))
      ]

  count-interleave :
      (value text : Bytes)
      → count test value ≡ 0
      → count test (interleave value text) ≡ count test text
  unfolding interleave
  count-interleave value [] zv = omega (arith, zv)
  count-interleave value (c ∷ text) zv =
      rw count-append (omega (arith, zv, count-interleave value text zv))

  pub count-replace :
      (token value text : Bytes)
      → count test token ≡ 0
      → count test value ≡ 0
      → count test (replace token value text) ≡ count test text
  unfolding replace
  count-replace [] value text zt zv = count-interleave value text zv
  count-replace (t ∷ token) value text zt zv = count-replace_from t token zero value text zt zv refl
