-- ===== src/Prelude/Dict.antt =====
-- A directory of files, or a Python dict, keyed by text: the entries in the order of their file names.
use Prim.Native.String.{String, compare, ◌++◌}
use mathlib.Core.Path.{◌≡◌, refl}
use mathlib.Core.Bool.{Bool, false}
use mathlib.Core.Option.{Option, none, some}
use mathlib.Core.List.{List, [], ◌∷◌}
use native.Mathlib.Omega.{arith}
use text.Mathlib.Text.{◌==◌, is_lt}
use text.Mathlib.TextEquality.{eq_iff}
use unixtime_machine.Prelude.Tests.{if◌then◌else◌, is_some}

abbrev pub Dict {ℓ} : Type ℓ → Type ℓ
Dict V = List (String × V)

-- `sorted(directory.glob("*.json"))` compares names with their suffix.
abbrev pub sorts_before : String → String → Bool
sorts_before k j = is_lt (compare (k ++ ".json") (j ++ ".json"))

module _ {ℓ} {V : Type ℓ} where
  abbrev pub keys : Dict V → List String
  keys [] = []
  keys ((k, _) ∷ d) = k ∷ keys d

  unfoldable pub lookup : String → Dict V → Option V
  lookup k [] = none
  lookup k ((j, v) ∷ d) = if j == k then some v else lookup k d

  unfoldable pub without : String → Dict V → Dict V
  without k [] = []
  without k ((j, v) ∷ d) = let rest = without k d in if j == k then rest else (j, v) ∷ rest

  unfoldable pub place : String → V → Dict V → Dict V
  place k v [] = (k, v) ∷ []
  place k v ((j, w) ∷ d) =
      let further = (j, w) ∷ place k v d in
      if sorts_before k j then (k, v) ∷ (j, w) ∷ d else further

  -- `d[k] = v`, or the atomic replacement of a file
  unfoldable pub put : String → V → Dict V → Dict V
  unfolding place without
  put k v d = place k v (without k d)

  -- `k in d`, `path.exists()`
  unfoldable pub contains : String → Dict V → Bool
  unfolding lookup
  contains k d = is_some (lookup k d)

  pub lookup-without :
      (k j : String) (d : Dict V) → lookup j (without k d) ≡ (if k == j then none else lookup j d)
  unfolding lookup without
  lookup-without k j [] = ground arith
  lookup-without k j ((i, v) ∷ d) =
      ground (arith, lookup-without k j d, eq_iff i k, eq_iff i j, eq_iff k j)

  lookup-place :
      (k j : String) (v : V) (d : Dict V)
      → lookup k d ≡ none
      → lookup j (place k v d) ≡ (if k == j then some v else lookup j d)
  unfolding lookup place
  lookup-place k j v [] absent = ground arith
  lookup-place k j v ((i, w) ∷ d) absent =
      ground (arith, lookup-place k j v d, eq_iff i k, eq_iff i j, eq_iff k j)

  lookup-without_self : (k : String) (d : Dict V) → lookup k (without k d) ≡ none
  lookup-without_self k d = ground (arith, lookup-without k k d, eq_iff k k)

  pub lookup-put :
      (k j : String) (v : V) (d : Dict V)
      → lookup j (put k v d) ≡ (if k == j then some v else lookup j d)
  unfolding put
  lookup-put k j v d =
      ground
        (arith, lookup-place k j v (without k d) (lookup-without_self k d), lookup-without k j d)

  pub lookup-put_self : (k : String) (v : V) (d : Dict V) → lookup k (put k v d) ≡ some v
  lookup-put_self k v d = ground (arith, lookup-put k k v d, eq_iff k k)

  none_of : (o : Option V) → is_some o ≡ false → o ≡ none
  none_of none e = refl
  none_of (some v) e = absurd (cc)

  pub lookup_absent : (k : String) (d : Dict V) → contains k d ≡ false → lookup k d ≡ none
  unfolding contains
  lookup_absent k d e = none_of (lookup k d) e

pub ruleset dict_laws = (lookup-put, lookup-without)
