-- ===== src/Exec.antt =====
-- Methods that change the state of their object and may raise. What was written before a raise
-- stays written, so the state comes back beside the error too.
pub mod Frame
pub mod Leads
pub mod Sparing
pub use unixtime_machine.Outcome.{Outcome, ok, raised}
use unixtime_machine.Prelude.{Bool, true, false, Option, none, some, List, [], ◌∷◌}
use unixtime_machine.Errors.{Error}

abbrev pub Exec {ℓ} : Type ℓ → Type ℓ → Type ℓ
Exec S A = S → Outcome A × S

module _ {ℓ} {S A : Type ℓ} where
  unfoldable pub pure : A → Exec S A
  pure a s = (ok a, s)

  unfoldable pub raise : Error → Exec S A
  raise e s = (raised e, s)

  unfoldable pub gets : (S → A) → Exec S A
  gets f s = (ok (f s), s)

  -- the result of a computation that has no effect
  unfoldable pub lift : Outcome A → Exec S A
  lift r s = (r, s)

  unfoldable pub or_raise : Error → Option A → Exec S A
  or_raise e none s = (raised e, s)
  or_raise e (some a) s = (ok a, s)

  abbrev pub handle : Outcome A → (Error → Exec S A) → Exec S A
  handle (ok a) h s = (ok a, s)
  handle (raised e) h s = h e s

  -- `try: m` with `except Exception as e: h e`
  unfoldable pub rescue : Exec S A → (Error → Exec S A) → Exec S A
  rescue m h s = let (r, s') = m s in handle r h s'

  -- a branch of which only one side is run
  unfoldable pub choose : Bool → Exec S A → Exec S A → Exec S A
  choose true m n = m
  choose false m n = n

module _ {ℓ} {S A B : Type ℓ} where
  abbrev follow : Outcome A → (A → Exec S B) → Exec S B
  follow (ok a) f s = f a s
  follow (raised e) f s = (raised e, s)

  infixl 10 ◌>>=◌ ◌>>◌
  unfoldable pub ◌>>=◌ : Exec S A → (A → Exec S B) → Exec S B
  ◌>>=◌ m f s = let (r, s') = m s in follow r f s'

  abbrev pub ◌>>◌ : Exec S A → Exec S B → Exec S B
  m >> n = m >>= λ _. n

abbrev pub Action : Type 0 → Type 0
Action S = Exec S Unit

module _ {S : Type 0} where
  unfoldable pub modify : (S → S) → Action S
  modify f s = (ok tt, f s)

  -- `if test: raise e`
  unfoldable pub raise_if : Bool → Error → Action S
  raise_if true e s = (raised e, s)
  raise_if false e s = (ok tt, s)

  -- `if test: m`
  unfoldable pub when : Bool → Action S → Action S
  when true m s = m s
  when false m s = (ok tt, s)

  -- `for x in xs: body x`
  unfoldable pub for_each : {A : Type 0} → List A → (A → Action S) → Action S
  unfolding ◌>>=◌
  for_each [] body s = (ok tt, s)
  for_each (x ∷ xs) body s = (body x >>= λ _. for_each xs body) s
