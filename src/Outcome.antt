-- ===== src/Outcome.antt =====
-- What a Python call comes to: a value, or the exception that it raises.
use unixtime_machine.Prelude.{◌≡◌, refl, subst, Bool, true, false, Option, none, some}
use unixtime_machine.Errors.{Error}

pub data Outcome {ℓ} (A : Type ℓ) : Type ℓ where
  ok : A → Outcome A
  raised : Error → Outcome A

infixl 10 ◌>>=◌ ◌>>◌
abbrev pub ◌>>=◌ {ℓ κ} : {A : Type ℓ} {B : Type κ} → Outcome A → (A → Outcome B) → Outcome B
ok a >>= f = f a
raised e >>= f = raised e

abbrev pub ◌>>◌ {ℓ} : {B : Type ℓ} → Outcome (Unit {0}) → Outcome B → Outcome B
m >> k = m >>= λ _. k

-- `if test: raise e`
abbrev pub refuse_if : Bool → Error → Outcome (Unit {0})
refuse_if true e = raised e
refuse_if false e = ok tt

abbrev pub require {ℓ} : {A : Type ℓ} → Error → Option A → Outcome A
require e none = raised e
require e (some a) = ok a

-- If `m` returns, its value satisfies `P`.
abbrev pub Ensures {ℓ κ} : {A : Type ℓ} → (A → Type κ) → Outcome A → Type κ
Ensures P (ok a) = P a
Ensures P (raised e) = Unit

pub Ensures-bind {ℓ} :
    {A B : Type ℓ} (P : A → Type 0) (Q : B → Type 0) (m : Outcome A) (f : A → Outcome B)
    → Ensures P m
    → ((a : A) → P a → Ensures Q (f a))
    → Ensures Q (m >>= f)
Ensures-bind P Q (ok a) f p q = q a p
Ensures-bind P Q (raised e) f p q = tt

pub Ensures-require {ℓ} :
    {A : Type ℓ} (P : A → Type 0) (m : Outcome A) {a : A} → Ensures P m → m ≡ ok a → P a
Ensures-require P (ok a) p e = subst (Ensures P) e p
Ensures-require P (raised x) p e = cc

pub Ensures-unit {ℓ} : {A : Type ℓ} (m : Outcome A) → Ensures (λ _. Unit {0}) m
Ensures-unit (ok a) = tt
Ensures-unit (raised e) = tt

-- The same as a record, for proofs that follow a block.
pub record Yields {A : Type 0} (P : A → Type 0) (m : Outcome A) : Type 0 where
  pub at : Ensures P m

module _ {A B : Type 0} (P : A → Type 0) (Q : B → Type 0) where
  pub Yields-bind :
      (m : Outcome A) (f : A → Outcome B)
      → Yields P m
      → ((a : A) → P a → Yields Q (f a))
      → Yields Q (m >>= f)
  Yields-bind m f p q = record { at = Ensures-bind P Q m f p.at (λ a k. (q a k).at) }

module _ {B : Type 0} (Q : B → Type 0) where
  pub Yields-ok : (b : B) → Q b → Yields Q (ok b)
  Yields-ok b q = record { at = q }

  -- Nothing is needed of the first part.
  pub Yields-then :
      {A : Type 0} (m : Outcome A) (f : A → Outcome B)
      → ((a : A) → Yields Q (f a))
      → Yields Q (m >>= f)
  Yields-then (ok a) f q = q a
  Yields-then (raised e) f q = record { at = tt }

  pub Yields-refuse_if :
      (b : Bool) (e : Error) (k : Outcome B)
      → (b ≡ false → Yields Q k)
      → Yields Q (refuse_if b e >>= λ _. k)
  Yields-refuse_if true e k q = record { at = tt }
  Yields-refuse_if false e k q = q refl

ensured_map :
    {A : Type 0} (P Q : A → Type 0) (m : Outcome A)
    → Ensures P m
    → ((a : A) → P a → Q a)
    → Ensures Q m
ensured_map P Q (ok a) p f = f a p
ensured_map P Q (raised e) p f = tt

pub Yields-map :
    {A : Type 0} {P Q : A → Type 0} (m : Outcome A)
    → Yields P m
    → ((a : A) → P a → Q a)
    → Yields Q m
Yields-map {P = P} {Q = Q} m p f = record { at = ensured_map P Q m p.at f }

pub Yields-result :
    {A : Type 0} {P : A → Type 0} (m : Outcome A) (a : A) → Yields P m → m ≡ ok a → P a
Yields-result {P = P} m a p e = Ensures-require P m p.at e

ensured_by :
    {A : Type 0} (P : A → Type 0) (m : Outcome A) → ((a : A) → m ≡ ok a → P a) → Ensures P m
ensured_by P (ok a) f = f a refl
ensured_by P (raised e) f = tt

-- From what its results are like.
pub Yields-by :
    {A : Type 0} {P : A → Type 0} (m : Outcome A) → ((a : A) → m ≡ ok a → P a) → Yields P m
Yields-by {P = P} m f = record { at = ensured_by P m f }

pub Yields-require :
    {A : Type 0} (e : Error) (o : Option A) → Yields (λ a. o ≡ some a) (require e o)
Yields-require e none = record { at = tt }
Yields-require e (some a) = record { at = refl }
