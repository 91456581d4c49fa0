-- ===== src/Exec/Leads.antt =====
-- What holds of the result and the state after an action that returns, from one state on, with one
-- rule for each way to build an action.
use unixtime_machine.Prelude.{◌≡◌, refl, subst, Bool, true, false, Option, none, some}
use unixtime_machine.Errors.{Error}
use unixtime_machine.Exec.{
  Outcome, ok, raised, Exec, or_raise, pure, raise, gets, lift, rescue, modify, raise_if, ◌>>=◌,
}

abbrev pub Ended : {S A : Type 0} → (A → S → Type 0) → Outcome A × S → Type 0
Ended Q (ok a, s) = Q a s
Ended Q (raised e, s) = Unit

-- Where `m` returns from `s`, the result and the new state satisfy `Q`.
pub record Leads {S A : Type 0} (m : Exec S A) (s : S) (Q : A → S → Type 0) : Type 0 where
  pub at : Ended Q (m s)

module _ {S A : Type 0} {Q : A → S → Type 0} where
  pub Leads-pure : (a : A) (s : S) → Q a s → Leads (pure a) s Q
  unfolding pure
  Leads-pure a s q = record { at = q }

  pub Leads-raise : (e : Error) (s : S) → Leads (raise e) s Q
  unfolding raise
  Leads-raise e s = record { at = tt }

  pub Leads-gets : (g : S → A) (s : S) → Q (g s) s → Leads (gets g) s Q
  unfolding gets
  Leads-gets g s q = record { at = q }

  pub Leads-lift : (r : Outcome A) (s : S) → ((a : A) → r ≡ ok a → Q a s) → Leads (lift r) s Q
  unfolding lift
  Leads-lift (ok a) s k = record { at = k a refl }
  Leads-lift (raised e) s k = record { at = tt }

  rescued :
      (o : Outcome A) (h : Error → Exec S A) (s t : S)
      → Ended Q (o, t)
      → ((e : Error) (u : S) → Leads (h e) u Q)
      → Ended Q (rescue (lift o) h t)
  unfolding rescue lift
  rescued (ok a) h s t q k = q
  rescued (raised e) h s t q k = (k e t).at

  pub Leads-rescue :
      (m : Exec S A) (h : Error → Exec S A) (s : S)
      → Leads m s Q
      → ((e : Error) (t : S) → Leads (h e) t Q)
      → Leads (rescue m h) s Q
  unfolding rescue rescued lift
  Leads-rescue m h s p k = record { at = rescued (m s).0 h s (m s).1 p.at k }

  pub Leads-result : (m : Exec S A) (s t : S) (a : A) → Leads m s Q → m s ≡ (ok a, t) → Q a t
  Leads-result m s t a p e = subst (Ended Q) e p.at

module _ {S A B : Type 0} {Q : B → S → Type 0} where
  bound :
      {P : A → S → Type 0} (o : Outcome A) (f : A → Exec S B) (t : S)
      → Ended P (o, t)
      → ((a : A) (u : S) → P a u → Leads (f a) u Q)
      → Ended Q ((lift o >>= f) t)
  unfolding ◌>>=◌ lift
  bound (ok a) f t p k = (k a t p).at
  bound (raised e) f t p k = tt

  pub Leads-bind :
      {P : A → S → Type 0} (m : Exec S A) (f : A → Exec S B) (s : S)
      → Leads m s P
      → ((a : A) (t : S) → P a t → Leads (f a) t Q)
      → Leads (m >>= f) s Q
  unfolding ◌>>=◌ bound lift
  Leads-bind m f s p k = record { at = bound (m s).0 f (m s).1 p.at k }

module _ {S : Type 0} {Q : Unit → S → Type 0} where
  pub Leads-modify : (g : S → S) (s : S) → Q tt (g s) → Leads (modify g) s Q
  unfolding modify
  Leads-modify g s q = record { at = q }

  pub Leads-raise_if :
      (b : Bool) (e : Error) (s : S) → (b ≡ false → Q tt s) → Leads (raise_if b e) s Q
  unfolding raise_if
  Leads-raise_if true e s k = record { at = tt }
  Leads-raise_if false e s k = record { at = k refl }

module _ {S A : Type 0} where
  ended_any : (o : Outcome A) (s : S) → Ended (λ _ _. Unit) (o, s)
  ended_any (ok a) s = tt
  ended_any (raised e) s = tt

  pub Leads-any : (m : Exec S A) (s : S) → Leads m s (λ _ _. Unit)
  Leads-any m s = record { at = ended_any (m s).0 (m s).1 }

module _ {S A B : Type 0} {Q : B → S → Type 0} where
  -- A part of which nothing has to be known.
  pub Leads-after :
      (m : Exec S A) (f : A → Exec S B) (s : S)
      → ((a : A) (t : S) → Leads (f a) t Q)
      → Leads (m >>= f) s Q
  Leads-after m f s k = Leads-bind m f s (Leads-any m s) λ a t _. k a t

module _ {S A : Type 0} {Q : A → S → Type 0} where
  pub Leads-or_raise :
      (e : Error) (o : Option A) (s : S) → ((a : A) → o ≡ some a → Q a s) → Leads (or_raise e o) s Q
  unfolding or_raise
  Leads-or_raise e none s k = record { at = tt }
  Leads-or_raise e (some a) s k = record { at = k a refl }

module _ {S A : Type 0} {P Q : A → S → Type 0} where
  weakened :
      (o : Outcome A) (s : S) → ((a : A) (t : S) → P a t → Q a t) → Ended P (o, s) → Ended Q (o, s)
  weakened (ok a) s k p = k a s p
  weakened (raised e) s k p = tt

  pub Leads-weaken :
      (m : Exec S A) (s : S) → ((a : A) (t : S) → P a t → Q a t) → Leads m s P → Leads m s Q
  Leads-weaken m s k p = record { at = weakened (m s).0 (m s).1 k p.at }
