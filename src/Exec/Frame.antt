-- ===== src/Exec/Frame.antt =====
-- What an action may do to the state, as a reflexive and transitive relation between the state
-- before and the state after, with one rule for each way to build an action.
use unixtime_machine.Prelude.{◌≡◌, refl, Bool, true, false, Option, none, some, List, [], ◌∷◌}
use unixtime_machine.Errors.{Error}
use unixtime_machine.Exec.{
  Outcome, ok, raised, Exec, pure, raise, gets, lift, or_raise, rescue, choose, ◌>>=◌, Action,
  modify, raise_if, when, for_each,
}

pub record Frame (S : Type 0) : Type 1 where
  pub relates : S → S → Type 0
  pub refl_at : (s : S) → relates s s
  pub trans_at : (s t u : S) → relates s t → relates t u → relates s u

-- Whether it returns or raises, `m` stays within `F`.
pub record Within {S A : Type 0} (F : Frame S) (m : Exec S A) : Type 0 where
  pub at : (s : S) → F.relates s (m s).1

module _ {S A : Type 0} {F : Frame S} where
  pub Within-pure : (a : A) → Within F (pure a)
  unfolding pure
  Within-pure a = record { at = λ s. F.refl_at s }

  pub Within-raise : (e : Error) → Within F (raise {A = A} e)
  unfolding raise
  Within-raise e = record { at = λ s. F.refl_at s }

  pub Within-gets : (f : S → A) → Within F (gets f)
  unfolding gets
  Within-gets f = record { at = λ s. F.refl_at s }

  pub Within-lift : (r : Outcome A) → Within F (lift r)
  unfolding lift
  Within-lift r = record { at = λ s. F.refl_at s }

  pub Within-or_raise : (e : Error) (o : Option A) → Within F (or_raise e o)
  unfolding or_raise
  Within-or_raise e none = record { at = λ s. F.refl_at s }
  Within-or_raise e (some a) = record { at = λ s. F.refl_at s }

  pub Within-choose :
      (b : Bool) (m n : Exec S A) → Within F m → Within F n → Within F (choose b m n)
  unfolding choose
  Within-choose true m n km kn = km
  Within-choose false m n km kn = kn

  handled :
      (r : Outcome A) (h : Error → Exec S A) (s t : S)
      → ((e : Error) → Within F (h e))
      → F.relates s t
      → F.relates s (rescue (lift r) h t).1
  unfolding rescue lift
  handled (ok a) h s t kh st = st
  handled (raised e) h s t kh st = F.trans_at s t (h e t).1 st ((kh e).at t)

  pub Within-rescue :
      (m : Exec S A) (h : Error → Exec S A)
      → Within F m
      → ((e : Error) → Within F (h e))
      → Within F (rescue m h)
  unfolding rescue handled lift
  Within-rescue m h km kh = record { at = λ s. handled (m s).0 h s (m s).1 kh (km.at s) }

module _ {S A B : Type 0} {F : Frame S} where
  followed :
      (r : Outcome A) (f : A → Exec S B) (s t : S)
      → ((a : A) → Within F (f a))
      → F.relates s t
      → F.relates s ((lift r >>= f) t).1
  unfolding ◌>>=◌ lift
  followed (ok a) f s t kf st = F.trans_at s t (f a t).1 st ((kf a).at t)
  followed (raised e) f s t kf st = st

  pub Within-bind :
      (m : Exec S A) (f : A → Exec S B)
      → Within F m
      → ((a : A) → Within F (f a))
      → Within F (m >>= f)
  unfolding ◌>>=◌ followed lift
  Within-bind m f km kf = record { at = λ s. followed (m s).0 f s (m s).1 kf (km.at s) }

  -- The rest of a block may use that a computation without effects did not raise.
  pub Within-lift_bind :
      (r : Outcome A) (f : A → Exec S B)
      → ((a : A) → r ≡ ok a → Within F (f a))
      → Within F (lift r >>= f)
  unfolding ◌>>=◌ lift
  Within-lift_bind (ok a) f kf = record { at = (kf a refl).at }
  Within-lift_bind (raised e) f kf = record { at = λ s. F.refl_at s }

module _ {S : Type 0} {F : Frame S} where
  pub Within-modify : (f : S → S) → ((s : S) → F.relates s (f s)) → Within F (modify f)
  unfolding modify
  Within-modify f k = record { at = k }

  pub Within-raise_if : (b : Bool) (e : Error) → Within F (raise_if {S = S} b e)
  unfolding raise_if
  Within-raise_if true e = record { at = λ s. F.refl_at s }
  Within-raise_if false e = record { at = λ s. F.refl_at s }

  pub Within-when : (b : Bool) (m : Action S) → Within F m → Within F (when b m)
  unfolding when
  Within-when true m km = record { at = km.at }
  Within-when false m km = record { at = λ s. F.refl_at s }

  pub Within-for_each :
      {A : Type 0} (xs : List A) (body : A → Action S)
      → ((x : A) → Within F (body x))
      → Within F (for_each xs body)
  unfolding for_each
  Within-for_each [] body kb = record { at = λ s. F.refl_at s }
  Within-for_each (x ∷ xs) body kb =
      let rest =
        Within-bind (body x) (λ _. for_each xs body) (kb x) (λ _. Within-for_each xs body kb) in
      record { at = rest.at }

pub ruleset frame_rules = (
  Within-pure, Within-raise, Within-gets, Within-lift, Within-or_raise, Within-choose,
  Within-rescue, Within-bind, Within-raise_if, Within-when, Within-for_each,
)
