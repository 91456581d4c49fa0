-- ===== src/Exec/Sparing.antt =====
-- What holds between the state before and the state after where an action raises.
use unixtime_machine.Prelude.{◌≡◌, Bool, true, false}
use unixtime_machine.Errors.{Error}
use unixtime_machine.Exec.{Outcome, ok, raised, Exec, pure, lift, choose, ◌>>=◌, modify}
use unixtime_machine.Exec.Frame.{Frame, Within}

abbrev pub OnRaise : {S A : Type 0} → Frame S → S → Outcome A × S → Type 0
OnRaise F s (ok a, t) = Unit
OnRaise F s (raised e, t) = F.relates s t

-- If `m` raises, it has stayed within `F`.
pub record Sparing {S A : Type 0} (F : Frame S) (m : Exec S A) : Type 0 where
  pub at : (s : S) → OnRaise F s (m s)

module _ {S A : Type 0} (F : Frame S) where
  on_raise : (s t : S) (o : Outcome A) → F.relates s t → OnRaise F s (o, t)
  on_raise s t (ok a) r = tt
  on_raise s t (raised e) r = r

  -- What relates the start to a middle state carries over.
  pub later : (s t : S) (x : Outcome A × S) → F.relates s t → OnRaise F t x → OnRaise F s x
  later s t (ok a, u) r o = tt
  later s t (raised e, u) r o = F.trans_at s t u r o

  pub raised_at :
      (s : S) (x : Outcome A × S) (e : Error) → x.0 ≡ raised e → OnRaise F s x → F.relates s x.1
  raised_at s (ok a, t) e p o = absurd (cc)
  raised_at s (raised _, t) e p o = o

module _ {S A : Type 0} {F : Frame S} where
  pub Sparing-Within : (m : Exec S A) → Within F m → Sparing F m
  Sparing-Within m w = record { at = λ s. on_raise F s (m s).1 (m s).0 (w.at s) }

  pub Sparing-choose :
      (b : Bool) (m n : Exec S A) → Sparing F m → Sparing F n → Sparing F (choose b m n)
  unfolding choose
  Sparing-choose true m n sm sn = sm
  Sparing-choose false m n sm sn = sn

module _ {S A B : Type 0} (F : Frame S) where
  sequel :
      (o : Outcome A) (f : A → Exec S B) (s t : S)
      → F.relates s t
      → ((a : A) → Sparing F (f a))
      → OnRaise F s ((lift o >>= f) t)
  unfolding ◌>>=◌ lift
  sequel (ok a) f s t r sf = later F s t (f a t) r ((sf a).at t)
  sequel (raised e) f s t r sf = r

  mapped :
      (o : Outcome A) (g : A → B) (s t : S)
      → OnRaise F s (o, t)
      → OnRaise F s ((lift o >>= λ a. pure (g a)) t)
  unfolding ◌>>=◌ lift pure
  mapped (ok a) g s t r = tt
  mapped (raised e) g s t r = r

module _ {S A B : Type 0} {F : Frame S} where
  -- A part that always stays within `F`, and one that does so where it raises.
  pub Sparing-bind :
      (m : Exec S A) (f : A → Exec S B)
      → Within F m
      → ((a : A) → Sparing F (f a))
      → Sparing F (m >>= f)
  unfolding ◌>>=◌ sequel lift
  Sparing-bind m f w sf = record { at = λ s. sequel F (m s).0 f s (m s).1 (w.at s) sf }

  -- A result is put together after the last part that may raise.
  pub Sparing-map : (m : Exec S A) (g : A → B) → Sparing F m → Sparing F (m >>= λ a. pure (g a))
  unfolding ◌>>=◌ mapped lift
  Sparing-map m g sm = record { at = λ s. mapped F (m s).0 g s (m s).1 (sm.at s) }

-- What cannot raise.
pub Sparing-modify : {S : Type 0} {F : Frame S} (f : S → S) → Sparing F (modify f)
unfolding modify
Sparing-modify f = record { at = λ s. tt }

pub ruleset sparing_rules = (Sparing-bind, Sparing-map, Sparing-modify)
