-- ===== src/Broker/Release/Steps.antt =====
-- What the steps of `release` of broker/manager.py do to the workspaces, with one rule for each way to
-- build an action.
use unixtime_machine.Prelude.{
  ◌≡◌, refl, ◌∙◌, Bool, true, false, not, List, [], ◌∷◌, Option, some, String,
}
use unixtime_machine.Errors.{Error, is_storage_failure}
use unixtime_machine.Exec.{Exec, Outcome, ok, raised, raise_if, gets, lift, pure, ◌>>=◌}
use unixtime_machine.Models.{SessionState, SessionRecord, allowed}
use unixtime_machine.Host.{Host, Detail, state_text}
use unixtime_machine.Store.{transition, take_write, write_state, commit, append, save, audit}

abbrev pub Post : {A : Type 0} → (A → Type 0) → Outcome A → Type 0
Post Q (ok a) = Q a
Post Q (raised e) = Unit

-- `m` leaves the workspaces alone, and what it returns satisfies `Q`.
pub record Step {A : Type 0} (m : Exec Host A) (Q : A → Type 0) : Type 0 where
  pub at : (h : Host) → ((m h).1.workspaces ≡ h.workspaces) × Post Q (m h).0

abbrev pub Spared : {A : Type 0} → Host → Outcome A × Host → Type 0
Spared h (ok a, h') = Unit
Spared h (raised e, h') = is_storage_failure e ≡ false → h'.workspaces ≡ h.workspaces

-- If `m` raises anything but a failed write of a record or of the audit log, the workspaces are as
-- before.
pub record Sparing {A : Type 0} (m : Exec Host A) : Type 0 where
  pub at : (h : Host) → Spared h (m h)

abbrev pub Any : {A : Type 0} → A → Type 0
Any _ = Unit

module _ {A : Type 0} where
  spared_of : (h h' : Host) (o : Outcome A) → h'.workspaces ≡ h.workspaces → Spared h (o, h')
  spared_of h h' (ok a) e = tt
  spared_of h h' (raised x) e = λ _. e

  pub Sparing-Step : {Q : A → Type 0} (m : Exec Host A) → Step m Q → Sparing m
  Sparing-Step m s = record { at = λ h. spared_of h (m h).1 (m h).0 (s.at h).0 }

  unconstrained : (o : Outcome A) → Post Any o
  unconstrained (ok a) = tt
  unconstrained (raised e) = tt

  pub Step-same : (m : Exec Host A) → ((h : Host) → (m h).1.workspaces ≡ h.workspaces) → Step m Any
  Step-same m e = record { at = λ h. (e h, unconstrained (m h).0) }

later :
    {B : Type 0} (h t : Host) (x : Outcome B × Host)
    → t.workspaces ≡ h.workspaces
    → Spared t x
    → Spared h x
later h t (ok b, u) e s = tt
later h t (raised x, u) e s = λ n. s n ∙ e

module _ {A B : Type 0} where
  joined_runs :
      {Q : A → Type 0} (o : Outcome A) (f : A → Exec Host B) (h t : Host)
      → t.workspaces ≡ h.workspaces
      → Post Q o
      → ((a : A) → Q a → Sparing (f a))
      → Spared h ((lift o >>= f) t)
  unfolding ◌>>=◌ lift
  joined_runs (ok a) f h t e q sf = later h t (f a t) e ((sf a q).at t)
  joined_runs (raised x) f h t e q sf = λ _. e

  pub Sparing-bind :
      {Q : A → Type 0} (m : Exec Host A) (f : A → Exec Host B)
      → Step m Q
      → ((a : A) → Q a → Sparing (f a))
      → Sparing (m >>= f)
  unfolding ◌>>=◌ joined_runs lift
  Sparing-bind m f s sf = record {
    at = λ h. joined_runs (m h).0 f h (m h).1 (s.at h).0 (s.at h).1 sf;
  }

abbrev pub InState : SessionState → SessionRecord → Type 0
InState state r = r.state ≡ state

chained :
    {A B : Type 0} {Q : A → Type 0} {R : B → Type 0} (o : Outcome A) (f : A → Exec Host B)
    (h t : Host)
    → t.workspaces ≡ h.workspaces
    → Post Q o
    → ((a : A) → Q a → Step (f a) R)
    → (((lift o >>= f) t).1.workspaces ≡ h.workspaces) × Post R ((lift o >>= f) t).0
unfolding ◌>>=◌ lift
chained (ok a) f h t e q sf = (((sf a q).at t).0 ∙ e, ((sf a q).at t).1)
chained (raised x) f h t e q sf = (e, tt)

pub Step-bind :
    {A B : Type 0} {Q : A → Type 0} {R : B → Type 0} (m : Exec Host A) (f : A → Exec Host B)
    → Step m Q
    → ((a : A) → Q a → Step (f a) R)
    → Step (m >>= f) R
unfolding ◌>>=◌ chained lift
Step-bind m f s sf = record { at = λ h. chained (m h).0 f h (m h).1 (s.at h).0 (s.at h).1 sf }

pub raise_if-Step : (b : Bool) (e : Error) → Step (raise_if {S = Host} b e) Any
unfolding raise_if
raise_if-Step true e = record { at = λ h. (refl, tt) }
raise_if-Step false e = record { at = λ h. (refl, tt) }

write_state-Step : Step write_state Any
unfolding write_state
write_state-Step = Step-same _ (λ h. taken h h.write_faults)
  where
    taken : (h : Host) (faults : List Bool) → (take_write faults h).1.workspaces ≡ h.workspaces
    taken h [] = refl
    taken h (false ∷ rest) = refl
    taken h (true ∷ rest) = refl

save-Step :
    (r : SessionRecord) (state : SessionState) → r.state ≡ state → Step (save r) (InState state)
unfolding save commit
save-Step r state e =
    Step-bind write_state (λ _. commit r) write_state-Step λ _ _. record { at = λ h. (refl, e) }

audit-Step :
    (event : String) (r : Option SessionRecord) (detail : Detail) → Step (audit event r detail) Any
unfolding audit append
audit-Step event r detail = Step-bind write_state _ write_state-Step λ _ _. Step-same _ (λ h. refl)

pub transition-Step :
    (r : SessionRecord) (state : SessionState) (event : String) (detail : Detail)
    → Step (transition r state event detail) (InState state)
unfolding transition pure
transition-Step r state event detail =
    Step-bind (raise_if _ _) _ (raise_if-Step (not (allowed r.state state)) _) λ _ _.
      Step-bind (save (record r { state = state })) _
        (save-Step (record r { state = state }) state refl)
        λ saved e.
          Step-bind (audit event (some saved) moves) _ (audit-Step event (some saved) moves)
            λ _ _. record { at = λ h. (refl, e) }
  where
    moves : Detail
    moves = ("from", state_text r.state) ∷ ("to", state_text state) ∷ detail

pub gets-Step : {A : Type 0} (f : Host → A) → Step (gets f) Any
unfolding gets
gets-Step f = Step-same (gets f) (λ h. refl)

pub lift-Step : {A : Type 0} (o : Outcome A) → Step (lift {S = Host} o) Any
unfolding lift
lift-Step o = Step-same (lift o) (λ h. refl)
