-- ===== src/Broker/Release/Writes.antt =====
-- How the last step of `release` of broker/manager.py may fail.
use unixtime_machine.Prelude.{◌≡◌, refl, Bool, true, false, List, [], ◌∷◌, Option, String}
use unixtime_machine.Errors.{Error, is_storage_failure}
use unixtime_machine.Exec.{Exec, Outcome, ok, raised, raise_if, lift, ◌>>=◌}
use unixtime_machine.Models.{SessionRecord}
use unixtime_machine.Host.{Host, Detail}
use unixtime_machine.Store.{take_write, write_state, commit, append, save, audit}
use unixtime_machine.Broker.Release.Steps.{Spared}

abbrev pub OnlyStorage : {A : Type 0} → Outcome A → Type 0
OnlyStorage (ok a) = Unit
OnlyStorage (raised e) = is_storage_failure e ≡ true

-- `m` raises nothing but a failed write.
pub record Storing {A : Type 0} (m : Exec Host A) : Type 0 where
  pub at : (h : Host) → OnlyStorage (m h).0

module _ {A B : Type 0} where
  stored_runs :
      (o : Outcome A) (f : A → Exec Host B) (t : Host)
      → OnlyStorage o
      → ((a : A) → Storing (f a))
      → OnlyStorage ((lift o >>= f) t).0
  unfolding ◌>>=◌ lift
  stored_runs (ok a) f t q sf = (sf a).at t
  stored_runs (raised e) f t q sf = q

  pub Storing-bind :
      (m : Exec Host A) (f : A → Exec Host B)
      → Storing m
      → ((a : A) → Storing (f a))
      → Storing (m >>= f)
  unfolding ◌>>=◌ stored_runs lift
  Storing-bind m f s sf = record { at = λ h. stored_runs (m h).0 f (m h).1 (s.at h) sf }

write_state-Storing : Storing write_state
unfolding write_state
write_state-Storing = record { at = λ h. taken h h.write_faults }
  where
    taken : (h : Host) (faults : List Bool) → OnlyStorage (take_write faults h).0
    taken h [] = tt
    taken h (false ∷ rest) = tt
    taken h (true ∷ rest) = refl

pub save-Storing : (r : SessionRecord) → Storing (save r)
unfolding save commit
save-Storing r =
    Storing-bind write_state (λ _. commit r) write_state-Storing λ _. record { at = λ h. tt }

pub audit-Storing :
    (event : String) (r : Option SessionRecord) (detail : Detail) → Storing (audit event r detail)
unfolding audit append
audit-Storing event r detail =
    Storing-bind write_state _ write_state-Storing λ _. record { at = λ h. tt }

-- A permitted transition raises nothing but a failed write.
pub permitted-Storing :
    (b : Bool) (e : Error) (m : Exec Host SessionRecord)
    → b ≡ false
    → Storing m
    → Storing (raise_if b e >>= λ _. m)
unfolding raise_if ◌>>=◌
permitted-Storing true e m p s = absurd (cc)
permitted-Storing false e m p s = record { at = s.at }

pub spared_storing : {A : Type 0} (h : Host) (x : Outcome A × Host) → OnlyStorage x.0 → Spared h x
spared_storing h (ok a, t) q = tt
spared_storing h (raised e, t) q = λ n. absurd (cc)
