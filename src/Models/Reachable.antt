-- ===== src/Models/Reachable.antt =====
-- Reachability along `TRANSITIONS`, which persisted states and the supervisor's steps are held to.
use unixtime_machine.Prelude.{◌≡◌, true}
use unixtime_machine.Models.States.{SessionState, allowed}

pub data Reach (s : SessionState) : SessionState → Type 0 where
  here : Reach s s
  next : {t u : SessionState} → Reach s t → allowed t u ≡ true → Reach s u

pub Reach-trans : {s t u : SessionState} → Reach s t → Reach t u → Reach s u
Reach-trans p here = p
Reach-trans p (next q e) = next (Reach-trans p q) e
