-- ===== src/Models/Graph.antt =====
-- The shape of `TRANSITIONS` in broker/models.py, read as a graph.
use unixtime_machine.Prelude.{ℕ, ◌≤◌, ◌≡◌, refl, ◌≢◌, true, arith}
use unixtime_machine.Models.States.{
  SessionState, requested, allocated, preparing, starting, ready, active, stopping, resetting,
  released, failed, allowed,
}
use unixtime_machine.Models.Reachable.{Reach, here, next}

-- How far a session has come; `failed` counts with the states of the teardown.
abbrev pub phase : SessionState → ℕ
phase requested = 0
phase allocated = 1
phase preparing = 2
phase starting = 3
phase ready = 4
phase active = 4
phase stopping = 5
phase resetting = 5
phase failed = 5
phase released = 6

phase_step : (s t : SessionState) → allowed s t ≡ true → phase s ≤ phase t
phase_step s t h = ground arith

-- Along any sequence of permitted transitions the phase never falls: no session is requested,
-- prepared or started again, and none that failed or was stopped is ready or active again.
pub phase_mono : {s t : SessionState} → Reach s t → phase s ≤ phase t
phase_mono here = omega arith
phase_mono (next {t = t} {u = u} r e) = omega (arith, phase_mono r, phase_step t u e)

no_way_out : (t : SessionState) → allowed released t ≡ true → t ≡ released
no_way_out t h = ground arith

-- `released` is final: nothing else is reached from it.
pub released_final : {t : SessionState} → Reach released t → t ≡ released
released_final here = refl
released_final (next {t = t} {u = u} r e) = ground (arith, released_final r, no_way_out u)

only_resetting : (s : SessionState) → allowed s released ≡ true → s ≡ resetting
only_resetting s h = ground arith

-- A way passes through a state: it ends there, or a shorter part of it passes through.
pub data Passes {s : SessionState} (u : SessionState)
    : (t : SessionState) → Reach s t → Type 0 where
  ends : {t : SessionState} {p : Reach s t} → t ≡ u → Passes u t p
  earlier :
      {t w : SessionState} {p : Reach s t} {e : allowed t w ≡ true}
      → Passes u t p
      → Passes u w (next p e)

-- Every sequence of permitted transitions from another state to `released` passes through
-- `resetting`.
pub released_after_resetting :
    {s : SessionState} (p : Reach s released) → s ≢ released → Passes resetting released p
released_after_resetting here ne = absurd (ne refl)
released_after_resetting (next {t = t} p e) ne = earlier (ends (only_resetting t e))

after_failure : {s : SessionState} → Reach s failed → Reach s released
after_failure r = next (next {u = resetting} r refl) refl

via_failure : (s : SessionState) → allowed s failed ≡ true → Reach s released
via_failure s e = after_failure (next here e)

-- From every state there is a way to `released`, so no state is a dead end.
pub releasable : (s : SessionState) → Reach s released
releasable failed = after_failure here
releasable resetting = next here refl
releasable released = here
releasable requested = via_failure requested refl
releasable allocated = via_failure allocated refl
releasable preparing = via_failure preparing refl
releasable starting = via_failure starting refl
releasable ready = via_failure ready refl
releasable active = via_failure active refl
releasable stopping = via_failure stopping refl
