-- ===== src/Models/States.antt =====
-- `SessionState`, `TRANSITIONS` and the set `OCCUPYING` of broker/manager.py.
use unixtime_machine.Prelude.{ℕ, ◌==◌, Bool, not, List, [], ◌∷◌, String, any}

pub data SessionState : Type 0 where
  requested allocated preparing starting ready active stopping resetting released failed :
      SessionState

-- `SessionState.value`
abbrev pub value : SessionState → String
value requested = "requested"
value allocated = "allocated"
value preparing = "preparing"
value starting = "starting"
value ready = "ready"
value active = "active"
value stopping = "stopping"
value resetting = "resetting"
value released = "released"
value failed = "failed"

abbrev pub states : List SessionState
states =
    requested ∷ allocated ∷ preparing ∷ starting ∷ ready ∷ active ∷ stopping ∷ resetting ∷ released
    ∷ failed ∷ []

-- The position in the class body, by which members are compared.
abbrev pub rank : SessionState → ℕ
rank requested = 0
rank allocated = 1
rank preparing = 2
rank starting = 3
rank ready = 4
rank active = 5
rank stopping = 6
rank resetting = 7
rank released = 8
rank failed = 9

abbrev pub same_state : SessionState → SessionState → Bool
same_state s t = rank s == rank t

-- `s in {…}`
abbrev pub one_of : SessionState → List SessionState → Bool
one_of s = any (same_state s)

abbrev pub transitions : SessionState → List SessionState
transitions requested = allocated ∷ failed ∷ []
transitions allocated = preparing ∷ failed ∷ []
transitions preparing = starting ∷ failed ∷ []
transitions starting = ready ∷ stopping ∷ failed ∷ []
transitions ready = active ∷ stopping ∷ failed ∷ []
transitions active = ready ∷ stopping ∷ failed ∷ []
transitions stopping = resetting ∷ failed ∷ []
transitions failed = stopping ∷ resetting ∷ []
transitions resetting = released ∷ failed ∷ []
transitions released = []

-- `state in TRANSITIONS[old]`
abbrev pub allowed : SessionState → SessionState → Bool
allowed old state = one_of state (transitions old)

-- A session occupies a slot until it is released, a failed one too.
abbrev pub occupying : SessionState → Bool
occupying s = not (same_state s released)
