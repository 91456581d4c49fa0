-- ===== src/Config/Bounds.antt =====
-- The bounds of a configuration that broker/config.py accepts.
use unixtime_machine.Prelude.{ℕ, ◌≤◌, String, or_else}
use unixtime_machine.Prelude.Dict.{Dict, lookup}
use unixtime_machine.Config.{BrokerConfig, Bound, bound, endless, limit_for}

-- A limit that is a finite number is at least `least`.
abbrev pub AtLeast : ℕ → Bound → Type 0
AtLeast least (bound n) = least ≤ n
AtLeast least endless = Unit

-- Every finite limit is at least one session, and every finite deadline lies in the future.
pub record IsUsable (c : BrokerConfig) : Type 0 where
  pub total : AtLeast 1_000 c.max_total_sessions
  pub per_system : (system : String) → AtLeast 1_000 (limit_for c system)
  pub startup : AtLeast 1 c.startup_timeout
  pub readiness : AtLeast 1 c.readiness_timeout
  pub idle : AtLeast 1 c.idle_timeout
  pub absolute : AtLeast 1 c.absolute_timeout
  pub shutdown : AtLeast 1 c.shutdown_timeout

-- A configured limit, where there is one, is at least one session.
abbrev LimitsHold : Dict Bound → Type 0
LimitsHold limits =
    (system : String) (d : Bound)
    → AtLeast 1_000 d
    → AtLeast 1_000 (or_else (lookup system limits) d)
