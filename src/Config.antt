-- ===== src/Config.antt =====
-- broker/config.py: the limits and deadlines of the broker. They are compared with numbers of
-- sessions and with times in milliseconds, so that a limit stands here in thousandths, rounded up.
pub mod Bounds
use unixtime_machine.Prelude.{
  ℕ, ◌+◌, ◌*◌, Bool, true, false, not, any, List, [], ◌∷◌, Option, none, some, String, or_else,
  str_eq, ltb, leb, if◌then◌else◌,
}
use unixtime_machine.Prelude.Int.{ℤ, pos, negsuc}
use unixtime_machine.Prelude.Dict.{Dict, lookup}
use unixtime_machine.Errors.{
  Error, unreadable_json, unknown_config_keys, below_one, not_positive, bad_system_limit,
  mistyped_config,
}
use unixtime_machine.Outcome.{Outcome, ok, raised, ◌>>=◌, ◌>>◌, refuse_if}

-- A float: in thousandths, rounded down, with whether a rest was cut off; or what `json.loads` makes of
-- `Infinity`, `-Infinity` and `NaN`.
pub data Number : Type 0 where
  finite : ℤ → Bool → Number
  infinite minus_infinite nan : Number

-- A value of the file; `true` and `false` are Python integers. In a mapping the values that are no
-- integer are `none`.
pub data ConfigValue : Type 0 where
  int : ℤ → ConfigValue
  float : Number → ConfigValue
  mapping : Dict (Option ℤ) → ConfigValue
  other : ConfigValue

-- A limit, in thousandths; `x >= limit` never holds of infinity and of NaN.
pub data Bound : Type 0 where
  bound : ℕ → Bound
  endless : Bound

-- `x >= limit`
abbrev pub is_reached : Bound → ℕ → Bool
is_reached (bound n) x = leb n x
is_reached endless x = false

-- `start + limit`
abbrev pub after : ℕ → Bound → Bound
after start (bound n) = bound (start + n)
after start endless = endless

pub data ConfigFile : Type 0 where
  absent : ConfigFile
  unreadable : ConfigFile
  keys : Dict ConfigValue → ConfigFile

pub record BrokerConfig : Type 0 where
  pub max_total_sessions : Bound
  pub max_sessions_per_system : Bound
  pub startup_timeout : Bound
  pub readiness_timeout : Bound
  pub idle_timeout : Bound
  pub absolute_timeout : Bound
  pub shutdown_timeout : Bound
  pub system_limits : Dict Bound

abbrev pub defaults : BrokerConfig
defaults = record {
  max_total_sessions = bound 4_000;
  max_sessions_per_system = bound 2_000;
  startup_timeout = bound 10_000;
  readiness_timeout = bound 120_000;
  idle_timeout = bound 1_800_000;
  absolute_timeout = bound 7_200_000;
  shutdown_timeout = bound 10_000;
  system_limits = [];
}

abbrev allowed_keys : List String
allowed_keys =
    "max_total_sessions" ∷ "max_sessions_per_system" ∷ "startup_timeout" ∷ "readiness_timeout"
    ∷ "idle_timeout" ∷ "absolute_timeout" ∷ "shutdown_timeout" ∷ "system_limits" ∷ []

abbrev is_unknown : String × ConfigValue → Bool
is_unknown (key, _) = not (any (str_eq key) allowed_keys)

-- The value as a number; comparing anything else with a number is a `TypeError`.
number_of : ConfigValue → Outcome Number
number_of (int (pos n)) = ok (finite (pos (n * 1000)) false)
number_of (int (negsuc n)) = ok (finite (negsuc (n * 1000 + 999)) false)
number_of (float x) = ok x
number_of (mapping _) = raised mistyped_config
number_of other = raised mistyped_config

abbrev pub rounded_up : ℕ → Bool → ℕ
rounded_up n false = n
rounded_up n true = n + 1

-- `getattr(config, name) < 1`
unfoldable pub at_least_one : Error → Number → Outcome Bound
at_least_one e (finite (pos n) rest) =
    if ltb n 1000 then raised e else ok (bound (rounded_up n rest))
at_least_one e (finite (negsuc _) _) = raised e
at_least_one e infinite = ok endless
at_least_one e minus_infinite = raised e
at_least_one e nan = ok endless

-- `getattr(config, name) <= 0`
unfoldable pub above_zero : Error → Number → Outcome Bound
above_zero e (finite (pos n) rest) =
    if ltb (rounded_up n rest) 1 then raised e else ok (bound (rounded_up n rest))
above_zero e (finite (negsuc _) _) = raised e
above_zero e infinite = ok endless
above_zero e minus_infinite = raised e
above_zero e nan = ok endless

abbrev pub value_of : Bound → ConfigValue
value_of (bound n) = float (finite (pos n) false)
value_of endless = float infinite

setting : String → Bound → Dict ConfigValue → Outcome Number
unfolding number_of
setting key default file = number_of (or_else (lookup key file) (value_of default))

count_setting : String → Bound → Dict ConfigValue → Outcome Bound
unfolding setting at_least_one
count_setting key default file = do
  value ← setting key default file
  at_least_one (below_one key) value

timeout_setting : String → Bound → Dict ConfigValue → Outcome Bound
unfolding setting above_zero
timeout_setting key default file = do
  value ← setting key default file
  above_zero (not_positive key) value

-- `not isinstance(limit, int) or limit < 1`
abbrev positive_limit : Option ℤ → Outcome Bound
positive_limit (some (pos n)) = if ltb n 1 then raised bad_system_limit else ok (bound (n * 1000))
positive_limit (some (negsuc _)) = raised bad_system_limit
positive_limit none = raised bad_system_limit

limits_from : Dict (Option ℤ) → Outcome (Dict Bound)
limits_from [] = ok []
limits_from ((system, value) ∷ rest) = do
  limit ← positive_limit value
  further ← limits_from rest
  ok ((system, limit) ∷ further)

-- `config.system_limits.values()` needs a mapping.
limits_setting : ConfigValue → Outcome (Dict Bound)
unfolding limits_from
limits_setting (mapping limits) = limits_from limits
limits_setting (int _) = raised mistyped_config
limits_setting (float _) = raised mistyped_config
limits_setting other = raised mistyped_config

-- The checks, in the order of the source.
checked : Dict ConfigValue → Outcome BrokerConfig
unfolding count_setting timeout_setting limits_setting
checked file = do
  refuse_if (any is_unknown file) unknown_config_keys
  total ← count_setting "max_total_sessions" defaults.max_total_sessions file
  per_system ← count_setting "max_sessions_per_system" defaults.max_sessions_per_system file
  startup ← timeout_setting "startup_timeout" defaults.startup_timeout file
  readiness ← timeout_setting "readiness_timeout" defaults.readiness_timeout file
  idle ← timeout_setting "idle_timeout" defaults.idle_timeout file
  absolute ← timeout_setting "absolute_timeout" defaults.absolute_timeout file
  shutdown ← timeout_setting "shutdown_timeout" defaults.shutdown_timeout file
  limits ← limits_setting (or_else (lookup "system_limits" file) (mapping []))
  ok (record {
    max_total_sessions = total;
    max_sessions_per_system = per_system;
    startup_timeout = startup;
    readiness_timeout = readiness;
    idle_timeout = idle;
    absolute_timeout = absolute;
    shutdown_timeout = shutdown;
    system_limits = limits;
  })

-- `BrokerConfig.load`
unfoldable pub load : ConfigFile → Outcome BrokerConfig
unfolding checked
load absent = ok defaults
load unreadable = raised (unreadable_json "broker-config.json")
load (keys file) = checked file

-- `BrokerConfig.limit_for`
unfoldable pub limit_for : BrokerConfig → String → Bound
limit_for config system_id =
    or_else (lookup system_id config.system_limits) config.max_sessions_per_system
