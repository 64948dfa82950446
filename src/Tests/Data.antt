-- ===== src/Tests/Data.antt =====
-- The data that the runs share: an environment, a service and some rules.
use centralized_hvac_system.Prelude.{ℕ, ◌+◌, ◌*◌, String, none, some, [], ◌∷◌}
use centralized_hvac_system.Prelude.Int.{pos}
use centralized_hvac_system.Float.{Micro, micro, micro_float}
use centralized_hvac_system.Redis.{Store, fresh_store}
use centralized_hvac_system.Models.{ControlCommand}
use centralized_hvac_system.Control.Value.{text, num, Twin}
use centralized_hvac_system.Control.Actions.{default_rules}
use centralized_hvac_system.Control.Service.{Env, Service}

abbrev pub whole : ℕ → Micro
whole n = micro (pos (n * 1000000))

abbrev pub env : Env Micro
env = record { clock = λ n. whole (1000 + n); uuid = λ n. "c1"; dumps = λ m. "{}" }

abbrev pub at_start : Service Micro Store
at_start = record {
  engine = record { rules = default_rules; cooldowns = [] };
  zone_cooldowns = [];
  redis = fresh_store;
  outbox = [];
  scheduled = [];
  readings = 0;
  identifiers = 0;
}

-- A twin with its identifier, its status and its readings as Redis returns them.
abbrev pub stored : String → String → String → String → Twin Micro
stored unit_id status temp load =
    ("unit_id", text unit_id)
    ∷ ("zone_id", text "z1")
    ∷ ("status", text status)
    ∷ ("current_temp", text temp)
    ∷ ("load_percentage", text load)
    ∷ []

-- A twin whose load is a number.
abbrev pub measured : String → String → ℕ → Twin Micro
measured unit_id status load =
    ("unit_id", text unit_id) ∷ ("status", text status) ∷ ("load_percentage", num (whole load)) ∷ []

abbrev pub switch : String → ControlCommand Micro
switch unit_id = record {
  unit_id = unit_id;
  status = none;
  target_temp = some (whole 22);
  fan_speed = none;
  issued_by = "api";
  correlation_id = some "c2";
}
