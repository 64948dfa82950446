-- ===== src/Control/Service.antt =====
-- The state of the control service and what it takes from outside: the readings of the clock, the
-- identifiers of uuid4, the serialiser, and Redis.
use centralized_hvac_system.Prelude.{ℕ, ◌+◌, String, List, [], ◌∷◌, ◌++◌, Bool, ◌<>◌}
use centralized_hvac_system.Dict.{Dict}
use centralized_hvac_system.Models.{ControlCommand}
use centralized_hvac_system.Control.Value.{Value}
use centralized_hvac_system.Control.Rules.{RuleEngine}

-- What the service publishes: a command to a unit's topic, or an alert with the rule's mapping.
pub data Message (F : Type 0) : Type 0 where
  command : (topic : String) (cmd : ControlCommand F) (issued_at : F) (override : Bool) → Message F
  alert : (unit_id : String) (entries : Dict (Value F)) (rule_id : String) (ts : F) → Message F

-- The n-th reading of the clock and the n-th identifier.
pub record Env (F : Type 0) : Type 0 where
  pub clock : ℕ → F
  pub uuid : ℕ → String
  pub dumps : Message F → String

-- `scheduled` holds the publications that were handed to `create_task`.
pub record Service (F R : Type 0) : Type 0 where
  pub engine : RuleEngine F
  pub zone_cooldowns : Dict F
  pub redis : R
  pub outbox : List (Message F)
  pub scheduled : List (Message F)
  pub readings : ℕ
  pub identifiers : ℕ

-- `settings.TOPIC_COMMAND.format(unit_id=unit_id)`
unfoldable pub command_topic : String → String
command_topic unit_id = "ac/unit/" <> unit_id <> "/command"

module _ {F R : Type 0} (env : Env F) where
  -- `datetime.now(timezone.utc)`
  abbrev pub read_clock : Service F R → F × Service F R
  read_clock s = (env.clock s.readings, record s { readings = s.readings + 1 })

  -- `str(uuid.uuid4())`
  abbrev pub new_id : Service F R → String × Service F R
  new_id s = (env.uuid s.identifiers, record s { identifiers = s.identifiers + 1 })

  abbrev pub publish : Message F → Service F R → Service F R
  publish m s = record s { outbox = s.outbox ++ m ∷ [] }
