-- ===== src/Tests/Loop.antt =====
-- The control loop on a hot unit.
use centralized_hvac_system.Prelude.{◌≤◌, ◌≡◌, refl, false, [], ◌∷◌, arith, length}
use centralized_hvac_system.Float.{Micro, micro_float}
use centralized_hvac_system.Dict.{Dict, values}
use centralized_hvac_system.Redis.{Store, store_redis, Store-IsRedis}
use centralized_hvac_system.Control.Value.{Twin, text}
use centralized_hvac_system.Control.Service.{Service, command, command_topic}
use centralized_hvac_system.Control.Dispatcher.{dispatch}
use centralized_hvac_system.Control.Loop.{Hash, process_unit, balance_zones, group_by_zone}
use centralized_hvac_system.Control.Loop.Round.{process_unit_one_command, process_unit_limited}
use centralized_hvac_system.Control.Loop.Zones.{IsWhole, round_never_balances}
use centralized_hvac_system.Control.Loop.Emergency.{shutdown, hot_unit_shut_down}
use centralized_hvac_system.Control.Actions.Overheat.{Readings}
use centralized_hvac_system.Tests.Data.{whole, env, at_start, stored, switch}

abbrev hot_twin : Twin Micro
hot_twin = stored "u1" "ON" "36.0" "95.0"

process_unit_one_command_example : length (process_unit env "u1" hot_twin at_start).1.outbox ≤ 1
process_unit_one_command_example = process_unit_one_command Store-IsRedis env "u1" hot_twin at_start

abbrev commanded : Service Micro Store
commanded = (dispatch env (switch "u1") at_start).1

hot_twin-Readings : Readings hot_twin (whole 36)
unfolding centralized_hvac_system.Dict.lookup centralized_hvac_system.Control.Value.to_float
hot_twin-Readings = record {
  temp_value = text "36.0";
  load_value = text "95.0";
  load = whole 95;
  temp_there = refl;
  load_there = refl;
  temp_reads = refl;
  load_reads = refl;
}

hot_unit_shut_down_example :
    (process_unit env "u1" hot_twin at_start).1.outbox
    ≡ command (command_topic "u1") (shutdown "u1" "c1") (whole 1001) false ∷ []
unfolding centralized_hvac_system.Control.Value.is_text centralized_hvac_system.Dict.lookup
    centralized_hvac_system.Control.Rules.cooling
hot_unit_shut_down_example =
    hot_unit_shut_down Store-IsRedis env "u1" hot_twin (whole 36) at_start hot_twin-Readings refl
      refl refl refl refl

abbrev hashes : Dict Hash
hashes =
    ("u1", ("unit_id", "u1") ∷ ("status", "ON") ∷ ("load_percentage", "95.0") ∷ [])
    ∷ ("u2", ("unit_id", "u2") ∷ ("status", "STANDBY") ∷ ("load_percentage", "0.0") ∷ [])
    ∷ []

u1-IsWhole : IsWhole (("unit_id", "u1") ∷ ("status", "ON") ∷ ("load_percentage", "95.0") ∷ [])
unfolding centralized_hvac_system.Dict.lookup
u1-IsWhole = record { status = "ON"; load = "95.0"; status_there = refl; load_there = refl }

u2-IsWhole : IsWhole (("unit_id", "u2") ∷ ("status", "STANDBY") ∷ ("load_percentage", "0.0") ∷ [])
unfolding centralized_hvac_system.Dict.lookup
u2-IsWhole = record { status = "STANDBY"; load = "0.0"; status_there = refl; load_there = refl }

round_never_balances_example :
    ((balance_zones env (group_by_zone hashes) at_start).1.outbox ≡ [])
    × ((balance_zones env (group_by_zone hashes) at_start).1.redis ≡ [])
unfolding values
round_never_balances_example =
    round_never_balances env hashes at_start (u1-IsWhole, (u2-IsWhole, tt))

process_unit_limited_example : length (process_unit env "u1" hot_twin commanded).1.outbox ≤ 1
unfolding centralized_hvac_system.Dict.lookup dispatch
    centralized_hvac_system.Control.Dispatcher.send centralized_hvac_system.Dict.insert
    centralized_hvac_system.Control.Dispatcher.rate_key
    centralized_hvac_system.Control.Dispatcher.ack_key
process_unit_limited_example =
    process_unit_limited Store-IsRedis env "u1" hot_twin commanded (omega arith)
