-- ===== src/Tests/LocalRules.antt =====
-- A local emergency rule on a Modbus unit.
use centralized_hvac_system.Prelude.{
  ℕ, zero, suc, ◌+◌, ◌/◌, List, ◌≡◌, refl, true, false, none, some, [], ◌∷◌, or_else,
}
use centralized_hvac_system.Prelude.Result.{ok}
use centralized_hvac_system.Float.{Micro, micro, micro_float}
use centralized_hvac_system.Dict.{Dict, lookup}
use centralized_hvac_system.Control.Value.{flag}
use centralized_hvac_system.Gateway.Adapter.{RawTelemetry, Adapter, modbus}
use centralized_hvac_system.Gateway.Modbus.{Bus, ModbusAdapter}
use centralized_hvac_system.Prelude.Int.{ℤ, pos, negsuc}
use centralized_hvac_system.Gateway.Rules.{LocalRule, local_visit, local_checks}
use centralized_hvac_system.Gateway.Rules.Once.{Turn, turns, local_visit_once}
use centralized_hvac_system.Tests.Data.{whole}

abbrev pub local_overheat : LocalRule Micro
local_overheat = record {
  id = "local-overheat";
  enabled = none;
  conditions = some (record { field = "temperature"; operator = "gte"; value = whole 38 } ∷ []);
  logic = none;
  actions = some (record { kind = some "set_on_off"; value = some (flag false) } ∷ []);
  cooldown_s = some (whole 300);
}

abbrev at : ℕ → RawTelemetry Micro
at temp = record {
  unit_id = "u1";
  temperature = whole temp;
  humidity = whole 50;
  load = whole 60;
  power_w = whole 900;
  pressure = none;
  compressor_rpm = none;
  error_codes = [];
}

abbrev negative : ℕ → ℤ
negative zero = pos 0
negative (suc n) = negsuc n

-- `int` of a decimal.
abbrev whole_part : Micro → ℤ
whole_part (micro (pos n)) = pos (n / 1000000)
whole_part (micro (negsuc n)) = negative ((n + 1) / 1000000)

-- A bus that is there and takes every write.
abbrev pub line : Bus Micro
line = record { connects = λ n. true; accepts = λ n. ok tt; truncated = λ x. ok (whole_part x) }

abbrev pub idle_unit : ModbusAdapter
idle_unit = record { uid = "u1"; connected = true; requests = 0; writes = [] }

abbrev before : Dict Micro × Adapter Micro
before = ([], modbus line idle_unit)

conditions_hold : local_checks (at 39) (or_else local_overheat.conditions []) ≡ ok (true ∷ [])
unfolding local_checks centralized_hvac_system.Gateway.Rules.local_operator
conditions_hold = refl

-- The unit is switched off.
local_shutdown :
    (local_visit (whole 1000) (at 39) local_overheat before).1.1
    ≡ modbus line (record idle_unit { requests = 1; writes = (18, pos 0) ∷ [] })
unfolding local_visit centralized_hvac_system.Gateway.Rules.local_cooling lookup local_checks
    centralized_hvac_system.Gateway.Rules.local_conclude
    centralized_hvac_system.Gateway.Rules.local_operator
    centralized_hvac_system.Gateway.Rules.apply_actions
    centralized_hvac_system.Gateway.Rules.apply_action
    centralized_hvac_system.Gateway.Adapter.switch
    centralized_hvac_system.Gateway.Modbus.write_on_off_to
local_shutdown = refl

-- A second rule fires on the same unit in between.
abbrev local_check : LocalRule Micro
local_check = record local_overheat { id = "local-check" }

abbrev in_between : List (Turn Micro)
in_between =
    record { now = whole 1100; telemetry = at 41; rule = local_check; adapter = before.1 } ∷ []

local_visit_once_example :
    let c = turns in_between (local_visit (whole 1000) (at 39) local_overheat before).1.0 in
    local_visit (whole 1200) (at 40) local_overheat (c, before.1) ≡ (ok tt, (c, before.1))
unfolding centralized_hvac_system.Gateway.Rules.local_cooling lookup
    centralized_hvac_system.Control.Rules.fires centralized_hvac_system.Gateway.Rules.local_key
local_visit_once_example =
    local_visit_once (whole 1000) (whole 1200) (at 39) (at 40) local_overheat before (true ∷ [])
      in_between before.1 refl refl conditions_hold refl refl refl (refl, tt)
