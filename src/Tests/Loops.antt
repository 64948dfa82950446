-- ===== src/Tests/Loops.antt =====
-- A gateway with three units, one of them switched off, polls while the broker is away.
use centralized_hvac_system.Prelude.{
  ◌≡◌, refl, map, String, true, false, Option, none, some, [], ◌∷◌, arith, ◌==◌, if◌then◌else◌,
}
use centralized_hvac_system.Float.{Micro, micro_float}
use centralized_hvac_system.Dict.{Dict}
use centralized_hvac_system.Gateway.Adapter.{RawTelemetry, Adapter, modbus}
use centralized_hvac_system.Gateway.Buffer.{new_buffer}
use centralized_hvac_system.Gateway.Buffer.Fifo.{IsWell}
use centralized_hvac_system.Gateway.Link.{packet, MqttManager}
use centralized_hvac_system.Gateway.Loops.{UnitConfig, EdgeLoops, Reading, poll_turn}
use centralized_hvac_system.Gateway.Loops.Away.{poll_turn_buffers}
use centralized_hvac_system.Tests.Data.{whole}
use centralized_hvac_system.Tests.LocalRules.{local_overheat, line, idle_unit}

abbrev unit : String → UnitConfig
unit i = record { unit_id = i; protocol = "modbus"; enabled = true }

abbrev polls : String → Adapter Micro → Option (RawTelemetry Micro) × Adapter Micro
polls i a = (
  if i == "u3"
      then none
      else some (record {
        unit_id = i;
        temperature = whole 39;
        humidity = whole 50;
        load = whole 60;
        power_w = whole 900;
        pressure = none;
        compressor_rpm = none;
        error_codes = [];
      }),
  a,
)

abbrev edge : EdgeLoops Micro
edge = record {
  gateway = record {
    adapters =
        ("u1", modbus line idle_unit)
        ∷ ("u2", modbus line idle_unit)
        ∷ ("u3", modbus line idle_unit)
        ∷ [];
    link = record {
      connected = false;
      reconnect_delay = whole 1;
      buffer = new_buffer;
      sent = [];
      subscriptions = [];
      slept = [];
      replays = 0;
    };
  };
  units = unit "u1" ∷ record (unit "u2") { enabled = false } ∷ unit "u3" ∷ [];
  rules = local_overheat ∷ [];
  cooldowns = [];
  latest = [];
  last_action = [];
}

abbrev write_reading : Reading Micro → String
write_reading r = r.telemetry.unit_id

abbrev told : MqttManager Micro
told = (poll_turn polls write_reading (whole 1000) edge).1.gateway.link

poll_turn_buffers_example :
    IsWell told.buffer
    × (told.sent ≡ [])
    × (map packet told.buffer.rows
        ≡ record { topic = "ac/unit/u1/telemetry"; payload = "u1"; qos = 1; retain = false } ∷ [])
unfolding centralized_hvac_system.Gateway.Loops.Away.distinct poll_turn
    centralized_hvac_system.Dict.lookup centralized_hvac_system.Gateway.Rules.local_evaluate
    centralized_hvac_system.Gateway.Rules.local_cooling
    centralized_hvac_system.Gateway.Rules.local_checks
    centralized_hvac_system.Gateway.Rules.local_conclude
    centralized_hvac_system.Gateway.Rules.local_operator
    centralized_hvac_system.Gateway.Rules.apply_actions
    centralized_hvac_system.Gateway.Rules.apply_action centralized_hvac_system.Dict.insert
    centralized_hvac_system.Gateway.Loops.Away.reports
    centralized_hvac_system.Gateway.Buffer.payload_text
    centralized_hvac_system.Gateway.Adapter.switch
    centralized_hvac_system.Gateway.Modbus.write_on_off_to
    centralized_hvac_system.Gateway.Balancer.balance centralized_hvac_system.Dict.values
poll_turn_buffers_example =
    poll_turn_buffers polls write_reading (whole 1000) edge refl refl (omega arith, omega arith)
      refl (omega arith)
