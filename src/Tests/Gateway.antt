-- ===== src/Tests/Gateway.antt =====
-- The edge gateway: a link that was away, mock units and an overloaded zone.
use centralized_hvac_system.Prelude.{
  ℕ, ◌+◌, ◌++◌, ◌≡◌, refl, true, false, String, none, some, List, [], ◌∷◌, arith, Among, map,
}
use centralized_hvac_system.Float.{Micro, micro_float, Micro-IsOrdered}
use centralized_hvac_system.Dict.{Dict, lookup, insert}
use centralized_hvac_system.Control.Value.{Value, text}
use centralized_hvac_system.Gateway.Adapter.{MockAdapter, RawTelemetry, Draws, Adapter, modbus}
use centralized_hvac_system.Gateway.Adapter.Range.{InRange, polls, polls-InRange}
use centralized_hvac_system.Gateway.Balancer.{balance}
use centralized_hvac_system.Gateway.Balancer.Idlest.{IsLeast, balance-IsLeast}
use centralized_hvac_system.Gateway.Buffer.{raw, OfflineBuffer, new_buffer, push, pop_batch}
use centralized_hvac_system.Gateway.Buffer.Fifo.{IsWell, push-IsWell, pop_batch_lem}
use centralized_hvac_system.Gateway.Link.{MqttManager, packet}
use centralized_hvac_system.Gateway.Link.Backoff.{
  Signal, connect, disconnect, signals, IsBounded, signals-IsBounded,
}
use centralized_hvac_system.Gateway.Link.Stranded.{
  Happening, message, link_signal, happen_all, happen_all_lem,
}
use centralized_hvac_system.Gateway.Modbus.{Bus, ModbusAdapter}
use centralized_hvac_system.Prelude.Int.{pos}
use centralized_hvac_system.Prelude.Result.{ok}
use centralized_hvac_system.Gateway.Commands.{EdgeGateway, Response, on_command}
use centralized_hvac_system.Gateway.Commands.Effect.{applied, on_command_unreached}
use centralized_hvac_system.Tests.Data.{whole}
use centralized_hvac_system.Tests.LocalRules.{line, idle_unit}
use centralized_hvac_system.Tests.Optimizer.{Micro-RoundsHalves}

abbrev away : MqttManager Micro
away = record {
  connected = false;
  reconnect_delay = whole 1;
  buffer = new_buffer;
  sent = [];
  subscriptions = [];
  slept = [];
  replays = 0;
}

abbrev write_text : String → String
write_text s = s

new_buffer-IsWell : IsWell {F = Micro} new_buffer
new_buffer-IsWell = (omega arith, omega arith)

-- Two messages are published while the link is down, and one after it came back.
abbrev day : List (Happening Micro String)
day =
    message (record { now = whole 1; topic = "a"; payload = raw "1"; qos = 1; retain = false })
    ∷ link_signal (connect 5)
    ∷ message (record { now = whole 2; topic = "b"; payload = raw "2"; qos = 1; retain = false })
    ∷ link_signal (connect 0)
    ∷ message (record { now = whole 3; topic = "c"; payload = raw "3"; qos = 1; retain = false })
    ∷ []

happen_all_lem_example :
    let m = happen_all write_text false ("u1" ∷ []) (whole 60) day away in
    (m.sent ≡ record { topic = "c"; payload = "3"; qos = 1; retain = false } ∷ [])
    × (map packet m.buffer.rows
        ≡ record { topic = "a"; payload = "1"; qos = 1; retain = false }
          ∷ record { topic = "b"; payload = "2"; qos = 1; retain = false }
          ∷ [])
    × (m.replays ≡ 0)
unfolding centralized_hvac_system.Gateway.Buffer.payload_text
happen_all_lem_example =
    happen_all_lem write_text false ("u1" ∷ []) (whole 60) day away new_buffer-IsWell (omega arith)

push-IsWell_example : IsWell (push write_text (whole 1) "a" (raw "1") 1 false new_buffer)
push-IsWell_example =
    push-IsWell write_text (whole 1) "a" (raw "1") 1 false new_buffer new_buffer-IsWell

abbrev one_row : OfflineBuffer Micro
one_row = record {
  rows =
      record { id = 4; topic = "a"; payload = "1"; qos = 1; retain = false; created = whole 1 }
      ∷ [];
  next_id = 5;
}

one_row-IsWell : IsWell one_row
one_row-IsWell = ((omega arith, omega arith), omega arith)

pop_batch_lem_example : pop_batch 50 one_row ≡ (one_row.rows, record one_row { rows = [] })
pop_batch_lem_example = pop_batch_lem 50 one_row one_row-IsWell

-- The broker refuses twice, and drops the link in between and after.
abbrev trouble : List Signal
trouble = disconnect 7 ∷ connect 5 ∷ disconnect 7 ∷ connect 0 ∷ disconnect 7 ∷ []

signals-IsBounded_example : IsBounded (whole 60) (signals false ("u1" ∷ []) (whole 60) trouble away)
signals-IsBounded_example =
    signals-IsBounded Micro-IsOrdered Micro-RoundsHalves false ("u1" ∷ []) (whole 60) trouble away
      refl (refl, tt)

abbrev unit : MockAdapter Micro
unit = record { uid = "u1"; temp = whole 39; setpoint = whole 22; load = whole 99 }

abbrev noise : Draws Micro
noise = record {
  temp_noise = whole 9;
  load_noise = whole 3;
  power_noise = whole 1;
  humidity = whole 50;
  pressure = whole 1013;
}

polls-InRange_example : InRange (polls (noise ∷ noise ∷ []) unit)
polls-InRange_example =
    polls-InRange Micro-IsOrdered (noise ∷ noise ∷ []) unit (refl, refl, refl, refl)

abbrev reading : String → ℕ → RawTelemetry Micro
reading u load = record {
  unit_id = u;
  temperature = whole 24;
  humidity = whole 50;
  load = whole load;
  power_w = whole 900;
  pressure = none;
  compressor_rpm = none;
  error_codes = [];
}

abbrev others : List (RawTelemetry Micro)
others = reading "u2" 40 ∷ reading "u3" 95 ∷ reading "u4" 91 ∷ []

abbrev adapters : Dict (Adapter Micro)
adapters =
    ("u1", modbus line idle_unit)
    ∷ ("u2", modbus line idle_unit)
    ∷ ("u3", modbus line idle_unit)
    ∷ ("u4", modbus line idle_unit)
    ∷ []

balance-IsLeast_example :
    (m : RawTelemetry Micro) × (bus : Bus Micro) × (a : ModbusAdapter) × Among m
      (reading "u1" 92 ∷ others)
    × IsLeast m (reading "u1" 92 ∷ others)
    × (lookup m.unit_id adapters ≡ some (modbus bus a))
    × (balance (whole 1000) (reading "u1" 92 ∷ others) ([], adapters) ≡ (
      ok tt,
      (
        insert "default" (whole 1000) [],
        insert m.unit_id
            (modbus bus
              (record a { requests = a.requests + 1; writes = a.writes ++ (18, pos 1) ∷ [] }))
            adapters,
      ),
    ))
unfolding centralized_hvac_system.Gateway.Balancer.resting lookup
balance-IsLeast_example =
    balance-IsLeast Micro-IsOrdered (whole 1000) (reading "u1" 92) others [] adapters
      (refl, (refl, (refl, (refl, tt)))) refl (omega arith)
      (
        (line, idle_unit, refl, refl, refl),
        (
          (line, idle_unit, refl, refl, refl),
          ((line, idle_unit, refl, refl, refl), ((line, idle_unit, refl, refl, refl), tt)),
        ),
      )

abbrev gateway : EdgeGateway Micro
gateway = record { adapters = adapters; link = record away { connected = true } }

abbrev cool_down : Dict (Value Micro)
cool_down = ("target_temp", text "24.0") ∷ ("status", text "ON") ∷ []

abbrev answer : Response Micro → String
answer r = r.status

-- A bus that is not there.
abbrev cut_line : Bus Micro
cut_line = record line { connects = λ n. false }

abbrev cut_off : EdgeGateway Micro
cut_off = record gateway {
  adapters = ("u1", modbus cut_line (record idle_unit { connected = false })) ∷ [];
}

on_command_unreached_example :
    let (done, g') = on_command answer (whole 5) "u1" cool_down cut_off in
    (done ≡ ok tt)
    × ((a' : ModbusAdapter) × (lookup "u1" g'.adapters ≡ some (modbus cut_line a'))
        × (a'.writes ≡ []))
    × (g'.link.sent ≡ applied answer (whole 5) "u1" cool_down ∷ [])
unfolding lookup centralized_hvac_system.Control.Value.to_float
on_command_unreached_example =
    on_command_unreached answer (whole 5) "u1" cool_down cut_off cut_line
      (record idle_unit { connected = false }) (text "24.0") (whole 24) "ON" refl refl (λ n. refl)
      refl refl refl refl
