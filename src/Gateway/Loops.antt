-- ===== src/Gateway/Loops.antt =====
-- The loops of the edge gateway (gateway.py, `EdgeGateway`): its adapters, the turn of the polling
-- loop, and the turn of the heartbeat loop.
pub mod Away
use centralized_hvac_system.Prelude.{
  ℕ, String, Bool, false, not, Option, none, some, List, [], ◌∷◌, ◌==◌, ◌<>◌, if◌then◌else◌,
}
use centralized_hvac_system.Prelude.Result.{Result, ok, raised, key_error, Exec, and_then}
use centralized_hvac_system.Float.{Float}
use centralized_hvac_system.Dict.{Dict, lookup, insert, values}
use centralized_hvac_system.Gateway.Adapter.{RawTelemetry, MockAdapter, Adapter, mock, modbus}
use centralized_hvac_system.Gateway.Modbus.{Bus}
use centralized_hvac_system.Gateway.Balancer.{balance}
use centralized_hvac_system.Gateway.Buffer.{entries, size}
use centralized_hvac_system.Gateway.Commands.{EdgeGateway}
use centralized_hvac_system.Gateway.Link.{publish}
use centralized_hvac_system.Gateway.Rules.{LocalRule, local_evaluate}

-- The settings of a unit that the loops read.
pub record UnitConfig : Type 0 where
  pub unit_id : String
  pub protocol : String
  pub enabled : Bool

-- The gateway with its rules and their cooldowns, the latest reading of each unit, and the last
-- actions of the load balancer.
pub record EdgeLoops (F : Type 0) : Type 0 where
  pub gateway : EdgeGateway F
  pub units : List UnitConfig
  pub rules : List (LocalRule F)
  pub cooldowns : Dict F
  pub latest : Dict (RawTelemetry F)
  pub last_action : Dict F

-- A published reading with its time, and a heartbeat.
pub record Reading (F : Type 0) : Type 0 where
  pub telemetry : RawTelemetry F
  pub timestamp : F

pub record EdgeHeartbeat (F : Type 0) : Type 0 where
  pub unit_id : String
  pub timestamp : F
  pub uptime_s : ℕ
  pub local_mode : Bool
  pub buffer_size : ℕ

module _ {F : Type 0} where
  -- The adapters of the constructor; `fresh` is the mock adapter with its random start,
  -- `buses` what the Modbus clients reach.
  unfoldable pub build_adapters :
      (String → MockAdapter F) → (String → Bus F) → List UnitConfig → Dict (Adapter F)
  build_adapters fresh buses [] = []
  build_adapters fresh buses (u ∷ us) =
      (
        u.unit_id,
        if u.protocol == "modbus"
            then modbus (buses u.unit_id)
                (record { uid = u.unit_id; connected = false; requests = 0; writes = [] })
            else mock (fresh u.unit_id),
      )
      ∷ build_adapters fresh buses us

  -- `self._mqtt.publish` of the gateway
  unfoldable pub send_from :
      {P : Type 0} → (P → String) → F → String → P → EdgeLoops F → EdgeLoops F
  send_from dumps now topic payload s =
      let (given, link') = publish dumps now topic (entries payload) 1 false s.gateway.link in
      record s { gateway = record s.gateway { link = link' } }

  -- `self._adapters[unit_id]`
  unfoldable pub adapter_at : Option (Adapter F) → Result (Adapter F)
  adapter_at none = raised key_error
  adapter_at (some a) = ok a

  unfoldable pub put_adapter : String → Adapter F → EdgeLoops F → EdgeLoops F
  put_adapter unit_id a s = record s {
    gateway = record s.gateway { adapters = insert unit_id a s.gateway.adapters };
  }

module _ {F : Type 0} ⦃fl : Float F⦄ where
  -- The local rules on a reading: adapter and cooldowns stay as a raise left them.
  unfoldable pub run_rules : F → String → RawTelemetry F → Adapter F → Exec (EdgeLoops F) Unit
  unfolding put_adapter
  run_rules now unit_id t a s =
      let (done, state) = local_evaluate now t s.rules (s.cooldowns, a) in
      (done, put_adapter unit_id state.1 (record s { cooldowns = state.0 }))

  -- What follows a poll: no reading ends the turn of the unit.
  unfoldable pub take_poll :
      (Reading F → String)
      → F
      → String
      → Option (RawTelemetry F)
      → Adapter F
      → Exec (EdgeLoops F) Unit
  unfolding run_rules send_from
  take_poll dumps now unit_id none a s = (ok tt, put_adapter unit_id a s)
  take_poll dumps now unit_id (some t) a s =
      and_then (run_rules now unit_id t a (record s { latest = insert unit_id t s.latest })) λ _ s.
        (
          ok tt,
          send_from dumps now ("ac/unit/" <> unit_id <> "/telemetry")
              (record { telemetry = t; timestamp = now }) s,
        )

  -- The turn of one unit, where `polls` is what polling the adapter of a unit comes to.
  unfoldable pub poll_unit :
      (String → Adapter F → Option (RawTelemetry F) × Adapter F)
      → (Reading F → String)
      → F
      → UnitConfig
      → Exec (EdgeLoops F) Unit
  unfolding take_poll adapter_at
  poll_unit polls dumps now unit s =
      if not unit.enabled
      then (ok tt, s)
      else and_then (adapter_at (lookup unit.unit_id s.gateway.adapters), s)
          λ a s.
            take_poll dumps now unit.unit_id (polls unit.unit_id a).0 (polls unit.unit_id a).1 s

  unfoldable pub poll_units :
      (String → Adapter F → Option (RawTelemetry F) × Adapter F)
      → (Reading F → String)
      → F
      → List UnitConfig
      → Exec (EdgeLoops F) Unit
  unfolding poll_unit
  poll_units polls dumps now [] s = (ok tt, s)
  poll_units polls dumps now (u ∷ us) s =
      and_then (poll_unit polls dumps now u s) λ _ s. poll_units polls dumps now us s

  -- One turn of `_poll_loop`, at the time `now`: an exception ends the loop, and the gateway with it.
  unfoldable pub poll_turn :
      (String → Adapter F → Option (RawTelemetry F) × Adapter F)
      → (Reading F → String)
      → F
      → Exec (EdgeLoops F) Unit
  unfolding poll_units
  poll_turn polls dumps now s = and_then (poll_units polls dumps now s.units s) λ _ s.
      let (done, state) = balance now (values s.latest) (s.last_action, s.gateway.adapters) in
      (done, record s { last_action = state.0; gateway = record s.gateway { adapters = state.1 } })

module _ {F : Type 0} where
  -- The loop of one turn of `_heartbeat_loop`, at the time `now`.
  unfoldable pub heartbeats :
      (EdgeHeartbeat F → String) → F → ℕ → List UnitConfig → EdgeLoops F → EdgeLoops F
  unfolding send_from size
  heartbeats dumps now uptime [] s = s
  heartbeats dumps now uptime (u ∷ us) s = heartbeats dumps now uptime us (
      send_from dumps now ("ac/unit/" <> u.unit_id <> "/heartbeat")
        (record {
          unit_id = u.unit_id;
          timestamp = now;
          uptime_s = uptime;
          local_mode = not s.gateway.link.connected;
          buffer_size = size s.gateway.link.buffer;
        })
        s)
