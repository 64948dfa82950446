-- ===== src/Gateway/Commands.antt =====
-- What the edge gateway does on a command (gateway.py, `EdgeGateway._on_command`).
pub mod Effect
use centralized_hvac_system.Prelude.{
  ℕ, String, Bool, true, false, Option, none, some, List, [], ◌∷◌, ◌++◌, ◌==◌, if◌then◌else◌, ◌<>◌,
}
use centralized_hvac_system.Prelude.Result.{Result, ok, raised, Exec, and_then, ◌>>=◌}
use centralized_hvac_system.Float.{Float}
use centralized_hvac_system.Dict.{Dict, lookup, insert}
use centralized_hvac_system.Control.Value.{Value, text, to_float, is_text}
use centralized_hvac_system.Gateway.Adapter.{Adapter, set_temperature, switch}
use centralized_hvac_system.Gateway.Buffer.{Body, entries}
use centralized_hvac_system.Gateway.Link.{MqttManager, publish}

-- The response that a command is answered with.
pub record Response (F : Type 0) : Type 0 where
  pub unit_id : String
  pub correlation_id : Option (Value F)
  pub status : String
  pub ts : F

pub record EdgeGateway (F : Type 0) : Type 0 where
  pub adapters : Dict (Adapter F)
  pub link : MqttManager F

module _ {F : Type 0} ⦃fl : Float F⦄ where
  -- `if "target_temp" in cmd`: a mock adapter sets its setpoint, a Modbus adapter writes it
  unfoldable pub take_setpoint : Option (Value F) → Exec (Adapter F) Unit
  unfolding to_float
  take_setpoint none a = (ok tt, a)
  take_setpoint (some v) a = and_then (to_float v, a) set_temperature

  -- `if "status" in cmd and hasattr(adapter, "write_on_off")`
  unfoldable pub take_status : Option (Value F) → Exec (Adapter F) Unit
  unfolding is_text
  take_status none a = (ok tt, a)
  take_status (some v) a = switch (is_text (some v) "ON") a

  unfoldable pub response : F → String → Dict (Value F) → Response F
  response now unit_id cmd = record {
    unit_id = unit_id;
    correlation_id = lookup "correlation_id" cmd;
    status = "APPLIED";
    ts = now;
  }

  -- What a known unit's adapter makes of a command.
  unfoldable pub obey : Dict (Value F) → Exec (Adapter F) Unit
  unfolding take_setpoint take_status
  obey cmd a =
      and_then (take_setpoint (lookup "target_temp" cmd) a) λ _. take_status (lookup "status" cmd)

  -- `_on_command`, at the time `now`
  unfoldable pub on_command :
      (Response F → String) → F → String → Dict (Value F) → Exec (EdgeGateway F) Unit
  unfolding response obey
  on_command dumps now unit_id cmd g = elim (lookup unit_id g.adapters) [
    | none ↦ (ok tt, g)
    | some a ↦
        let (done, a') = obey cmd a in
        and_then (done, record g { adapters = insert unit_id a' g.adapters })
          λ _ g'.
            let (given, link') =
              publish dumps now ("ac/unit/" <> unit_id <> "/response")
                (entries (response now unit_id cmd)) 1 false g'.link in
            (ok tt, record g' { link = link' })
  ]
