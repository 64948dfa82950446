-- ===== src/Gateway/Commands/Effect.antt =====
-- What `EdgeGateway._on_command` (gateway.py) does at a unit on the Modbus.
use centralized_hvac_system.Prelude.{
  ℕ, ◌+◌, String, ◌≡◌, refl, true, false, some, [], ◌∷◌, ◌++◌, arith, ◌<>◌,
}
use centralized_hvac_system.Prelude.Result.{ok}
use centralized_hvac_system.Float.{Float}
use centralized_hvac_system.Dict.{Dict, lookup, lookup-insert_self}
use centralized_hvac_system.Control.Value.{Value, text, to_float, is_text}
use centralized_hvac_system.Gateway.Adapter.{Adapter, modbus, set_temperature, switch}
use centralized_hvac_system.Gateway.Modbus.{
  Bus, ModbusAdapter, ensure_connected, write_on_off_to, write_setpoint_to,
}
use centralized_hvac_system.Gateway.Buffer.{payload_text}
use centralized_hvac_system.Gateway.Link.{Packet, publish}
use centralized_hvac_system.Gateway.Commands.{
  EdgeGateway, Response, take_setpoint, take_status, obey, response, on_command,
}

module _ {F : Type 0} ⦃fl : Float F⦄ where
  -- Where the bus is not there, a command is obeyed by doing nothing.
  obey_unreached :
      (cmd : Dict (Value F)) (bus : Bus F) (a : ModbusAdapter) (v : Value F) (x : F)
      (status : String)
      → a.connected ≡ false
      → ((n : ℕ) → bus.connects n ≡ false)
      → lookup "target_temp" cmd ≡ some v
      → to_float v ≡ ok x
      → lookup "status" cmd ≡ some (text status)
      → obey cmd (modbus bus a)
        ≡ (ok tt, modbus bus (record a { connected = false; requests = a.requests + 1 + 1 }))
  unfolding obey take_setpoint take_status set_temperature switch write_setpoint_to write_on_off_to
      ensure_connected is_text
  obey_unreached cmd bus a v x status down gone asked reads set =
      ground (arith, gone a.requests, gone (a.requests + 1))

module _ {F : Type 0} ⦃fl : Float F⦄ (dumps : Response F → String) where
  -- The response of a connected gateway.
  abbrev pub applied : F → String → Dict (Value F) → Packet
  applied now u cmd = record {
    topic = "ac/unit/" <> u <> "/response";
    payload = dumps (record {
      unit_id = u;
      correlation_id = lookup "correlation_id" cmd;
      status = "APPLIED";
      ts = now;
    });
    qos = 1;
    retain = false;
  }

  -- An adapter that obeys is kept, and the command is answered.
  on_command_lem :
      (now : F) (u : String) (cmd : Dict (Value F)) (g : EdgeGateway F) (a a' : Adapter F)
      → lookup u g.adapters ≡ some a
      → obey cmd a ≡ (ok tt, a')
      → g.link.connected ≡ true
      → let (done, g') = on_command dumps now u cmd g in
        (done ≡ ok tt)
        × (lookup u g'.adapters ≡ some a')
        × (g'.link.sent ≡ g.link.sent ++ applied now u cmd ∷ [])
  unfolding on_command publish payload_text response
  on_command_lem now u cmd g a a' known obeyed up =
      (ground arith, ground (arith, lookup-insert_self u a' g.adapters), ground arith)

  -- A command with a temperature that can be read and a status, to a unit whose Modbus adapter is
  -- not connected and finds no connection, writes no register, and a connected gateway answers that
  -- it was applied all the same.
  pub on_command_unreached :
      (now : F) (u : String) (cmd : Dict (Value F)) (g : EdgeGateway F) (bus : Bus F)
      (a : ModbusAdapter) (v : Value F) (x : F) (status : String)
      → lookup u g.adapters ≡ some (modbus bus a)
      → a.connected ≡ false
      → ((n : ℕ) → bus.connects n ≡ false)
      → lookup "target_temp" cmd ≡ some v
      → to_float v ≡ ok x
      → lookup "status" cmd ≡ some (text status)
      → g.link.connected ≡ true
      → let (done, g') = on_command dumps now u cmd g in
        (done ≡ ok tt)
        × ((a' : ModbusAdapter) × (lookup u g'.adapters ≡ some (modbus bus a'))
            × (a'.writes ≡ a.writes))
        × (g'.link.sent ≡ g.link.sent ++ applied now u cmd ∷ [])
  on_command_unreached now u cmd g bus a v x status known down gone asked reads set online =
      let (done, kept, sent) =
        on_command_lem now u cmd g (modbus bus a) _ known
          (obey_unreached cmd bus a v x status down gone asked reads set) online in
      (done, (record a { connected = false; requests = a.requests + 1 + 1 }, kept, refl), sent)
