-- ===== src/Gateway/Modbus.antt =====
-- The Modbus adapter of the edge gateway on its bus (gateway.py, `ModbusAdapter`).
use centralized_hvac_system.Prelude.{
  ℕ, ◌+◌, String, Bool, true, false, Option, none, some, List, [], ◌∷◌, ◌++◌, if◌then◌else◌,
}
use centralized_hvac_system.Prelude.Int.{ℤ, pos}
use centralized_hvac_system.Prelude.Result.{Result, ok, Exec, and_then}
use centralized_hvac_system.Float.{Float}
use centralized_hvac_system.Gateway.Telemetry.{RawTelemetry}

abbrev pub reg_setpoint : ℕ
reg_setpoint = 16

abbrev pub reg_on_off : ℕ
reg_on_off = 18

-- What `read_holding_registers` comes to: an error answer, an exception, or the registers.
pub data Reply : Type 0 where
  error_reply failed : Reply
  registers : List ℕ → Reply

-- What pymodbus and `int` answer: whether the n-th request finds a connection, whether it goes
-- through if it is a write, and the whole part of a float, which a NaN has not.
pub record Bus (F : Type 0) : Type 0 where
  pub connects : ℕ → Bool
  pub accepts : ℕ → Result (Unit {0})
  pub truncated : F → Result ℤ

-- `requests` counts the connects and the writes that were tried, `writes` lists the register writes
-- that went through.
pub record ModbusAdapter : Type 0 where
  pub uid : String
  pub connected : Bool
  pub requests : ℕ
  pub writes : List (ℕ × ℤ)

module _ {F : Type 0} where
  -- `_ensure_connected`
  unfoldable pub ensure_connected : Bus F → ModbusAdapter → Bool × ModbusAdapter
  ensure_connected bus m =
      let there = bus.connects m.requests in
      if m.connected
      then (true, m)
      else (there, record m { connected = there; requests = m.requests + 1 })

  -- `self._client.write_register`
  unfoldable pub write_register : Bus F → ℕ → ℤ → Exec ModbusAdapter Unit
  write_register bus register v m =
      and_then (bus.accepts m.requests, record m { requests = m.requests + 1 })
        λ _ m. (ok tt, record m { writes = m.writes ++ (register, v) ∷ [] })

module _ {F : Type 0} ⦃fl : Float F⦄ where
  -- What `poll` makes of the answer: four registers are a reading, and fewer raise IndexError.
  unfoldable pub take_reply : Reply → ModbusAdapter → Option (RawTelemetry F) × ModbusAdapter
  take_reply error_reply m = (none, m)
  take_reply failed m = (none, record m { connected = false })
  take_reply (registers (a ∷ b ∷ c ∷ d ∷ more)) m = (
    some (record {
      unit_id = m.uid;
      temperature = fl.mul (fl.of_int (pos a)) (fl.dec 1 1);
      humidity = fl.mul (fl.of_int (pos b)) (fl.dec 1 1);
      load = fl.mul (fl.of_int (pos c)) (fl.dec 1 1);
      power_w = fl.mul (fl.of_int (pos d)) (fl.dec 1 0);
      pressure = none;
      compressor_rpm = none;
      error_codes = [];
    }),
    m,
  )
  take_reply (registers few) m = (none, record m { connected = false })

  -- `poll`, where the bus answers that
  unfoldable pub poll_modbus :
      Bus F → Reply → ModbusAdapter → Option (RawTelemetry F) × ModbusAdapter
  unfolding ensure_connected take_reply
  poll_modbus bus reply m =
      let (there, m') = ensure_connected bus m in if there then take_reply reply m' else (none, m')

  -- `write_setpoint`: nothing where the bus is not there; the value is in tenths, cut off
  unfoldable pub write_setpoint_to : Bus F → F → Exec ModbusAdapter Unit
  unfolding ensure_connected write_register
  write_setpoint_to bus temp m =
      let (there, m') = ensure_connected bus m in
      if there
      then and_then (bus.truncated (fl.div temp (fl.dec 1 1)), m') (write_register bus reg_setpoint)
      else (ok tt, m')

  -- `write_on_off`
  unfoldable pub write_on_off_to : Bus F → Bool → Exec ModbusAdapter Unit
  unfolding ensure_connected write_register
  write_on_off_to bus is_on m =
      let (there, m') = ensure_connected bus m in
      if there then write_register bus reg_on_off (pos (if is_on then 1 else 0)) m' else (ok tt, m')
