-- ===== src/Gateway/Adapter.antt =====
-- The adapters of the edge gateway (gateway.py): `RawTelemetry`, `MockAdapter`, and the calls that
-- either kind of adapter takes.
pub mod Range
use centralized_hvac_system.Prelude.{
  ℕ, String, Bool, true, false, Option, none, some, List, [], ◌∷◌, ◌++◌, if◌then◌else◌,
}
use centralized_hvac_system.Prelude.Int.{ℤ}
use centralized_hvac_system.Prelude.Result.{Result, ok, Exec}
use centralized_hvac_system.Float.{Float}
pub use centralized_hvac_system.Gateway.Telemetry.{RawTelemetry}
use centralized_hvac_system.Gateway.Modbus.{Bus, ModbusAdapter, write_setpoint_to, write_on_off_to}
use centralized_hvac_system.Control.Optimizer.{min_of, max_of}

-- The draws of `random` that one poll takes.
pub record Draws (F : Type 0) : Type 0 where
  pub temp_noise : F
  pub load_noise : F
  pub power_noise : F
  pub humidity : F
  pub pressure : F

pub record MockAdapter (F : Type 0) : Type 0 where
  pub uid : String
  pub temp : F
  pub setpoint : F
  pub load : F

-- A mock adapter has `set_setpoint`; a Modbus adapter has `write_setpoint` and `write_on_off`, and
-- its client, which answers as its bus does.
pub data Adapter (F : Type 0) : Type 0 where
  mock : MockAdapter F → Adapter F
  modbus : Bus F → ModbusAdapter → Adapter F

-- What a call of the Modbus adapter leaves.
abbrev pub on_bus :
    {F : Type 0} → Bus F → Result (Unit {0}) × ModbusAdapter → Result (Unit {0}) × Adapter F
on_bus bus (done, m) = (done, modbus bus m)

module _ {F : Type 0} ⦃fl : Float F⦄ where
  -- `max(lo, min(hi, x))`
  unfoldable pub clamp : F → F → F → F
  unfolding min_of max_of
  clamp lo hi x = max_of lo (min_of hi x)

  -- The temperature of the next poll, before it is rounded for the reading.
  unfoldable pub next_temp : F → MockAdapter F → F
  unfolding clamp
  next_temp noise m =
      let ambient = fl.dec 28 0 in
      let cooling =
        fl.mul (fl.mul (fl.sub m.temp m.setpoint) (fl.dec 1 1)) (fl.div m.load (fl.dec 100 0)) in
      let drift = fl.mul (fl.sub ambient m.temp) (fl.dec 2 2) in
      clamp (fl.dec 15 0) (fl.dec 40 0) (fl.add (fl.sub (fl.add m.temp drift) cooling) noise)

  unfoldable pub next_load : F → MockAdapter F → F
  unfolding clamp
  next_load noise m = clamp (fl.dec 0 0) (fl.dec 100 0) (fl.add m.load noise)

  -- `MockAdapter.poll`
  unfoldable pub poll : Draws F → MockAdapter F → RawTelemetry F × MockAdapter F
  unfolding next_temp next_load
  poll d m =
      let temp = next_temp d.temp_noise m in
      let load = next_load d.load_noise m in
      let power_w = fl.add (fl.mul load (fl.dec 25 0)) d.power_noise in
      (
        record {
          unit_id = m.uid;
          temperature = fl.round_to temp 2;
          humidity = fl.round_to d.humidity 1;
          load = fl.round_to load 1;
          power_w = fl.round_to (max_of (fl.dec 0 0) power_w) 1;
          pressure = some (fl.round_to d.pressure 1);
          compressor_rpm = some (fl.round_to (fl.add (fl.mul load (fl.dec 30 0)) (fl.dec 500 0)) 0);
          error_codes = [];
        },
        record m { temp = temp; load = load },
      )

  -- `set_setpoint` or `write_setpoint`, whichever the adapter has
  unfoldable pub set_temperature : F → Exec (Adapter F) Unit
  set_temperature t (mock m) = (ok tt, mock (record m { setpoint = t }))
  set_temperature t (modbus bus m) = on_bus bus (write_setpoint_to bus t m)

  -- `write_on_off`, if the adapter has it
  unfoldable pub switch : Bool → Exec (Adapter F) Unit
  switch is_on (mock m) = (ok tt, mock m)
  switch is_on (modbus bus m) = on_bus bus (write_on_off_to bus is_on m)
