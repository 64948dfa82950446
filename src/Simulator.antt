-- ===== src/Simulator.antt =====
-- The fleet simulator (simulate.py): the thermal model of a unit, its telemetry, its heartbeat, the
-- commands that it obeys, and the fleet that is built.
pub mod Fleet
pub mod Bounds
use centralized_hvac_system.Prelude.{
  ℕ, String, Bool, true, false, not, ◌&&◌, Option, none, some, List, [], ◌∷◌, ◌++◌, ◌==◌,
  if◌then◌else◌, ◌<>◌,
}
use centralized_hvac_system.Prelude.Int.{ℤ, pos}
use centralized_hvac_system.Prelude.Result.{Result, ok, raised, Exec, and_then}
use centralized_hvac_system.Float.{Float}
use centralized_hvac_system.Dict.{Dict, lookup}
use centralized_hvac_system.Models.{TelemetryPayload}
use centralized_hvac_system.Control.Value.{Value, to_float, is_text}
use centralized_hvac_system.Control.Optimizer.{min_of, max_of}
use centralized_hvac_system.Gateway.Adapter.{clamp}
use centralized_hvac_system.Gateway.Commands.{Response}

-- `fault` says that the unit is in fault, `is_on` that it is on.
pub record ThermalState (F : Type 0) : Type 0 where
  pub unit_id : String
  pub zone_id : String
  pub temperature : F
  pub humidity : F
  pub setpoint : F
  pub is_on : Bool
  pub fault : Bool
  pub pid_integral : F
  pub pid_prev_err : F
  pub base_load : F
  pub power_base_w : F
  pub ambient_temp : F
  pub thermal_mass : F
  pub cooling_coeff : F

-- The draws of `random` of one turn of the telemetry loop, each of which is used by one branch.
pub record Noise (F : Type 0) : Type 0 where
  pub fault_temp : F
  pub temp : F
  pub humidity : F
  pub fault_load : F
  pub load : F
  pub standby_power : F
  pub efficiency : F
  pub power : F
  pub pressure : F
  pub evap : F
  pub condenser : F

module _ {F : Type 0} ⦃fl : Float F⦄ where
  abbrev zero_float : F
  zero_float = fl.dec 0 0

  -- `-20`
  abbrev pub minus_twenty : F
  minus_twenty = fl.sub (fl.dec 0 0) (fl.dec 20 0)

  -- `(ambient - temperature) * rate * dt`
  abbrev toward_ambient : F → F → ThermalState F → F
  toward_ambient rate dt s = fl.mul (fl.mul (fl.sub s.ambient_temp s.temperature) rate) dt

  unfoldable pub next_integral : F → ThermalState F → F
  unfolding clamp
  next_integral dt s =
      clamp minus_twenty (fl.dec 20 0)
        (fl.add s.pid_integral (fl.mul (fl.sub s.setpoint s.temperature) dt))

  -- The controller's output.
  unfoldable pub pid_out : F → ThermalState F → F
  unfolding next_integral
  pid_out dt s =
      let error = fl.sub s.setpoint s.temperature in
      let derivative = fl.div (fl.sub error s.pid_prev_err) dt in
      fl.add (fl.add (fl.mul (fl.dec 15 1) error) (fl.mul (fl.dec 3 1) (next_integral dt s)))
        (fl.mul (fl.dec 1 1) derivative)

  -- The last part of `step`, for a unit that is on and not in fault.
  unfoldable pub regulate : F → Noise F → ThermalState F → ThermalState F
  unfolding pid_out next_integral clamp max_of
  regulate dt r s =
      let cooling = fl.mul (fl.mul (max_of zero_float (pid_out dt s)) s.cooling_coeff) dt in
      let drift = toward_ambient (fl.dec 15 3) dt s in
      record s {
        pid_integral = next_integral dt s;
        pid_prev_err = fl.sub s.setpoint s.temperature;
        temperature =
            clamp (fl.dec 15 0) (fl.dec 50 0)
              (fl.add (fl.sub (fl.add s.temperature drift) (fl.mul cooling s.thermal_mass)) r.temp);
        humidity = clamp (fl.dec 20 0) (fl.dec 95 0) (fl.add s.humidity r.humidity);
      }

  -- `step`, for a `dt` other than 0, by which it divides
  unfoldable pub step : F → Noise F → ThermalState F → ThermalState F
  step dt r s =
      if s.fault
      then record s {
        temperature = fl.add (fl.add s.temperature (toward_ambient (fl.dec 3 2) dt s)) r.fault_temp;
      }
      else if not s.is_on
      then record s { temperature = fl.add s.temperature (toward_ambient (fl.dec 2 2) dt s) }
      else regulate dt r s

  -- `compute_load`
  unfoldable pub compute_load : Noise F → ThermalState F → F
  unfolding clamp max_of
  compute_load r s =
      let temp_diff = max_of zero_float (fl.sub s.temperature s.setpoint) in
      let load = fl.add (fl.add s.base_load (fl.mul temp_diff (fl.dec 8 0))) r.load in
      if s.fault
      then r.fault_load
      else if not s.is_on
      then zero_float
      else clamp zero_float (fl.dec 100 0) load

  -- `compute_power`
  unfoldable pub compute_power : F → Noise F → ThermalState F → F
  compute_power load r s =
      let efficiency = if not s.fault then fl.dec 1 0 else r.efficiency in
      if not s.is_on
      then r.standby_power
      else fl.add (fl.mul (fl.mul s.power_base_w (fl.div load (fl.dec 100 0))) efficiency) r.power

  -- One turn of `_telemetry_loop`, at the time `now`: the reading that is published.
  unfoldable pub telemetry_turn :
      F → F → Noise F → ThermalState F → TelemetryPayload F × ThermalState F
  unfolding step compute_load compute_power max_of
  telemetry_turn dt now r s =
      let s' = step dt r s in
      let load = compute_load r s' in
      let power = compute_power load r s' in
      (
        record {
          unit_id = s'.unit_id;
          timestamp = now;
          temperature = fl.round_to s'.temperature 2;
          humidity = fl.round_to s'.humidity 1;
          pressure = some (fl.round_to r.pressure 1);
          load = fl.round_to load 1;
          power_w = fl.round_to (max_of zero_float power) 1;
          compressor_rpm = some (
              if s'.is_on
              then fl.round_to (fl.add (fl.mul load (fl.dec 30 0)) (fl.dec 500 0)) 0
              else zero_float);
          evap_temp = some (fl.round_to (fl.add (fl.sub s'.setpoint (fl.dec 5 0)) r.evap) 1);
          condenser_temp =
              some (fl.round_to (fl.add (fl.add s'.ambient_temp (fl.dec 8 0)) r.condenser) 1);
          error_codes = if s'.fault then pos 42 ∷ [] else [];
        },
        s',
      )

  -- `if "target_temp" in cmd`
  unfoldable pub obey_setpoint : Option (Value F) → Exec (ThermalState F) Unit
  unfolding to_float
  obey_setpoint none s = (ok tt, s)
  obey_setpoint (some v) s = and_then (to_float v, s) λ t s. (ok tt, record s { setpoint = t })

  -- `if "status" in cmd`
  unfoldable pub obey_status : Option (Value F) → ThermalState F → ThermalState F
  unfolding is_text
  obey_status none s = s
  obey_status (some v) s = record s {
    is_on = is_text (some v) "ON";
    fault = if is_text (some v) "OFF" then false else s.fault;
  }

  -- `_on_message` for a JSON object: the answer that is published
  unfoldable pub on_message : F → Dict (Value F) → Exec (ThermalState F) (Response F)
  unfolding obey_setpoint obey_status
  on_message now cmd s = and_then (obey_setpoint (lookup "target_temp" cmd) s) λ _ s. (
    ok (record {
      unit_id = s.unit_id;
      correlation_id = lookup "correlation_id" cmd;
      status = "APPLIED";
      ts = now;
    }),
    obey_status (lookup "status" cmd) s,
  )

  -- One turn of `_fault_loop`, with the draws of `random.random()`.
  unfoldable pub fault_turn : F → F → F → F → ThermalState F → ThermalState F
  fault_turn fault_rate recovery_rate inject recover s =
      if not s.fault && fl.lt inject fault_rate
      then record s { fault = true }
      else if s.fault && fl.lt recover recovery_rate
      then record s { fault = false }
      else s

-- One turn of `_heartbeat_loop`.
pub record Heartbeat (F : Type 0) : Type 0 where
  pub unit_id : String
  pub timestamp : F
  pub uptime_s : ℕ
  pub fw_version : String
  pub local_mode : Bool
  pub fault : Bool

unfoldable pub heartbeat : {F : Type 0} → F → ℕ → ThermalState F → Heartbeat F
heartbeat now uptime s = record {
  unit_id = s.unit_id;
  timestamp = now;
  uptime_s = uptime;
  fw_version = "sim-1.0.0";
  local_mode = false;
  fault = s.fault;
}
