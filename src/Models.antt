-- ===== src/Models.antt =====
-- The shared schemas (models.py): the enumerations, the command and its validation, the telemetry
-- reading and its validation.
use centralized_hvac_system.Prelude.{
  String, Bool, true, false, ◌&&◌, Option, none, some, List, ◌==◌, if◌then◌else◌,
}
use centralized_hvac_system.Prelude.Int.{ℤ}
use centralized_hvac_system.Prelude.Result.{Result, ok, raised, value_error, validation_error}
use centralized_hvac_system.Float.{Float}

pub data UnitStatus : Type 0 where
  on off fault offline standby : UnitStatus

-- `UnitStatus(text)`
unfoldable pub status_of_text : String → Result UnitStatus
status_of_text s =
    if s == "ON"
    then ok on
    else if s == "OFF"
    then ok off
    else if s == "FAULT"
    then ok fault
    else if s == "OFFLINE"
    then ok offline
    else if s == "STANDBY"
    then ok standby
    else raised value_error

unfoldable pub status_text : UnitStatus → String
status_text on = "ON"
status_text off = "OFF"
status_text fault = "FAULT"
status_text offline = "OFFLINE"
status_text standby = "STANDBY"

pub data FanSpeed : Type 0 where
  low medium high auto : FanSpeed

-- `FanSpeed(text)`
unfoldable pub fan_of_text : String → Result FanSpeed
fan_of_text s =
    if s == "LOW"
    then ok low
    else if s == "MEDIUM"
    then ok medium
    else if s == "HIGH"
    then ok high
    else if s == "AUTO"
    then ok auto
    else raised value_error

unfoldable pub fan_text : FanSpeed → String
fan_text low = "LOW"
fan_text medium = "MEDIUM"
fan_text high = "HIGH"
fan_text auto = "AUTO"

pub data AlertSeverity : Type 0 where
  info warning critical : AlertSeverity

unfoldable pub severity_text : AlertSeverity → String
severity_text info = "INFO"
severity_text warning = "WARNING"
severity_text critical = "CRITICAL"

-- `AlertSeverity(text)`
unfoldable pub severity_of_text : String → Result AlertSeverity
severity_of_text s =
    if s == "INFO"
    then ok info
    else if s == "WARNING"
    then ok warning
    else if s == "CRITICAL"
    then ok critical
    else raised value_error

pub data AlertType : Type 0 where
  overheat unit_offline high_load power_anomaly pid_diverge sensor_fault : AlertType

unfoldable pub alert_type_text : AlertType → String
alert_type_text overheat = "OVERHEAT"
alert_type_text unit_offline = "OFFLINE"
alert_type_text high_load = "HIGH_LOAD"
alert_type_text power_anomaly = "POWER_ANOMALY"
alert_type_text pid_diverge = "PID_DIVERGE"
alert_type_text sensor_fault = "SENSOR_FAULT"

-- `AlertType(text)`
unfoldable pub alert_type_of_text : String → Result AlertType
alert_type_of_text s =
    if s == "OVERHEAT"
    then ok overheat
    else if s == "OFFLINE"
    then ok unit_offline
    else if s == "HIGH_LOAD"
    then ok high_load
    else if s == "POWER_ANOMALY"
    then ok power_anomaly
    else if s == "PID_DIVERGE"
    then ok pid_diverge
    else if s == "SENSOR_FAULT"
    then ok sensor_fault
    else raised value_error

pub record ControlCommand (F : Type 0) : Type 0 where
  pub unit_id : String
  pub status : Option UnitStatus
  pub target_temp : Option F
  pub fan_speed : Option FanSpeed
  pub issued_by : String
  pub correlation_id : Option String

-- `status_must_be_controllable`
unfoldable pub controllable : Option UnitStatus → Bool
controllable none = true
controllable (some on) = true
controllable (some off) = true
controllable (some standby) = true
controllable (some s) = false

module _ {F : Type 0} ⦃fl : Float F⦄ where
  -- `Field(None, ge=16.0, le=32.0)`
  unfoldable pub setpoint_in_range : Option F → Bool
  setpoint_in_range none = true
  setpoint_in_range (some t) = fl.le (fl.dec 16 0) t && fl.le t (fl.dec 32 0)

  -- `ControlCommand(...)`: the constructor validates its fields
  unfoldable pub control_command : ControlCommand F → Result (ControlCommand F)
  unfolding controllable setpoint_in_range
  control_command c =
      if controllable c.status && setpoint_in_range c.target_temp
      then ok c
      else raised validation_error

pub record TelemetryPayload (F : Type 0) : Type 0 where
  pub unit_id : String
  pub timestamp : F
  pub temperature : F
  pub humidity : F
  pub pressure : Option F
  pub load : F
  pub power_w : F
  pub compressor_rpm : Option F
  pub evap_temp : Option F
  pub condenser_temp : Option F
  pub error_codes : List ℤ

module _ {F : Type 0} ⦃fl : Float F⦄ where
  abbrev between : F → F → F → Bool
  between lo hi x = fl.le lo x && fl.le x hi

  abbrev pressure_in_range : Option F → Bool
  pressure_in_range none = true
  pressure_in_range (some p) = between (fl.dec 800 0) (fl.dec 1200 0) p

  -- `TelemetryPayload(...)`; -50.0 is the negation of 50.0
  unfoldable pub telemetry_payload : TelemetryPayload F → Result (TelemetryPayload F)
  telemetry_payload t =
      if between (fl.sub (fl.dec 0 0) (fl.dec 50 0)) (fl.dec 100 0) t.temperature
        && between (fl.dec 0 0) (fl.dec 100 0) t.humidity
        && pressure_in_range t.pressure
        && between (fl.dec 0 0) (fl.dec 100 0) t.load
        && fl.le (fl.dec 0 0) t.power_w
      then ok t
      else raised validation_error
