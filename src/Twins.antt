-- ===== src/Twins.antt =====
-- The digital twin service (main (1).py): a twin per unit, in a cache and in Redis.
pub mod Stored
pub mod Drift
pub mod Service
use text.Mathlib.Text.{starts_with}
use centralized_hvac_system.Prelude.{
  ℕ, ◌+◌, String, Bool, true, false, not, ◌||◌, ◌&&◌, Option, none, some, List, [], ◌∷◌, ◌++◌, ◌==◌,
  select, map, length, if◌then◌else◌, ◌<>◌, or_else,
}
use centralized_hvac_system.Prelude.Int.{ℤ, pos, negsuc}
use centralized_hvac_system.Prelude.Result.{Result, ok, raised, key_error, value_error, ◌>>=◌}
use centralized_hvac_system.Float.{Float}
use centralized_hvac_system.Dict.{Dict, lookup, insert, values}
use centralized_hvac_system.Models.{
  UnitStatus, on, status_text, status_of_text, FanSpeed, auto, fan_text, fan_of_text,
  TelemetryPayload, telemetry_payload,
}
use centralized_hvac_system.Control.Loop.{Hash}

pub record DigitalTwinState (F : Type 0) : Type 0 where
  pub unit_id : String
  pub zone_id : String
  pub status : UnitStatus
  pub current_temp : F
  pub target_temp : F
  pub humidity : F
  pub load_percentage : F
  pub power_consumption_w : F
  pub fan_speed : FanSpeed
  pub pid_output : F
  pub last_telemetry : Option F
  pub last_command : Option F
  pub online : Bool
  pub alert_flags : List String

-- What the texts of a twin are written and read with: `isoformat`, `json.dumps`, f"{x:.1f}" and
-- `int`.
pub record Texts (F : Type 0) : Type 0 where
  pub isoformat : F → String
  pub dumps : List String → String
  pub one_digit : F → String
  pub to_int : String → Option ℤ

-- The cache, and the hash under each unit's key in Redis.
pub record TwinService (F : Type 0) : Type 0 where
  pub cache : Dict (DigitalTwinState F)
  pub stored : Dict Hash

-- The text is among the list.
unfoldable pub has_text : String → List String → Bool
has_text s [] = false
has_text s (t ∷ l) = t == s || has_text s l

-- `f.startswith("DRIFT")`
abbrev pub is_drift : String → Bool
is_drift f = starts_with f "DRIFT"

-- `raw[key]`
abbrev entry : Hash → String → Result String
entry raw key = elim (lookup key raw) [ none ↦ raised key_error | some v ↦ ok v ]

module _ {F : Type 0} ⦃fl : Float F⦄ where
  -- The hash that `_persist_to_redis` writes, each value as the client encodes it.
  unfoldable pub mapping : Texts F → DigitalTwinState F → Hash
  mapping texts s =
      ("unit_id", s.unit_id)
      ∷ ("zone_id", s.zone_id)
      ∷ ("status", status_text s.status)
      ∷ ("current_temp", fl.to_str s.current_temp)
      ∷ ("target_temp", fl.to_str s.target_temp)
      ∷ ("humidity", fl.to_str s.humidity)
      ∷ ("load_percentage", fl.to_str s.load_percentage)
      ∷ ("power_consumption_w", fl.to_str s.power_consumption_w)
      ∷ ("fan_speed", fan_text s.fan_speed)
      ∷ ("pid_output", fl.to_str s.pid_output)
      ∷ ("online", if s.online then "1" else "0")
      ∷ ("alert_flags", texts.dumps s.alert_flags)
      ∷ ("last_telemetry", (elim s.last_telemetry [ none ↦ "" | some ts ↦ texts.isoformat ts ]))
      ∷ []

  -- `_persist_to_redis`: the mapping has the same keys each time, so it replaces what was there
  unfoldable pub persist : Texts F → DigitalTwinState F → TwinService F → TwinService F
  persist texts state s = record s { stored = insert state.unit_id (mapping texts state) s.stored }

  -- The twin of a unit that was not seen before.
  unfoldable pub stub : String → TelemetryPayload F → DigitalTwinState F
  stub unit_id t = record {
    unit_id = unit_id;
    zone_id = "unknown";
    status = on;
    current_temp = t.temperature;
    target_temp = fl.dec 22 0;
    humidity = t.humidity;
    load_percentage = t.load;
    power_consumption_w = t.power_w;
    fan_speed = auto;
    pid_output = fl.dec 0 0;
    last_telemetry = none;
    last_command = none;
    online = true;
    alert_flags = [];
  }

  -- The fields that a reading overwrites.
  unfoldable pub take_reading : TelemetryPayload F → DigitalTwinState F → DigitalTwinState F
  take_reading t twin = record twin {
    current_temp = t.temperature;
    humidity = t.humidity;
    load_percentage = t.load;
    power_consumption_w = t.power_w;
    last_telemetry = some t.timestamp;
    online = true;
    status = on;
  }

  abbrev pub drift_of : DigitalTwinState F → F
  drift_of twin = fl.abs (fl.sub twin.current_temp twin.target_temp)

  abbrev pub drift_flag : Texts F → F → String
  drift_flag texts drift = "DRIFT:" <> texts.one_digit drift <> "C"

  -- "Simple drift detection", at the threshold of 3 degrees
  unfoldable pub detect_drift : Texts F → DigitalTwinState F → DigitalTwinState F
  unfolding has_text
  detect_drift texts twin =
      if fl.lt (fl.dec 3 0) (drift_of twin)
      then (if has_text (drift_flag texts (drift_of twin)) twin.alert_flags
          then twin
          else record twin {
            alert_flags = twin.alert_flags ++ drift_flag texts (drift_of twin) ∷ [];
          })
      else record twin { alert_flags = select (λ f. not (is_drift f)) twin.alert_flags }

  -- What follows in `handle_processed_telemetry` once the reading is validated.
  unfoldable pub apply_reading :
      Texts F → String → Result (TelemetryPayload F) → TwinService F → TwinService F
  apply_reading texts unit_id (raised e) s = s
  apply_reading texts unit_id (ok t) s =
      let before = or_else (lookup unit_id s.cache) (stub unit_id t) in
      let twin = detect_drift texts (take_reading t before) in
      persist texts twin (record s { cache = insert unit_id twin s.cache })

  -- `handle_processed_telemetry`, on the unit of the topic and the fields of the payload; `none`
  -- stands for a payload that has not the fields of a reading
  unfoldable pub handle_processed_telemetry :
      Texts F → String → Option (TelemetryPayload F) → TwinService F → TwinService F
  handle_processed_telemetry texts unit_id none s = s
  handle_processed_telemetry texts unit_id (some raw) s =
      apply_reading texts unit_id (telemetry_payload raw) s

  -- `float(raw[key])`
  abbrev number : Hash → String → Result F
  number raw key =
      entry raw key >>= λ v. elim (fl.parse v) [ none ↦ raised value_error | some x ↦ ok x ]

  -- `bool(int(raw.get("online", 0)))`
  abbrev online_of : Texts F → Hash → Result Bool
  online_of texts raw = elim (lookup "online" raw) [
    | none ↦ ok false
    | some v ↦ elim (texts.to_int v) [
      | none ↦ raised value_error
      | some (pos ℕ.zero) ↦ ok false
      | some n ↦ ok true
    ]
  ]

  -- The twin that `get_twin` reads back from a hash; the other fields have their defaults.
  unfoldable pub read_back : Texts F → Hash → Result (DigitalTwinState F)
  unfolding lookup
  read_back texts raw = do
    unit_id ← entry raw "unit_id"
    zone_id ← entry raw "zone_id"
    status_value ← entry raw "status"
    status ← status_of_text status_value
    current_temp ← number raw "current_temp"
    target_temp ← number raw "target_temp"
    humidity ← number raw "humidity"
    load_percentage ← number raw "load_percentage"
    power_consumption_w ← number raw "power_consumption_w"
    fan_value ← entry raw "fan_speed"
    fan_speed ← fan_of_text fan_value
    online ← online_of texts raw
    ok (record {
      unit_id = unit_id;
      zone_id = zone_id;
      status = status;
      current_temp = current_temp;
      target_temp = target_temp;
      humidity = humidity;
      load_percentage = load_percentage;
      power_consumption_w = power_consumption_w;
      fan_speed = fan_speed;
      pid_output = fl.dec 0 0;
      last_telemetry = none;
      last_command = none;
      online = online;
      alert_flags = [];
    })
