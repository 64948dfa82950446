-- ===== src/Tests/Twins.antt =====
-- The digital twin service on one unit.
use centralized_hvac_system.Prelude.{
  ◌≡◌, refl, true, false, String, none, some, [], ◌∷◌, arith, ◌==◌, if◌then◌else◌,
}
use centralized_hvac_system.Prelude.Int.{pos}
use centralized_hvac_system.Prelude.Result.{ok}
use centralized_hvac_system.Float.{Float, Micro, micro_float}
use centralized_hvac_system.Dict.{lookup}
use centralized_hvac_system.Models.{on, standby, auto, TelemetryPayload}
use centralized_hvac_system.Control.Loop.Zones.{IsWhole}
use centralized_hvac_system.Twins.{
  DigitalTwinState, Texts, TwinService, mapping, apply_reading, read_back, detect_drift, drift_of,
  drift_flag, has_text,
}
use centralized_hvac_system.Twins.Drift.{IsClear, detect_drift_lem}
use centralized_hvac_system.Twins.Stored.{ReadsBack, read_back-mapping, apply_reading_lem}
use centralized_hvac_system.Tests.Data.{whole}

-- Numbers known by what is written for them.
abbrev written : Float String
written = record {
  dec = λ m k. "0.0";
  of_int = λ n. "0.0";
  le = λ x y. x == y;
  lt = λ x y. false;
  add = λ x y. x;
  sub = λ x y. x;
  mul = λ x y. x;
  div = λ x y. x;
  abs = λ x. x;
  round = λ x. x;
  round_to = λ x n. x;
  parse = λ s. some s;
  to_str = λ x. x;
}

abbrev texts : (F : Type 0) → Texts F
texts F = record {
  isoformat = λ x. "t";
  dumps = λ l. "[]";
  one_digit = λ x. "9.0";
  to_int = λ s. if s == "1" then some (pos 1) else if s == "0" then some (pos 0) else none;
}

abbrev twin_of : {F : Type 0} → F → F → DigitalTwinState F
twin_of temp load = record {
  unit_id = "u1";
  zone_id = "z1";
  status = standby;
  current_temp = temp;
  target_temp = load;
  humidity = load;
  load_percentage = load;
  power_consumption_w = load;
  fan_speed = auto;
  pid_output = load;
  last_telemetry = none;
  last_command = none;
  online = true;
  alert_flags = [];
}

written-ReadsBack : ReadsBack String ⦃fl = written⦄ (texts String)
written-ReadsBack = record { parse-to_str = λ x. refl; one = refl; zero = refl }

read_back-mapping_example :
    read_back ⦃fl = written⦄
      (texts String)
      (mapping ⦃fl = written⦄ (texts String) (twin_of "24.0" "50.0"))
    ≡ ok (record (twin_of "24.0" "50.0") { pid_output = "0.0" })
read_back-mapping_example =
    read_back-mapping ⦃fl = written⦄ (texts String) (twin_of "24.0" "50.0") written-ReadsBack

abbrev service : TwinService Micro
service = record { cache = ("u1", twin_of (whole 24) (whole 22)) ∷ []; stored = [] }

abbrev reading : TelemetryPayload Micro
reading = record {
  unit_id = "u1";
  timestamp = whole 0;
  temperature = whole 31;
  humidity = whole 50;
  pressure = none;
  load = whole 60;
  power_w = whole 900;
  compressor_rpm = none;
  evap_temp = none;
  condenser_temp = none;
  error_codes = [];
}

cache_own :
    (twin : DigitalTwinState Micro) → lookup "u1" service.cache ≡ some twin → twin.unit_id ≡ "u1"
unfolding lookup
cache_own twin h = ground arith

apply_reading_lem_example :
    let s' = apply_reading (texts Micro) "u1" (ok reading) service in
    (twin : DigitalTwinState Micro) × (lookup "u1" s'.cache ≡ some twin)
    × (lookup "u1" s'.stored ≡ some (mapping (texts Micro) twin))
    × (twin.current_temp ≡ whole 31)
    × (twin.load_percentage ≡ whole 60)
    × (twin.status ≡ on)
    × IsWhole (mapping (texts Micro) twin)
apply_reading_lem_example = apply_reading_lem (texts Micro) "u1" reading service cache_own

detect_drift_lem_example :
    (micro_float.lt (whole 3) (drift_of (twin_of (whole 31) (whole 22))) ≡ false
      → IsClear (detect_drift (texts Micro) (twin_of (whole 31) (whole 22))).alert_flags)
    × (micro_float.lt (whole 3) (drift_of (twin_of (whole 31) (whole 22))) ≡ true
        → has_text
            (drift_flag (texts Micro) (drift_of (twin_of (whole 31) (whole 22))))
            (detect_drift (texts Micro) (twin_of (whole 31) (whole 22))).alert_flags
          ≡ true)
detect_drift_lem_example = detect_drift_lem (texts Micro) (twin_of (whole 31) (whole 22))
