-- ===== src/Gateway/Telemetry.antt =====
-- The readings of the edge gateway (gateway.py, `RawTelemetry`).
use centralized_hvac_system.Prelude.{String, Option, List}
use centralized_hvac_system.Prelude.Int.{ℤ}

pub record RawTelemetry (F : Type 0) : Type 0 where
  pub unit_id : String
  pub temperature : F
  pub humidity : F
  pub load : F
  pub power_w : F
  pub pressure : Option F
  pub compressor_rpm : Option F
  pub error_codes : List ℤ
