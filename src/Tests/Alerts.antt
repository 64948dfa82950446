-- ===== src/Tests/Alerts.antt =====
-- The alert service on a store that counts its keys down.
use centralized_hvac_system.Prelude.{
  ℕ, ◌≡◌, refl, true, false, String, none, some, List, [], ◌∷◌, arith, or_else, nat_eq,
  if◌then◌else◌,
}
use centralized_hvac_system.Prelude.Result.{ok, raised, integrity_error}
use centralized_hvac_system.Float.{Micro, micro_float}
use centralized_hvac_system.Dict.{lookup}
use centralized_hvac_system.Redis.{Store, store_redis, fresh_store, Store-IsRedis}
use centralized_hvac_system.Models.{overheat, high_load, warning, critical, TelemetryPayload}
use centralized_hvac_system.Alerts.Detector.{AlertPayload}
use centralized_hvac_system.Alerts.Detector.Window.{updates, new_detector, windows_lem}
use centralized_hvac_system.Alerts.Pipeline.{AlertService, Sinks, emit_alert}
use centralized_hvac_system.Alerts.Pipeline.Dedup.{
  Event, wait, alarm, run, one_alert_per_window, lost_alert,
}
use centralized_hvac_system.Tests.Data.{whole}

abbrev at_start : AlertService Micro Store
at_start = record {
  detector = new_detector;
  redis = fresh_store;
  stored = [];
  published = [];
  posted = [];
  webhooks = record { url = "hook"; severity = some "CRITICAL" } ∷ [];
  readings = 0;
  identifiers = 0;
  attempts = 0;
}

-- A database that refuses the first alert, and one that takes all.
abbrev refusing : Sinks Micro
refusing = record {
  commits = λ n a. if nat_eq n 0 then raised integrity_error else ok tt;
  publishes = λ n a. ok tt;
}

abbrev taking : Sinks Micro
taking = record { commits = λ n a. ok tt; publishes = λ n a. ok tt }

abbrev hot : String → AlertPayload Micro
hot id = record {
  id = id;
  unit_id = "u1";
  zone_id = none;
  alert_type = overheat;
  severity = critical;
  message = "hot";
  created_at = whole 5;
}

abbrev loaded : AlertPayload Micro
loaded = record (hot "a3") { alert_type = high_load; severity = warning }

hot_goes : (emit_alert taking (hot "a1") at_start).0 ≡ ok true
unfolding emit_alert lookup centralized_hvac_system.Alerts.Pipeline.raise_new
hot_goes = refl

abbrev meanwhile : List (Event Micro)
meanwhile = wait 100000 ∷ alarm loaded ∷ alarm (hot "a4") ∷ wait 150000 ∷ []

one_alert_per_window_example :
    let s' = run taking meanwhile (emit_alert taking (hot "a1") at_start).1 in
    emit_alert taking (hot "a2") s' ≡ (ok false, s')
one_alert_per_window_example =
    one_alert_per_window Store-IsRedis taking (hot "a1") (hot "a2") meanwhile at_start hot_goes refl
      refl (omega arith)

lost_alert_example :
    let s1 = (emit_alert refusing (hot "a1") at_start).1 in
    let s' = run refusing meanwhile s1 in
    ((emit_alert refusing (hot "a1") at_start).0 ≡ raised integrity_error)
    × (s1.stored ≡ [])
    × (s1.published ≡ [])
    × (s1.posted ≡ [])
    × (emit_alert refusing (hot "a2") s' ≡ (ok false, s'))
unfolding lookup
lost_alert_example =
    lost_alert Store-IsRedis refusing (hot "a1") (hot "a2") meanwhile at_start integrity_error refl
      refl refl refl (omega arith)

abbrev measured_at : String → ℕ → TelemetryPayload Micro
measured_at u temp = record {
  unit_id = u;
  timestamp = whole 0;
  temperature = whole temp;
  humidity = whole 50;
  pressure = none;
  load = whole 60;
  power_w = whole 900;
  compressor_rpm = none;
  evap_temp = none;
  condenser_temp = none;
  error_codes = [];
}

abbrev history : List (TelemetryPayload Micro)
history =
    measured_at "u1" 20
    ∷ measured_at "u1" 21
    ∷ measured_at "u2" 30
    ∷ measured_at "u1" 22
    ∷ measured_at "u1" 23
    ∷ measured_at "u1" 24
    ∷ measured_at "u1" 25
    ∷ []

windows_lem_example :
    let d = updates history new_detector in
    (or_else (lookup "u1" d.temp_windows) []
      ≡ whole 21 ∷ whole 22 ∷ whole 23 ∷ whole 24 ∷ whole 25 ∷ [])
    × (or_else (lookup "u1" d.load_windows) []
        ≡ whole 60 ∷ whole 60 ∷ whole 60 ∷ whole 60 ∷ whole 60 ∷ [])
windows_lem_example = windows_lem history "u1"
