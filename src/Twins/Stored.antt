-- ===== src/Twins/Stored.antt =====
-- The hash of a twin in Redis (main (1).py, `_persist_to_redis` and `get_twin`).
use centralized_hvac_system.Prelude.{
  String, ◌≡◌, refl, Option, none, some, [], arith, or_else, Bool-cases, inl, inr, ap, ◌∙◌,
}
use centralized_hvac_system.Prelude.Int.{pos}
use centralized_hvac_system.Prelude.Result.{ok}
use centralized_hvac_system.Float.{Float}
use centralized_hvac_system.Dict.{lookup, insert, lookup-insert_self}
use centralized_hvac_system.Models.{
  UnitStatus, on, off, fault, offline, standby, status_text, status_of_text, FanSpeed, low, medium,
  high, auto, fan_text, fan_of_text, TelemetryPayload,
}
use centralized_hvac_system.Control.Loop.Zones.{IsWhole}
use centralized_hvac_system.Twins.{
  DigitalTwinState, Texts, TwinService, mapping, persist, stub, take_reading, detect_drift,
  apply_reading, read_back,
}

-- `float(repr(x))` is `x`, and `int` reads the two texts that the online flag is written as.
pub record ReadsBack (F : Type 0) ⦃fl : Float F⦄ (texts : Texts F) : Type 0 where
  pub parse-to_str : (x : F) → fl.parse (fl.to_str x) ≡ some x
  pub one : texts.to_int "1" ≡ some (pos 1)
  pub zero : texts.to_int "0" ≡ some (pos 0)

status_roundtrip : (s : UnitStatus) → status_of_text (status_text s) ≡ ok s
unfolding status_of_text status_text
status_roundtrip on = refl
status_roundtrip off = refl
status_roundtrip fault = refl
status_roundtrip offline = refl
status_roundtrip standby = refl

fan_roundtrip : (s : FanSpeed) → fan_of_text (fan_text s) ≡ ok s
unfolding fan_of_text fan_text
fan_roundtrip low = refl
fan_roundtrip medium = refl
fan_roundtrip high = refl
fan_roundtrip auto = refl

module _ {F : Type 0} ⦃fl : Float F⦄ (texts : Texts F) where
  -- A stored twin reads back as it was, but for the PID output, the times and the alert flags,
  -- which have their defaults, where `float` reads what `repr` writes and `int` the two texts of
  -- the online flag.
  pub read_back-mapping :
      (s : DigitalTwinState F)
      → ReadsBack F texts
      → read_back texts (mapping texts s)
        ≡ ok (record s {
          pid_output = fl.dec 0 0;
          last_telemetry = none;
          last_command = none;
          alert_flags = [];
        })
  unfolding read_back mapping lookup
  read_back-mapping s laws = elim (Bool-cases s.online) [
    | inl up ↦ ground (
      arith,
      laws.one,
      status_roundtrip s.status,
      fan_roundtrip s.fan_speed,
      laws.parse-to_str s.current_temp,
      laws.parse-to_str s.target_temp,
      laws.parse-to_str s.humidity,
      laws.parse-to_str s.load_percentage,
      laws.parse-to_str s.power_consumption_w,
    )
    | inr down ↦ ground (
      arith,
      laws.zero,
      status_roundtrip s.status,
      fan_roundtrip s.fan_speed,
      laws.parse-to_str s.current_temp,
      laws.parse-to_str s.target_temp,
      laws.parse-to_str s.humidity,
      laws.parse-to_str s.load_percentage,
      laws.parse-to_str s.power_consumption_w,
    )
  ]

  detect_drift_lem :
      (twin : DigitalTwinState F)
      → let d = detect_drift texts twin in
        (d.unit_id ≡ twin.unit_id)
        × (d.current_temp ≡ twin.current_temp)
        × (d.load_percentage ≡ twin.load_percentage)
        × (d.status ≡ twin.status)
  unfolding detect_drift
  detect_drift_lem twin = ground arith

  mapping-IsWhole : (s : DigitalTwinState F) → IsWhole (mapping texts s)
  unfolding mapping lookup
  mapping-IsWhole s = record {
    status = status_text s.status;
    load = fl.to_str s.load_percentage;
    status_there = refl;
    load_there = refl;
  }

  -- After a valid reading of a unit, whose cached twin, if any, carries the unit's identifier,
  -- its twin in the cache is ON with the temperature and the load of the reading, its hash in
  -- Redis is that twin's, and has the fields that the load balancing of the control service
  -- reads.
  pub apply_reading_lem :
      (u : String) (t : TelemetryPayload F) (s : TwinService F)
      → ((twin : DigitalTwinState F) → lookup u s.cache ≡ some twin → twin.unit_id ≡ u)
      → let s' = apply_reading texts u (ok t) s in
        (twin : DigitalTwinState F) × (lookup u s'.cache ≡ some twin)
        × (lookup u s'.stored ≡ some (mapping texts twin))
        × (twin.current_temp ≡ t.temperature)
        × (twin.load_percentage ≡ t.load)
        × (twin.status ≡ on)
        × IsWhole (mapping texts twin)
  unfolding apply_reading persist take_reading stub
  apply_reading_lem u t s own =
      let before = or_else (lookup u s.cache) (stub u t) in
      let read = take_reading t before in
      let twin = detect_drift texts read in
      let kept = detect_drift_lem read in
      let mine : twin.unit_id ≡ u = kept.0 ∙ before_unit (lookup u s.cache) own in
      (
        twin,
        lookup-insert_self u twin s.cache,
        ap (λ k. lookup u (insert k (mapping texts twin) s.stored)) mine
            ∙ lookup-insert_self u (mapping texts twin) s.stored,
        kept.1,
        kept.2,
        kept.3,
        mapping-IsWhole twin,
      )
    where
      before_unit :
          (o : Option (DigitalTwinState F))
          → ((twin : DigitalTwinState F) → o ≡ some twin → twin.unit_id ≡ u)
          → (or_else o (stub u t)).unit_id ≡ u
      before_unit none h = refl
      before_unit (some twin) h = h twin refl
