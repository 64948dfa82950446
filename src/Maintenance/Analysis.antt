-- ===== src/Maintenance/Analysis.antt =====
-- The analysis of a unit and of the fleet (main (4).py, `analyse_unit` and what it calls).
use centralized_hvac_system.Prelude.{
  ◌+◌, String, Bool, false, Option, none, some, List, [], ◌∷◌, ◌++◌, ltb, if◌then◌else◌,
}
use centralized_hvac_system.Prelude.Result.{Result, ok, raised, integrity_error, Exec, and_then}
use centralized_hvac_system.Float.{Float}
use centralized_hvac_system.Dict.{lookup, insert}
use centralized_hvac_system.Maintenance.{
  Outside, FeatureRow, MaintenancePrediction, Maintenance, RiskAlert, train_anomaly_model,
  keep_model,
}
use centralized_hvac_system.Maintenance.Score.{
  n_features, normalised, eight, make_recommendation, rounded, risk_alert,
}

-- `except Exception`: what was done stays done
unfoldable pub caught :
    {F M : Type 0}
    → Result (Option (MaintenancePrediction F)) × Maintenance F M
    → Option (MaintenancePrediction F) × Maintenance F M
caught (ok p, s) = (p, s)
caught (raised e, s) = (none, s)

module _ {F D M : Type 0} ⦃fl : Float F⦄ where
  -- `detect_anomalies` with the model of the unit
  unfoldable pub judge_unit : Outside F D M → D → Option M → Exec (Maintenance F M) (Bool × F)
  judge_unit out df none s = (ok (false, fl.dec 0 0), s)
  judge_unit out df (some model) s =
      and_then (out.build_features (out.last_rows 60 df), s)
        λ feat s.
          if ltb (out.rows feat) 1
          then (ok (false, fl.dec 0 0), s)
          else and_then (out.judge model feat, s)
              λ verdict s. (ok (verdict.0, normalised verdict.1), s)

  -- `detect_anomalies`
  unfoldable pub detect_anomalies : Outside F D M → String → D → Exec (Maintenance F M) (Bool × F)
  detect_anomalies out unit_id df s = judge_unit out df (lookup unit_id s.models) s

  -- `_extract_feature_vector`: no vector from an empty frame
  unfoldable pub extract_feature_vector : Outside F D M → D → Option (List F)
  extract_feature_vector out feat = if ltb (out.rows feat) 1 then none else some (out.last_row feat)

  -- `_compute_rul`: the days that are left, and the risk
  unfoldable pub compute_rul : Outside F D M → Option (List F → F) → Option (List F) → F × F
  compute_rul out (some model) (some fv) =
      let rul_days = out.clip (model (eight n_features fv)) (fl.dec 0 0) (fl.dec 730 0) in
      (
        rul_days,
        out.clip (fl.sub (fl.dec 1 0) (fl.div rul_days (fl.dec 365 0))) (fl.dec 0 0) (fl.dec 1 0),
      )
  compute_rul out model fv = (fl.dec 180 0, fl.dec 0 0)

  unfoldable pub prediction :
      Outside F D M → String → D → D → Bool × F → F × F → F → MaintenancePrediction F
  prediction out unit_id df feat (is_anomalous, anomaly_score) (rul_days, risk_score) now = record {
    unit_id = unit_id;
    rul_days = fl.round_to rul_days 1;
    risk_score = fl.round_to risk_score 3;
    is_anomalous = is_anomalous;
    anomaly_score = fl.round_to anomaly_score 3;
    avg_load_30d = rounded 1 (out.mean "load" df);
    avg_power_30d = rounded 1 (out.mean "power_w" df);
    efficiency_trend = rounded 4 (out.slope feat);
    recommendation = make_recommendation rul_days risk_score is_anomalous;
    computed_at = now;
  }

  -- The INSERT with its ON CONFLICT clause.
  unfoldable pub upsert : Outside F D M → String → FeatureRow F → Exec (Maintenance F M) Unit
  upsert out unit_id row s =
      if out.accepts unit_id
      then (ok tt, record s { table = insert unit_id row s.table })
      else (raised integrity_error, s)

  -- `mqtt.async_publish` of the alert, if there is one: it may raise.
  unfoldable pub announce : Outside F D M → List (RiskAlert F) → Exec (Maintenance F M) Unit
  announce out [] s = (ok tt, s)
  announce out (a ∷ alerts) s =
      and_then (out.delivers s.readings, s)
        λ _ s. announce out alerts (record s { published = s.published ++ a ∷ [] })

  -- The second half of `analyse_unit`, with its findings.
  unfoldable pub report_unit :
      Outside F D M
      → String
      → D
      → D
      → Bool × F
      → F × F
      → Exec (Maintenance F M) (Option (MaintenancePrediction F))
  report_unit out unit_id df feat (is_anomalous, anomaly_score) (rul_days, risk_score) s =
      let p =
        prediction out unit_id df feat (is_anomalous, anomaly_score) (rul_days, risk_score)
          (out.clock s.readings) in
      let row : FeatureRow F = record {
        avg_load = out.mean "load" df;
        avg_power = out.mean "power_w" df;
        risk_score = some risk_score;
        rul_days = some rul_days;
        anomaly_count = some (if is_anomalous then 1 else 0);
        last_computed = some (out.clock (s.readings + 1));
      } in
      and_then (upsert out unit_id row s) λ _ s.
        and_then
          (announce out
            (risk_alert unit_id p.recommendation rul_days risk_score (out.clock (s.readings + 2)))
            (record s { readings = s.readings + 3 }))
          λ _ s. (ok (some p), s)

  -- The body of the `try` of `analyse_unit`.
  unfoldable pub analysis :
      Outside F D M → String → Exec (Maintenance F M) (Option (MaintenancePrediction F))
  analysis out unit_id s =
      and_then (out.load_telemetry unit_id, s)
        λ df s.
          if ltb (out.rows df) 10
          then (ok none, s)
          else and_then (train_anomaly_model out df s) λ model s.
            and_then (detect_anomalies out unit_id df (keep_model unit_id model s)) λ verdict s.
              and_then (out.build_features df, s)
                λ feat s.
                  report_unit out unit_id df feat verdict
                    (compute_rul out out.rul_model (extract_feature_vector out feat)) s

  -- `analyse_unit`
  unfoldable pub analyse_unit :
      Outside F D M → String → Maintenance F M → Option (MaintenancePrediction F) × Maintenance F M
  analyse_unit out unit_id s = caught (analysis out unit_id s)

  -- `run_fleet_analysis`
  unfoldable pub run_fleet_analysis :
      Outside F D M → List String → Maintenance F M → Maintenance F M
  run_fleet_analysis out [] s = s
  run_fleet_analysis out (unit_id ∷ ids) s =
      run_fleet_analysis out ids (analyse_unit out unit_id s).1
