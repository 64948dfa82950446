-- ===== src/Maintenance/Stored.antt =====
-- The endpoints that read the stored predictions (main (4).py, `get_prediction`, `list_predictions`
-- and `fleet_summary`).
use centralized_hvac_system.Prelude.{
  ℕ, String, Bool, false, ◌&&◌, Option, none, some, or_else, List, select, length, ltb,
  if◌then◌else◌,
}
use centralized_hvac_system.Prelude.Int.{pos}
use centralized_hvac_system.Prelude.Result.{Result, ok, raised, http_error, Exec}
use centralized_hvac_system.Float.{Float}
use centralized_hvac_system.Control.Optimizer.{min_of}
use centralized_hvac_system.Maintenance.{Outside, FeatureRow, MaintenancePrediction, Maintenance}
use centralized_hvac_system.Maintenance.Score.{make_recommendation, is_true}
use centralized_hvac_system.Maintenance.Analysis.{analyse_unit}

-- `if not result: raise HTTPException(404)`
unfoldable pub or_404 : {A S : Type 0} → Option A × S → Result A × S
or_404 (none, s) = (raised (http_error 404), s)
or_404 (some a, s) = (ok a, s)

module _ {F D M : Type 0} ⦃fl : Float F⦄ where
  -- `get_prediction`
  unfoldable pub get_prediction :
      Outside F D M → String → Exec (Maintenance F M) (MaintenancePrediction F)
  get_prediction out unit_id s = or_404 (analyse_unit out unit_id s)

module _ {F : Type 0} ⦃fl : Float F⦄ where
  -- `x or default`: null and 0.0 give the default
  unfoldable pub or_default : Option F → F → F
  or_default none d = d
  or_default (some x) d = if is_true x then x else d

  -- The prediction of a row of `list_predictions`, at the time `now`.
  unfoldable pub row_prediction : F → String → FeatureRow F → MaintenancePrediction F
  row_prediction now unit_id r =
      let rul = or_default r.rul_days (fl.dec 180 0) in
      let risk = or_default r.risk_score (fl.dec 0 0) in
      let count = or_else r.anomaly_count 0 in
      record {
        unit_id = unit_id;
        rul_days = rul;
        risk_score = risk;
        is_anomalous = ltb 0 count;
        anomaly_score = min_of (fl.dec 1 0) (fl.div (fl.of_int (pos count)) (fl.dec 10 0));
        avg_load_30d = r.avg_load;
        avg_power_30d = r.avg_power;
        efficiency_trend = none;
        recommendation = make_recommendation rul risk (ltb 0 count);
        computed_at = or_else r.last_computed now;
      }

  -- The filters of `fleet_summary`: critical, warning and healthy rows; null is in none of them.
  unfoldable pub is_critical : FeatureRow F → Bool
  is_critical r = elim r.risk_score [ none ↦ false | some x ↦ fl.le (fl.dec 9 1) x ]

  unfoldable pub is_warning : FeatureRow F → Bool
  is_warning r = elim r.risk_score [
    | none ↦ false
    | some x ↦ fl.le (fl.dec 7 1) x && fl.lt x (fl.dec 9 1)
  ]

  unfoldable pub is_healthy : FeatureRow F → Bool
  is_healthy r = elim r.risk_score [ none ↦ false | some x ↦ fl.lt x (fl.dec 7 1) ]

  -- The three counts of `fleet_summary`.
  unfoldable pub fleet_counts : List (FeatureRow F) → ℕ × ℕ × ℕ
  fleet_counts rows = (
    length (select is_critical rows),
    length (select is_warning rows),
    length (select is_healthy rows),
  )
