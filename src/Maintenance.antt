-- ===== src/Maintenance.antt =====
-- The predictive maintenance service (main (4).py): the anomaly models, the remaining useful life,
-- and the analysis of a unit. pandas, scikit-learn, InfluxDB and PostgreSQL are outside.
pub mod Score
pub mod Analysis
pub mod Kept
pub mod Risk
pub mod Stored
use centralized_hvac_system.Prelude.{
  ℕ, zero, suc, ◌+◌, String, Bool, true, false, not, ◌&&◌, ◌||◌, Option, none, some, or_else, List,
  [], ◌∷◌, ◌++◌, take, length, ltb, if◌then◌else◌,
}
use centralized_hvac_system.Prelude.Result.{
  Result, ok, raised, Exception, integrity_error, Exec, and_then,
}
use centralized_hvac_system.Float.{Float}
use centralized_hvac_system.Dict.{Dict, lookup, insert}
use centralized_hvac_system.Models.{AlertSeverity, warning, critical}
use centralized_hvac_system.Control.Optimizer.{min_of, max_of}

-- What comes from outside. `D` is a data frame and `M` a trained isolation forest; `load` and the
-- rest of pandas and scikit-learn may raise.
pub record Outside (F D M : Type 0) : Type 0 where
  -- `_load_telemetry(unit_id, days=30)`
  pub load_telemetry : String → Result D
  pub rows : D → ℕ
  pub last_rows : ℕ → D → D
  -- `_build_features(df)`
  pub build_features : D → Result D
  -- the isolation forest fitted on the feature columns
  pub fit : D → Result M
  -- on the last row of the feature columns: whether `predict` is -1, and `score_samples`
  pub judge : M → D → Result (Bool × F)
  -- the last row of the feature columns
  pub last_row : D → List F
  -- `df[column].mean()`, for a column that is there
  pub mean : String → D → Option F
  -- the last `trend_power_slope`, for a column that is there
  pub slope : D → Option F
  -- `_rul_model.predict` on eight features; `none` while there is no model
  pub rul_model : Option (List F → F)
  -- `np.clip(x, lo, hi)`
  pub clip : F → F → F → F
  -- whether PostgreSQL takes a row for the unit
  pub accepts : String → Bool
  -- the publication of an alert at that reading of the clock
  pub delivers : ℕ → Result (Unit {0})
  pub clock : ℕ → F

-- The row of `maintenance_features` of a unit; null stands for `none`.
pub record FeatureRow (F : Type 0) : Type 0 where
  pub avg_load : Option F
  pub avg_power : Option F
  pub risk_score : Option F
  pub rul_days : Option F
  pub anomaly_count : Option ℕ
  pub last_computed : Option F

pub record MaintenancePrediction (F : Type 0) : Type 0 where
  pub unit_id : String
  pub rul_days : F
  pub risk_score : F
  pub is_anomalous : Bool
  pub anomaly_score : F
  pub avg_load_30d : Option F
  pub avg_power_30d : Option F
  pub efficiency_trend : Option F
  pub recommendation : String
  pub computed_at : F

-- The message for the topic of system alerts.
pub record RiskAlert (F : Type 0) : Type 0 where
  pub unit_id : String
  pub severity : AlertSeverity
  pub message : String
  pub rul_days : F
  pub risk_score : F
  pub ts : F

-- `models` is `_anomaly_models`, `table` the rows of `maintenance_features`, `published` the alerts.
pub record Maintenance (F M : Type 0) : Type 0 where
  pub models : Dict M
  pub table : Dict (FeatureRow F)
  pub published : List (RiskAlert F)
  pub readings : ℕ

abbrev pub min_samples : ℕ
min_samples = 50

module _ {F D M : Type 0} where
  -- `_train_anomaly_model`
  unfoldable pub train_anomaly_model : Outside F D M → D → Exec (Maintenance F M) (Option M)
  train_anomaly_model out df s =
      if ltb (out.rows df) min_samples
      then (ok none, s)
      else and_then (out.build_features df, s)
          λ feat s.
            if ltb (out.rows feat) min_samples
            then (ok none, s)
            else and_then (out.fit feat, s) λ model s. (ok (some model), s)

-- `if model: _anomaly_models[unit_id] = model`
unfoldable pub keep_model : {F M : Type 0} → String → Option M → Maintenance F M → Maintenance F M
keep_model unit_id none s = s
keep_model unit_id (some model) s = record s { models = insert unit_id model s.models }
