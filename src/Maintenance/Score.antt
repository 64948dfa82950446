-- ===== src/Maintenance/Score.antt =====
-- Scores and what is recommended for them (main (4).py).
use centralized_hvac_system.Prelude.{
  ℕ, zero, suc, String, Bool, not, ◌&&◌, ◌||◌, Option, none, some, List, [], ◌∷◌, if◌then◌else◌,
}
use centralized_hvac_system.Float.{Float}
use centralized_hvac_system.Models.{warning, critical}
use centralized_hvac_system.Control.Optimizer.{min_of, max_of}
use centralized_hvac_system.Maintenance.{RiskAlert}

abbrev pub n_features : ℕ
n_features = 8

module _ {F : Type 0} ⦃fl : Float F⦄ where
  -- `max(0.0, min(1.0, (-score - 0.1) / 0.4))`
  unfoldable pub normalised : F → F
  normalised score =
      let x = fl.div (fl.sub (fl.sub (fl.dec 0 0) score) (fl.dec 1 1)) (fl.dec 4 1) in
      max_of (fl.dec 0 0) (min_of (fl.dec 1 0) x)

  -- The first eight features, padded with zeros.
  unfoldable pub eight : ℕ → List F → List F
  eight zero fv = []
  eight (suc n) [] = fl.dec 0 0 ∷ eight n []
  eight (suc n) (x ∷ fv) = x ∷ eight n fv

  -- `_make_recommendation`
  unfoldable pub make_recommendation : F → F → Bool → String
  make_recommendation rul risk is_anomalous =
      if fl.le (fl.dec 9 1) risk || fl.lt rul (fl.dec 7 0)
      then "🔴 IMMEDIATE MAINTENANCE REQUIRED"
      else if fl.le (fl.dec 7 1) risk || fl.lt rul (fl.dec 21 0)
      then "🟠 Schedule maintenance within 1 week"
      else if fl.le (fl.dec 5 1) risk || fl.lt rul (fl.dec 60 0)
      then "🟡 Plan maintenance within 2 months"
      else if is_anomalous
      then "🟡 Anomalous behaviour detected – inspect unit"
      else "🟢 Unit operating normally"

  -- A number that is 0.0 is false.
  abbrev pub is_true : F → Bool
  is_true x = not (fl.le x (fl.dec 0 0) && fl.le (fl.dec 0 0) x)

  -- `round(x, n) if x else None`
  unfoldable pub rounded : ℕ → Option F → Option F
  rounded n none = none
  rounded n (some x) = if is_true x then some (fl.round_to x n) else none

  -- `if risk_score >= 0.7`: the alert of an analysis
  unfoldable pub risk_alert : String → String → F → F → F → List (RiskAlert F)
  risk_alert unit_id message rul_days risk_score now =
      if fl.le (fl.dec 7 1) risk_score
      then record {
        unit_id = unit_id;
        severity = if fl.le (fl.dec 9 1) risk_score then critical else warning;
        message = message;
        rul_days = rul_days;
        risk_score = risk_score;
        ts = now;
      }
        ∷ []
      else []
