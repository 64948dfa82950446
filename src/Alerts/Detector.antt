-- ===== src/Alerts/Detector.antt =====
-- The anomaly detector of the alert service (main (3).py, `AnomalyDetector`).
pub mod Window
use centralized_hvac_system.Prelude.{
  ℕ, zero, suc, ◌+◌, String, Bool, true, false, ◌&&◌, Option, none, some, List, [], ◌∷◌, ◌++◌, map,
  length, ltb, nat_eq, if◌then◌else◌, or_else,
}
use centralized_hvac_system.Prelude.Int.{ℤ, pos}
use centralized_hvac_system.Float.{Float}
use centralized_hvac_system.Dict.{Dict, lookup, insert}
use centralized_hvac_system.Models.{
  AlertType, overheat, high_load, power_anomaly, AlertSeverity, critical, warning, TelemetryPayload,
}
use centralized_hvac_system.Control.Optimizer.{max_of}

-- `AlertPayload`; the message and the payload are what the alert was built from.
pub record AlertPayload (F : Type 0) : Type 0 where
  pub id : String
  pub unit_id : String
  pub zone_id : Option String
  pub alert_type : AlertType
  pub severity : AlertSeverity
  pub message : String
  pub created_at : F

pub record AnomalyDetector (F : Type 0) : Type 0 where
  pub temp_windows : Dict (List F)
  pub load_windows : Dict (List F)
  pub power_baseline : Dict F

-- What an alert says before it has its identifier and its time.
pub record Draft (F : Type 0) : Type 0 where
  pub kind : AlertType
  pub level : AlertSeverity
  pub readings : List F

abbrev pub window : ℕ
window = 5

-- `w.pop(0)`
abbrev pub tail : {F : Type 0} → List F → List F
tail [] = []
tail (x ∷ l) = l

-- `w.append(x)`, then `w.pop(0)` if the window is too long
unfoldable pub slide : {F : Type 0} → F → List F → List F
slide x w = let w' = w ++ x ∷ [] in if ltb window (length w') then tail w' else w'

module _ {F : Type 0} ⦃fl : Float F⦄ where
  -- `sum(w)`
  unfoldable pub sum_of : F → List F → F
  sum_of total [] = total
  sum_of total (x ∷ l) = sum_of (fl.add total x) l

  -- `sum(w) / len(w)`
  unfoldable pub average : List F → F
  unfolding sum_of
  average w = fl.div (sum_of (fl.of_int (pos 0)) w) (fl.of_int (pos (length w)))

  -- The alerts of a temperature window.
  unfoldable pub temp_alerts : List F → List (Draft F)
  unfolding average
  temp_alerts w =
      if nat_eq (length w) window
      then (if fl.le (fl.dec 35 0) (average w)
          then record { kind = overheat; level = critical; readings = average w ∷ w } ∷ []
          else if fl.le (fl.dec 30 0) (average w)
          then record { kind = overheat; level = warning; readings = average w ∷ [] } ∷ []
          else [])
      else []

  -- The alerts of a load window.
  unfoldable pub load_alerts : List F → List (Draft F)
  unfolding average
  load_alerts w =
      if nat_eq (length w) window && fl.le (fl.dec 98 0) (average w)
      then record { kind = high_load; level = warning; readings = average w ∷ [] } ∷ []
      else []

  -- `abs(power - baseline) / max(baseline, 1) * 100`
  unfoldable pub deviation_pct : F → F → F
  unfolding max_of
  deviation_pct power baseline =
      fl.mul (fl.div (fl.abs (fl.sub power baseline)) (max_of baseline (fl.of_int (pos 1))))
        (fl.of_int (pos 100))

  -- `baseline * (1 - self.BASELINE_ALPHA) + power * self.BASELINE_ALPHA`
  unfoldable pub next_baseline : F → F → F
  next_baseline baseline power =
      fl.add (fl.mul baseline (fl.sub (fl.of_int (pos 1)) (fl.dec 5 2))) (fl.mul power (fl.dec 5 2))

  -- The alerts of a power reading against the baseline before it.
  unfoldable pub power_alerts : Option F → F → List (Draft F)
  unfolding deviation_pct
  power_alerts none power = []
  power_alerts (some baseline) power =
      let deviation = deviation_pct power baseline in
      if fl.le (fl.dec 25 0) deviation
      then record {
        kind = power_anomaly;
        level = if fl.lt (fl.of_int (pos 50)) deviation then critical else warning;
        readings = power ∷ baseline ∷ deviation ∷ [];
      }
        ∷ []
      else []

  unfoldable pub baseline_after : Option F → F → F
  unfolding next_baseline
  baseline_after none power = power
  baseline_after (some baseline) power = next_baseline baseline power

  -- `update`: the drafts of the alerts that it builds, in order, and the detector after it
  unfoldable pub update :
      TelemetryPayload F → AnomalyDetector F → List (Draft F) × AnomalyDetector F
  unfolding slide
  update t d =
      let uid = t.unit_id in
      let tw = slide t.temperature (or_else (lookup uid d.temp_windows) []) in
      let lw = slide t.load (or_else (lookup uid d.load_windows) []) in
      let baseline = lookup uid d.power_baseline in
      (
        temp_alerts tw ++ (load_alerts lw ++ power_alerts baseline t.power_w),
        record {
          temp_windows = insert uid tw d.temp_windows;
          load_windows = insert uid lw d.load_windows;
          power_baseline = insert uid (baseline_after baseline t.power_w) d.power_baseline;
        },
      )
