-- ===== src/Tests/Maintenance.antt =====
-- Predictive maintenance: a unit with three weeks left, and a stored row of a unit that has none.
use centralized_hvac_system.Prelude.{ℕ, ◌≡◌, refl, true, none, some, [], ◌∷◌, arith}
use centralized_hvac_system.Prelude.Result.{ok}
use centralized_hvac_system.Float.{Micro, micro, micro_float, Micro-IsOrdered}
use centralized_hvac_system.Gateway.Adapter.{clamp}
use centralized_hvac_system.Gateway.Adapter.Range.{clamp_between}
use centralized_hvac_system.Maintenance.{Outside, FeatureRow, Maintenance}
use centralized_hvac_system.Maintenance.Analysis.{analyse_unit}
use centralized_hvac_system.Maintenance.Stored.{row_prediction}
use centralized_hvac_system.Maintenance.Risk.{IsNumeric, Outcome, analyse_unit-Outcome}
use centralized_hvac_system.Tests.Data.{whole}

-- A data frame is the number of its rows.
abbrev outside : Outside Micro ℕ ℕ
outside = record {
  load_telemetry = λ unit_id. ok 80;
  rows = λ df. df;
  last_rows = λ n df. n;
  build_features = λ df. ok df;
  fit = λ df. ok 1;
  judge = λ model df. ok (true, whole 0);
  last_row = λ df. whole 24 ∷ [];
  mean = λ column df. none;
  slope = λ df. none;
  rul_model = some (λ fv. whole 21);
  clip = λ x lo hi. clamp lo hi x;
  accepts = λ unit_id. true;
  delivers = λ n. ok tt;
  clock = λ n. whole n;
}

abbrev fresh : Maintenance Micro ℕ
fresh = record { models = []; table = []; published = []; readings = 0 }

micro_le_self : (x : Micro) → micro_float.le x x ≡ true
micro_le_self (micro a) = ground arith

outside-IsNumeric : IsNumeric outside
outside-IsNumeric = record {
  clip-Between = λ x lo hi h k. clamp_between Micro-IsOrdered lo hi x k;
  predicts = λ model fv h. micro_le_self (model fv);
  share = λ x h.
      micro_le_self
        (micro_float.sub (micro_float.dec 1 0) (micro_float.div x (micro_float.dec 365 0)));
}

analyse_unit-Outcome_example : Outcome "u1" fresh (analyse_unit outside "u1" fresh)
analyse_unit-Outcome_example =
    analyse_unit-Outcome Micro-IsOrdered outside outside-IsNumeric "u1" fresh

-- A unit with no day left: the endpoint shows the default of 180 days.
abbrev worn_out : FeatureRow Micro
worn_out = record {
  avg_load = none;
  avg_power = none;
  risk_score = some (whole 1);
  rul_days = some (whole 0);
  anomaly_count = some 1;
  last_computed = none;
}

no_days_shown_as_default : (row_prediction (whole 9) "u1" worn_out).rul_days ≡ whole 180
unfolding row_prediction centralized_hvac_system.Maintenance.Stored.or_default
no_days_shown_as_default = refl
