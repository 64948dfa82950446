-- ===== src/Tests/Optimizer.antt =====
-- The setpoint optimizer on whole millionths.
use centralized_hvac_system.Prelude.{ℕ, ◌*◌, ◌≤◌, ◌≡◌, refl, true, none, some, [], ◌∷◌, arith}
use centralized_hvac_system.Prelude.Int.{pos, negsuc}
use centralized_hvac_system.Prelude.Result.{ok}
use centralized_hvac_system.Float.{Micro, micro, micro_float, Micro-IsOrdered, RoundsHalves}
use centralized_hvac_system.Models.{ControlCommand, control_command}
use centralized_hvac_system.Control.Value.{text, Twin}
use centralized_hvac_system.Control.Optimizer.{suggest_setpoint}
use centralized_hvac_system.Control.Optimizer.Comfort.{
  InBand, suggest_setpoint-InBand, suggest_setpoint_accepted,
}

double_mono :
    (x y : Micro)
    → micro_float.le x y ≡ true
    → micro_float.le
        (micro_float.mul x (micro_float.dec 2 0))
        (micro_float.mul y (micro_float.dec 2 0))
      ≡ true
double_mono (micro (pos a)) (micro (pos b)) h = ground arith
double_mono (micro (pos a)) (micro (negsuc b)) h = ground arith
double_mono (micro (negsuc a)) (micro (pos b)) h = ground arith
double_mono (micro (negsuc a)) (micro (negsuc b)) h = ground arith

round_mono :
    (x y : Micro)
    → micro_float.le x y ≡ true
    → micro_float.le (micro_float.round x) (micro_float.round y) ≡ true
round_mono (micro (pos a)) (micro (pos b)) h = ground arith
round_mono (micro (pos a)) (micro (negsuc b)) h = ground arith
round_mono (micro (negsuc a)) (micro (pos b)) h = ground arith
round_mono (micro (negsuc a)) (micro (negsuc b)) h = ground arith

half_mono :
    (x y : Micro)
    → micro_float.le x y ≡ true
    → micro_float.le
        (micro_float.div x (micro_float.dec 2 0))
        (micro_float.div y (micro_float.dec 2 0))
      ≡ true
half_mono (micro (pos a)) (micro (pos b)) h = ground arith
half_mono (micro (pos a)) (micro (negsuc b)) h = ground arith
half_mono (micro (negsuc a)) (micro (pos b)) h = ground arith
half_mono (micro (negsuc a)) (micro (negsuc b)) h = ground arith

exact_double :
    (m : ℕ)
    → m ≤ 100
    → micro_float.mul (micro_float.dec m 0) (micro_float.dec 2 0) ≡ micro_float.dec (m * 2) 0
exact_double m h = ground arith

exact_round : (m : ℕ) → m ≤ 100 → micro_float.round (micro_float.dec m 0) ≡ micro_float.dec m 0
exact_round m h = ground arith

exact_half :
    (m : ℕ)
    → m ≤ 100
    → micro_float.div (micro_float.dec (m * 2) 0) (micro_float.dec 2 0) ≡ micro_float.dec m 0
exact_half m h = ground arith

pub Micro-RoundsHalves : RoundsHalves Micro
Micro-RoundsHalves = record {
  double_mono = double_mono;
  round_mono = round_mono;
  half_mono = half_mono;
  exact_double = exact_double;
  exact_round = exact_round;
  exact_half = exact_half;
}

-- A hot unit under a high load.
abbrev busy : Twin Micro
busy =
    ("target_temp", text "24.0")
    ∷ ("load_percentage", text "95.0")
    ∷ ("current_temp", text "36.0")
    ∷ []

abbrev half_degree : ℕ → Micro
half_degree n = micro (pos (n * 500000))

suggest_busy : suggest_setpoint busy ≡ ok (some (half_degree 47))
unfolding suggest_setpoint centralized_hvac_system.Control.Optimizer.float_or
    centralized_hvac_system.Dict.lookup centralized_hvac_system.Control.Optimizer.trimmed
    centralized_hvac_system.Control.Optimizer.max_of
    centralized_hvac_system.Control.Optimizer.min_of
    centralized_hvac_system.Control.Optimizer.adjustment
    centralized_hvac_system.Control.Optimizer.half_step
suggest_busy = refl

suggest_setpoint-InBand_example : InBand (half_degree 47)
suggest_setpoint-InBand_example =
    suggest_setpoint-InBand Micro-IsOrdered Micro-RoundsHalves busy (half_degree 47) suggest_busy

abbrev to_busy : ControlCommand Micro
to_busy = record {
  unit_id = "u1";
  status = none;
  target_temp = some (half_degree 47);
  fan_speed = none;
  issued_by = "setpoint-optimizer";
  correlation_id = some "c1";
}

suggest_setpoint_accepted_example : control_command to_busy ≡ ok to_busy
suggest_setpoint_accepted_example =
    suggest_setpoint_accepted Micro-IsOrdered Micro-RoundsHalves busy (half_degree 47) to_busy
      suggest_busy refl refl
