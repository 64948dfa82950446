-- ===== src/Control/Optimizer.antt =====
-- The setpoint optimizer of the control service (main (2).py).
pub mod Comfort
use centralized_hvac_system.Prelude.{ℕ, String, Bool, Option, none, some, if◌then◌else◌}
use centralized_hvac_system.Prelude.Result.{Result, ok, ◌>>=◌}
use centralized_hvac_system.Float.{Float}
use centralized_hvac_system.Dict.{lookup}
use centralized_hvac_system.Control.Value.{Value, Twin, to_float}

module _ {F : Type 0} ⦃fl : Float F⦄ where
  -- `float(twin.get(key, default))`
  unfoldable pub float_or : Twin F → String → F → Result F
  unfolding to_float
  float_or twin key default = elim (lookup key twin) [ none ↦ ok default | some v ↦ to_float v ]

  -- Python's `min(a, b)` and `max(a, b)`: the first, unless the second is smaller, or larger
  unfoldable pub min_of : F → F → F
  min_of a b = if fl.lt b a then b else a

  unfoldable pub max_of : F → F → F
  max_of a b = if fl.lt a b then b else a

  abbrev pub comfort_min : F
  comfort_min = fl.dec 20 0

  abbrev pub comfort_max : F
  comfort_max = fl.dec 26 0

  abbrev pub comfort_mid : F
  comfort_mid = fl.dec 23 0

  -- `self.ALPHA * energy_signal * self.STEP - self.BETA * comfort_err * 0.1`
  unfoldable pub adjustment : F → F → F
  adjustment load current_t =
      let comfort_err = fl.sub current_t comfort_mid in
      let energy_signal = fl.div (fl.sub load (fl.dec 70 0)) (fl.dec 100 0) in
      fl.sub (fl.mul (fl.mul (fl.dec 6 1) energy_signal) (fl.dec 5 1))
        (fl.mul (fl.mul (fl.dec 4 1) comfort_err) (fl.dec 1 1))

  -- `max(self.COMFORT_MIN, min(self.COMFORT_MAX, current_sp + adjustment))`
  unfoldable pub trimmed : F → F → F → F
  trimmed current_sp load current_t =
      max_of comfort_min (min_of comfort_max (fl.add current_sp (adjustment load current_t)))

  -- `round(x * 2) / 2`
  unfoldable pub half_step : F → F
  half_step x = fl.div (fl.round (fl.mul x (fl.dec 2 0))) (fl.dec 2 0)

  -- `SetpointOptimizer.suggest_setpoint`
  unfoldable pub suggest_setpoint : Twin F → Result (Option F)
  suggest_setpoint twin = do
    current_sp ← float_or twin "target_temp" comfort_mid
    load ← float_or twin "load_percentage" (fl.dec 50 0)
    current_t ← float_or twin "current_temp" comfort_mid
    let new_sp = trimmed current_sp load current_t
    ok (
        if fl.lt (fl.abs (fl.sub new_sp current_sp)) (fl.dec 25 2)
        then none
        else some (half_step new_sp))
