-- ===== src/Control/Optimizer/Comfort.antt =====
-- `SetpointOptimizer.suggest_setpoint` (main (2).py) and the comfort band.
use centralized_hvac_system.Prelude.{ℕ, ◌*◌, ◌≡◌, ap, ◌∙◌, true, ◌≤◌, none, some, arith, inl, inr}
use centralized_hvac_system.Prelude.Result.{ok, Result-cases}
use centralized_hvac_system.Float.{Float, IsOrdered, RoundsHalves}
use centralized_hvac_system.Models.{ControlCommand, control_command}
use centralized_hvac_system.Control.Value.{Twin}
use centralized_hvac_system.Control.Optimizer.{
  float_or, min_of, max_of, comfort_min, comfort_max, comfort_mid, trimmed, adjustment, half_step,
  suggest_setpoint,
}

module _ {F : Type 0} ⦃fl : Float F⦄ where
  -- Between 20.0 and 26.0.
  abbrev pub InBand : F → Type 0
  InBand x = (fl.le comfort_min x ≡ true) × (fl.le x comfort_max ≡ true)

module _ {F : Type 0} ⦃fl : Float F⦄ (laws : IsOrdered F) where
  lt-le : (x y : F) → fl.lt x y ≡ true → fl.le x y ≡ true
  lt-le x y h = ground (arith, laws.lt_le x y)

  min_of-le : (x : F) → fl.le (min_of comfort_max x) comfort_max ≡ true
  unfolding min_of
  min_of-le x = ground (arith, lt-le x comfort_max, laws.dec_le 26 26 0)

  -- The clamp holds also where a reading is NaN.
  trimmed-InBand : (sp load t : F) → InBand (trimmed sp load t)
  unfolding trimmed max_of
  trimmed-InBand sp load t =
      let y = min_of comfort_max (fl.add sp (adjustment load t)) in
      ground (
        arith,
        lt-le comfort_min y,
        min_of-le (fl.add sp (adjustment load t)),
        laws.dec_le 20 20 0,
        laws.dec_le 20 26 0,
      )

module _ {F : Type 0} ⦃fl : Float F⦄ (laws : IsOrdered F) (halves : RoundsHalves F) where
  half_step_exact : (m : ℕ) → m ≤ 50 → half_step (fl.dec m 0) ≡ fl.dec m 0
  unfolding half_step
  half_step_exact m h =
      ap (λ z. fl.div (fl.round z) (fl.dec 2 0)) (halves.exact_double m (omega arith))
      ∙ (ap (λ z. fl.div z (fl.dec 2 0)) (halves.exact_round (m * 2) (omega arith))
          ∙ halves.exact_half m (omega arith))

  half_step_mono : (x y : F) → fl.le x y ≡ true → fl.le (half_step x) (half_step y) ≡ true
  unfolding half_step
  half_step_mono x y h = halves.half_mono _ _ (halves.round_mono _ _ (halves.double_mono x y h))

  half_step-InBand : (x : F) → InBand x → InBand (half_step x)
  half_step-InBand x h = (
    rw (half_step_exact 20 (omega arith)) at (half_step_mono comfort_min x h.0),
    rw (half_step_exact 26 (omega arith)) at (half_step_mono x comfort_max h.1),
  )

  -- A suggested setpoint lies between 20.0 and 26.0, whatever the twin holds.
  pub suggest_setpoint-InBand :
      (twin : Twin F) (x : F) → suggest_setpoint twin ≡ ok (some x) → InBand x
  unfolding suggest_setpoint
  suggest_setpoint-InBand twin x h = elim (Result-cases (float_or twin "target_temp" comfort_mid)) [
    | inl (sp, e) ↦ elim (Result-cases (float_or twin "load_percentage" (fl.dec 50 0))) [
      | inl (load, e') ↦ elim (Result-cases (float_or twin "current_temp" comfort_mid)) [
        | inl (t, e'') ↦
            let ok_band = half_step-InBand (trimmed sp load t) (trimmed-InBand laws sp load t) in
            ground arith
        | inr (z, e'') ↦ absurd (ground arith)
      ]
      | inr (z, e') ↦ absurd (ground arith)
    ]
    | inr (z, e) ↦ absurd (ground arith)
  ]

  -- The command that carries a suggested setpoint passes validation.
  pub suggest_setpoint_accepted :
      (twin : Twin F) (x : F) (cmd : ControlCommand F)
      → suggest_setpoint twin ≡ ok (some x)
      → cmd.status ≡ none
      → cmd.target_temp ≡ some x
      → control_command cmd ≡ ok cmd
  unfolding control_command
  suggest_setpoint_accepted twin x cmd h no_status at_x =
      let (above, below) = suggest_setpoint-InBand twin x h in
      let low =
        laws.le_trans (fl.dec 16 0) comfort_min x (laws.dec_le 16 20 0 (omega arith)) above in
      let high =
        laws.le_trans x comfort_max (fl.dec 32 0) below (laws.dec_le 26 32 0 (omega arith)) in
      rw (no_status, at_x, low, high)
