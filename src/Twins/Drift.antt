-- ===== src/Twins/Drift.antt =====
-- The drift flags of a twin (main (1).py, `handle_processed_telemetry`).
use centralized_hvac_system.Prelude.{
  String, ◌≡◌, true, false, not, List, [], ◌∷◌, ◌++◌, arith, All, select, Bool-cases, inl, inr,
  eq_refl,
}
use centralized_hvac_system.Float.{Float}
use centralized_hvac_system.Twins.{
  DigitalTwinState, Texts, is_drift, drift_of, drift_flag, has_text, detect_drift,
}

-- No flag of the list is a drift flag.
abbrev pub IsClear : List String → Type 0
IsClear flags = All (λ f. is_drift f ≡ false) flags

select-IsClear : (flags : List String) → IsClear (select (λ f. not (is_drift f)) flags)
select-IsClear [] = tt
select-IsClear (f ∷ flags) = elim (Bool-cases (is_drift f)) [
  | inl drifts ↦ rw drifts (select-IsClear flags)
  | inr other ↦ rw other (other, select-IsClear flags)
]

has_text-append : (s : String) (l : List String) → has_text s (l ++ s ∷ []) ≡ true
unfolding has_text
has_text-append s [] = ground (arith, eq_refl s)
has_text-append s (t ∷ l) = ground (arith, has_text-append s l)

module _ {F : Type 0} ⦃fl : Float F⦄ (texts : Texts F) where
  -- After the drift detection a twin within 3 degrees of its setpoint has no drift flag, and any
  -- other twin has the flag of its drift.
  pub detect_drift_lem :
      (twin : DigitalTwinState F)
      → (fl.lt (fl.dec 3 0) (drift_of twin) ≡ false → IsClear (detect_drift texts twin).alert_flags)
        × (fl.lt (fl.dec 3 0) (drift_of twin) ≡ true
            → has_text (drift_flag texts (drift_of twin)) (detect_drift texts twin).alert_flags
              ≡ true)
  unfolding detect_drift
  detect_drift_lem twin = (
    (λ near. rw near (select-IsClear twin.alert_flags)),
    (λ far. ground (arith, has_text-append (drift_flag texts (drift_of twin)) twin.alert_flags)),
  )
