-- ===== src/Simulator/Bounds.antt =====
-- The thermal model of the simulator under its loops and commands (simulate.py, `ThermalState` and
-- `UnitSimulator`).
use centralized_hvac_system.Prelude.{
  ◌≡◌, Option, none, some, true, not, ◌&&◌, List, [], ◌∷◌, arith, Bool-cases, inl, inr,
}
use centralized_hvac_system.Prelude.Result.{and_then_keeps, Result-cases}
use centralized_hvac_system.Float.{Float, IsOrdered}
use centralized_hvac_system.Dict.{Dict, lookup}
use centralized_hvac_system.Control.Value.{Value, to_float}
use centralized_hvac_system.Gateway.Adapter.Range.{clamp_between, clamp_lem}
use centralized_hvac_system.Simulator.{
  ThermalState, Noise, minus_twenty, next_integral, regulate, step, telemetry_turn, obey_setpoint,
  obey_status, on_message, fault_turn,
}

-- What happens to a unit: a turn of a loop, or a command.
pub data Event (F : Type 0) : Type 0 where
  telemetry : (dt now : F) → Noise F → Event F
  faults : (fault_rate recovery_rate inject recover : F) → Event F
  message : (now : F) → Dict (Value F) → Event F

module _ {F : Type 0} ⦃fl : Float F⦄ where
  unfoldable pub happen : Event F → ThermalState F → ThermalState F
  happen (telemetry dt now r) s = (telemetry_turn dt now r s).1
  happen (faults f v i c) s = fault_turn f v i c s
  happen (message now cmd) s = (on_message now cmd s).1

  unfoldable pub happen_all : List (Event F) → ThermalState F → ThermalState F
  happen_all [] s = s
  happen_all (e ∷ es) s = happen_all es (happen e s)

  abbrev pub Between : F → F → F → Type 0
  Between lo hi x = (fl.le lo x ≡ true) × (fl.le x hi ≡ true)

  -- The humidity and the integral are within their limits.
  abbrev pub IsWithin : ThermalState F → Type 0
  IsWithin s =
      Between (fl.dec 20 0) (fl.dec 95 0) s.humidity
      × Between minus_twenty (fl.dec 20 0) s.pid_integral

module _ {F : Type 0} ⦃fl : Float F⦄ (laws : IsOrdered F)
    (below : fl.le minus_twenty (fl.dec 20 0) ≡ true) where
  step-IsWithin : (dt : F) (r : Noise F) (s : ThermalState F) → IsWithin s → IsWithin (step dt r s)
  unfolding step regulate next_integral
  step-IsWithin dt r s h = elim (Bool-cases s.fault) [
    | inl broken ↦ rw broken h
    | inr whole ↦ elim (Bool-cases s.is_on) [
      | inr off ↦ rw whole (rw off h)
      | inl on ↦ rw whole (
          rw on (
            clamp_lem laws 20 95 _ (omega arith),
            clamp_between laws minus_twenty (fl.dec 20 0) _ below,
          ))
    ]
  ]

  obey_setpoint-IsWithin :
      (v : Option (Value F)) (s : ThermalState F) → IsWithin s → IsWithin (obey_setpoint v s).1
  unfolding obey_setpoint
  obey_setpoint-IsWithin none s h = h
  obey_setpoint-IsWithin (some v) s h = elim (Result-cases (to_float v)) [
    | inl (t, number) ↦ rw number h
    | inr (e, other) ↦ rw other h
  ]

  obey_status-IsWithin :
      (v : Option (Value F)) (s : ThermalState F) → IsWithin s → IsWithin (obey_status v s)
  unfolding obey_status
  obey_status-IsWithin none s h = h
  obey_status-IsWithin (some v) s h = h

  on_message-IsWithin :
      (now : F) (cmd : Dict (Value F)) (s : ThermalState F)
      → IsWithin s
      → IsWithin (on_message now cmd s).1
  unfolding on_message
  on_message-IsWithin now cmd s h =
      and_then_keeps (λ s. IsWithin s) (obey_setpoint (lookup "target_temp" cmd) s) _
        (obey_setpoint-IsWithin (lookup "target_temp" cmd) s h)
        (λ _ e.
          obey_status-IsWithin (lookup "status" cmd) (obey_setpoint (lookup "target_temp" cmd) s).1
            (obey_setpoint-IsWithin (lookup "target_temp" cmd) s h))

  fault_turn-IsWithin :
      (f v i c : F) (s : ThermalState F) → IsWithin s → IsWithin (fault_turn f v i c s)
  unfolding fault_turn
  fault_turn-IsWithin f v i c s h = elim (Bool-cases (not s.fault && fl.lt i f)) [
    | inl broken ↦ rw broken h
    | inr held ↦ elim (Bool-cases (s.fault && fl.lt c v)) [
      | inl mended ↦ rw held (rw mended h)
      | inr same ↦ rw held (rw same h)
    ]
  ]

  -- Whatever turns of the loops, whatever noise and whatever commands a unit takes, its humidity stays
  -- between 20 and 95 and the integral of its controller between -20 and 20, if they are there at the
  -- start.
  pub happen_all-IsWithin :
      (es : List (Event F)) (s : ThermalState F) → IsWithin s → IsWithin (happen_all es s)
  unfolding happen happen_all telemetry_turn
  happen_all-IsWithin [] s h = h
  happen_all-IsWithin (telemetry dt now r ∷ es) s h =
      happen_all-IsWithin es (step dt r s) (step-IsWithin dt r s h)
  happen_all-IsWithin (faults f v i c ∷ es) s h =
      happen_all-IsWithin es (fault_turn f v i c s) (fault_turn-IsWithin f v i c s h)
  happen_all-IsWithin (message now cmd ∷ es) s h =
      happen_all-IsWithin es (on_message now cmd s).1 (on_message-IsWithin now cmd s h)
