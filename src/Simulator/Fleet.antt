-- ===== src/Simulator/Fleet.antt =====
-- The fleet that the simulator builds (simulate.py, `SimConfig` and `_build_unit_states`).
use centralized_hvac_system.Prelude.{
  ℕ, zero, suc, ◌+◌, ◌%◌, String, true, false, List, [], ◌∷◌, ◌==◌, if◌then◌else◌, ◌<>◌,
}
use centralized_hvac_system.Float.{Float}
use centralized_hvac_system.Simulator.{ThermalState}

-- The settings that the fleet is built from.
pub record SimConfig : Type 0 where
  pub num_units : ℕ
  pub zones : ℕ
  pub load_profile : String

-- What comes from outside: `f"{n:0{width}d}"`, and for the unit of an index the draws of
-- `random.uniform` between two bounds, by the name of what is drawn.
pub record Chance (F : Type 0) : Type 0 where
  pub padded : ℕ → ℕ → String
  pub uniform : ℕ → String → F → F → F

module _ {F : Type 0} ⦃fl : Float F⦄ where
  -- The bounds of the initial temperature, of the setpoint and of the base load.
  unfoldable pub profile : String → (F × F) × (F × F) × (F × F)
  profile load_profile =
      if load_profile == "datacenter"
      then ((fl.dec 18 0, fl.dec 22 0), (fl.dec 18 0, fl.dec 20 0), (fl.dec 60 0, fl.dec 80 0))
      else if load_profile == "residential"
      then ((fl.dec 22 0, fl.dec 28 0), (fl.dec 22 0, fl.dec 25 0), (fl.dec 10 0, fl.dec 40 0))
      else ((fl.dec 20 0, fl.dec 26 0), (fl.dec 21 0, fl.dec 23 0), (fl.dec 30 0, fl.dec 60 0))

  -- The unit of the index `i`, for a number of zones other than 0.
  unfoldable pub unit_state : Chance F → SimConfig → ℕ → ThermalState F
  unfolding profile
  unit_state c cfg i =
      let (initial_temp, setpoint, base_load) = profile cfg.load_profile in
      record {
        unit_id = "ac-unit-" <> c.padded 4 (i + 1);
        zone_id = "zone-" <> c.padded 2 (i % cfg.zones + 1);
        temperature = c.uniform i "initial_temp" initial_temp.0 initial_temp.1;
        humidity = c.uniform i "humidity" (fl.dec 40 0) (fl.dec 65 0);
        setpoint = c.uniform i "setpoint" setpoint.0 setpoint.1;
        is_on = true;
        fault = false;
        pid_integral = fl.dec 0 0;
        pid_prev_err = fl.dec 0 0;
        base_load = c.uniform i "base_load" base_load.0 base_load.1;
        power_base_w = c.uniform i "power_base_w" (fl.dec 800 0) (fl.dec 2000 0);
        ambient_temp = c.uniform i "ambient_temp" (fl.dec 26 0) (fl.dec 32 0);
        thermal_mass = c.uniform i "thermal_mass" (fl.dec 8 1) (fl.dec 15 1);
        cooling_coeff = c.uniform i "cooling_coeff" (fl.dec 5 2) (fl.dec 15 2);
      }

  -- The loop over `range(num_units)`, with the count that is left and the index.
  unfoldable pub states_from : Chance F → SimConfig → ℕ → ℕ → List (ThermalState F)
  states_from c cfg zero i = []
  states_from c cfg (suc left) i = unit_state c cfg i ∷ states_from c cfg left (suc i)

  -- `_build_unit_states`
  unfoldable pub build_unit_states : Chance F → SimConfig → List (ThermalState F)
  build_unit_states c cfg = states_from c cfg cfg.num_units 0
