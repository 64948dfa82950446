-- ===== src/Tests/Simulator.antt =====
-- The simulator: a unit over some turns, and its controller in a hot room and in a cold one.
use centralized_hvac_system.Prelude.{ℕ, ◌≡◌, refl, true, false, List, [], ◌∷◌}
use centralized_hvac_system.Prelude.Int.{pos}
use centralized_hvac_system.Float.{Micro, micro, micro_float, Micro-IsOrdered}
use centralized_hvac_system.Control.Value.{text}
use centralized_hvac_system.Simulator.{ThermalState, Noise, step, regulate}
use centralized_hvac_system.Simulator.Bounds.{
  Event, telemetry, faults, message, happen_all, IsWithin, happen_all-IsWithin,
}
use centralized_hvac_system.Tests.Data.{whole}

-- A unit on in a room of that temperature, whose setpoint is 22 degrees.
abbrev room : ℕ → ThermalState Micro
room temperature = record {
  unit_id = "u1";
  zone_id = "z1";
  temperature = whole temperature;
  humidity = whole 50;
  setpoint = whole 22;
  is_on = true;
  fault = false;
  pid_integral = whole 0;
  pid_prev_err = whole 0;
  base_load = whole 40;
  power_base_w = whole 1000;
  ambient_temp = whole 30;
  thermal_mass = whole 1;
  cooling_coeff = micro (pos 100000);
}

abbrev quiet : Noise Micro
quiet = record {
  fault_temp = whole 0;
  temp = whole 0;
  humidity = whole 0;
  fault_load = whole 97;
  load = whole 0;
  standby_power = whole 5;
  efficiency = whole 1;
  power = whole 0;
  pressure = whole 1013;
  evap = whole 0;
  condenser = whole 0;
}

abbrev turns : List (Event Micro)
turns =
    telemetry (whole 2) (whole 1) quiet
    ∷ message (whole 2) (("status", text "ON") ∷ [])
    ∷ faults (micro (pos 5000)) (micro (pos 50000)) (whole 1) (whole 1)
    ∷ []

happen_all-IsWithin_example : IsWithin (happen_all turns (room 30))
happen_all-IsWithin_example =
    happen_all-IsWithin Micro-IsOrdered refl turns (room 30) ((refl, refl), (refl, refl))

-- The error is the setpoint less the temperature: a room eight degrees too hot is not cooled, and a
-- room four degrees too cold is.
hot_room_not_cooled : (step (whole 2) quiet (room 30)).temperature ≡ whole 30
unfolding step regulate
hot_room_not_cooled = refl

cold_room_cooled : (step (whole 2) quiet (room 18)).temperature ≡ micro (pos 16640000)
unfolding step regulate
cold_room_cooled = refl
