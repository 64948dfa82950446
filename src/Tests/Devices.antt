-- ===== src/Tests/Devices.antt =====
-- The device service: a zone with a unit, an update and a command.
use centralized_hvac_system.Prelude.{
  ℕ, ◌≡◌, refl, Bool, true, false, none, some, is_some, List, [], ◌∷◌, if◌then◌else◌,
}
use centralized_hvac_system.Prelude.Result.{ok, raised, http_error, integrity_error}
use centralized_hvac_system.Float.{Micro, micro_float}
use centralized_hvac_system.Models.{UnitStatus, on, offline, auto, ControlCommand}
use centralized_hvac_system.Devices.{
  Zone, AcUnit, AcUnitCreate, AcUnitUpdate, Tables, Server, Outside, unit_at, zone_at,
}
use centralized_hvac_system.Devices.Registry.{add_unit, change, command, published, serve}
use centralized_hvac_system.Devices.Rows.{IsSound}
use centralized_hvac_system.Devices.Sound.{serve-IsSound}
use centralized_hvac_system.Tests.Data.{whole, switch}

-- The zone of a unit is there, as the foreign key says.
abbrev all_housed : List (Zone Micro) → List (AcUnit Micro ℕ) → Bool
all_housed zs [] = true
all_housed zs (u ∷ us) = if is_some (zone_at u.zone_id zs) then all_housed zs us else false

abbrev outside : Outside Micro ℕ
outside = record {
  accepts = λ t. all_housed t.zones t.units;
  fits = λ lo hi pattern s. true;
  uuid = λ n. "c1";
}

abbrev lobby : Zone Micro
lobby = record {
  id = "z1";
  name = "Lobby";
  building = none;
  floor = none;
  area_sqm = none;
  target_temp = whole 22;
}

abbrev cooler : AcUnitCreate Micro ℕ
cooler = record {
  id = "u-1";
  zone_id = "z1";
  name = "Cooler";
  model = none;
  capacity_kw = whole 5;
  target_temp = whole 22;
  tags = 0;
}

abbrev running : AcUnit Micro ℕ
running = record {
  id = "u-1";
  zone_id = "z1";
  name = "Cooler";
  model = none;
  capacity_kw = whole 5;
  status = on;
  current_temp = none;
  target_temp = whole 22;
  fan_speed = auto;
  load_percentage = whole 0;
  power_consumption_w = whole 0;
  last_seen = none;
  tags = 0;
}

abbrev server : List (AcUnit Micro ℕ) → Server Micro ℕ
server units = record {
  tables = record { zones = lobby ∷ []; units = units; alerted = [] };
  outbox = [];
  identifiers = 0;
}

abbrev nothing_new : AcUnitUpdate Micro ℕ
nothing_new = record {
  name = none;
  zone_id = none;
  target_temp = none;
  fan_speed = none;
  tags = none;
}

abbrev taking : Outside Micro ℕ
taking = record outside { accepts = λ t. true }

one_unit-IsSound : IsSound (server (running ∷ [])).tables
unfolding zone_at unit_at
one_unit-IsSound = record { zone_keys = (refl, tt); unit_keys = (refl, tt); housed = (refl, tt) }

serve-IsSound_example :
    IsSound
      (serve outside (add_unit (record cooler { id = "u-2" })) (server (running ∷ []))).1.tables
serve-IsSound_example =
    serve-IsSound outside (add_unit (record cooler { id = "u-2" })) (server (running ∷ []))
      one_unit-IsSound tt

registered_twice :
    (serve outside (add_unit cooler) (server (running ∷ []))).0 ≡ raised (http_error 409)
unfolding serve centralized_hvac_system.Devices.register_unit
    centralized_hvac_system.Devices.unit_create centralized_hvac_system.Devices.register
    centralized_hvac_system.Devices.found zone_at centralized_hvac_system.Devices.absent unit_at
registered_twice = refl

-- Nothing in `update_unit` asks for the zone, so that it is the database that refuses.
moved_nowhere :
    (serve outside
      (change "u-1" (record nothing_new { zone_id = some "z9" }))
      (server (running ∷ []))).0
    ≡ raised integrity_error
unfolding serve centralized_hvac_system.Devices.update_unit
    centralized_hvac_system.Models.setpoint_in_range centralized_hvac_system.Devices.update_valid
    centralized_hvac_system.Devices.found unit_at centralized_hvac_system.Devices.commit
    centralized_hvac_system.Devices.put_unit centralized_hvac_system.Devices.apply_update zone_at
moved_nowhere = refl

commanded :
    (serve outside (command "u-1" (switch "u-9")) (server (running ∷ []))).0
    ≡ ok (published ("ac/unit/u-1/command", "c2"))
unfolding serve centralized_hvac_system.Devices.Command.send_command
    centralized_hvac_system.Models.control_command centralized_hvac_system.Devices.found unit_at
    centralized_hvac_system.Devices.Command.issue
    centralized_hvac_system.Control.Service.command_topic
commanded = refl

commanded_offline :
    (serve outside
      (command "u-1" (switch "u-1"))
      (server (record running { status = offline } ∷ []))).0
    ≡ raised (http_error 409)
unfolding serve centralized_hvac_system.Devices.Command.send_command
    centralized_hvac_system.Models.control_command centralized_hvac_system.Devices.found unit_at
    centralized_hvac_system.Devices.Command.issue
commanded_offline = refl
