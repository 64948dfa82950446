-- ===== src/Devices/Registry.antt =====
-- The device service as its clients see it (main.py, the zone and unit endpoints that write): two
-- maps by identifier.
pub mod Refines
use centralized_hvac_system.Prelude.{
  ℕ, ◌+◌, or_else, String, ◌≡◌, Bool, true, false, Option, none, some, List, [], ◌∷◌, ◌++◌, ◌==◌,
  if◌then◌else◌,
}
use centralized_hvac_system.Prelude.Result.{
  Result, ok, raised, Exception, http_error, validation_error, integrity_error, Exec, and_then,
}
use centralized_hvac_system.Float.{Float}
use centralized_hvac_system.Models.{
  setpoint_in_range, offline, auto, status_text, ControlCommand, control_command,
}
use centralized_hvac_system.Control.Service.{command_topic}
use centralized_hvac_system.Devices.{
  Zone, AcUnit, AcUnitCreate, AcUnitUpdate, Server, Outside, zone_at, unit_at, create_zone,
  unit_create, register_unit, update_unit, deregister_unit,
}
use centralized_hvac_system.Devices.Command.{send_command}

pub data Request (F J : Type 0) : Type 0 where
  add_zone : Zone F → Request F J
  add_unit : AcUnitCreate F J → Request F J
  change : String → AcUnitUpdate F J → Request F J
  remove : String → Request F J
  command : String → ControlCommand F → Request F J

pub data Answer (F J : Type 0) : Type 0 where
  zone : Zone F → Answer F J
  unit : AcUnit F J → Answer F J
  published : String × String → Answer F J

module _ {F J : Type 0} where
  -- The answer of an endpoint, in the common type.
  abbrev pub answered :
      {A : Type 0} → (A → Answer F J) → Result A × Server F J → Result (Answer F J) × Server F J
  answered f (ok a, s) = (ok (f a), s)
  answered f (raised e, s) = (raised e, s)

-- What clients know: the zone and the unit of each identifier.
pub record Maps (F J : Type 0) : Type 0 where
  pub zones : String → Option (Zone F)
  pub units : String → Option (AcUnit F J)
  pub outbox : List (String × ControlCommand F)
  pub identifiers : ℕ

module _ {F J : Type 0} ⦃fl : Float F⦄ where
  unfoldable pub serve : Outside F J → Request F J → Exec (Server F J) (Answer F J)
  serve out (add_zone z) s = answered zone (create_zone out z s)
  serve out (add_unit p) s = answered unit (register_unit out p s)
  serve out (change i p) s = answered unit (update_unit out i p s)
  serve out (remove i) s = answered unit (deregister_unit out i s)
  serve out (command i cmd) s = answered published (send_command out i cmd s)

module _ {F J : Type 0} where
  abbrev pub view : Server F J → Maps F J
  view s = record {
    zones = λ i. zone_at i s.tables.zones;
    units = λ i. unit_at i s.tables.units;
    outbox = s.outbox;
    identifiers = s.identifiers;
  }

abbrev pub put : {A : Type 0} → String → A → (String → Option A) → String → Option A
put i a m j = if i == j then some a else m j

-- The service on the maps, where `taken` says whether the database accepts what is written.
module _ {F J : Type 0} where
  abbrev written : Bool → Answer F J → Maps F J → Maps F J → Result (Answer F J) × Maps F J
  written taken a m' m = if taken then (ok a, m') else (raised integrity_error, m)

  unfoldable pub add_zone_to : Bool → Zone F → Option (Zone F) → Exec (Maps F J) (Answer F J)
  add_zone_to taken z (some old) m = (raised (http_error 409), m)
  add_zone_to taken z none m = written taken (zone z) (record m { zones = put z.id z m.zones }) m

  unfoldable pub change_in :
      Bool → String → AcUnitUpdate F J → Option (AcUnit F J) → Exec (Maps F J) (Answer F J)
  change_in taken i p none m = (raised (http_error 404), m)
  change_in taken i p (some u) m =
      let u' = record u {
        name = or_else p.name u.name;
        zone_id = or_else p.zone_id u.zone_id;
        target_temp = or_else p.target_temp u.target_temp;
        fan_speed = or_else p.fan_speed u.fan_speed;
        tags = or_else p.tags u.tags;
      } in
      written taken (unit u') (record m { units = put i u' m.units }) m

  unfoldable pub remove_from : Bool → String → Option (AcUnit F J) → Exec (Maps F J) (Answer F J)
  remove_from taken i none m = (raised (http_error 404), m)
  remove_from taken i (some u) m =
      written taken (unit u) (record m { units = λ j. if i == j then none else m.units j }) m

  -- A command goes out to a unit that is there and whose status does not read OFFLINE, under its
  -- identifier and with its correlation identifier, or a drawn one if it has none or an empty one.
  unfoldable pub command_in :
      (ℕ → String) → String → ControlCommand F → Option (AcUnit F J) → Exec (Maps F J) (Answer F J)
  command_in uuid i cmd none m = (raised (http_error 404), m)
  command_in uuid i cmd (some u) m =
      let unnamed = or_else cmd.correlation_id "" == "" in
      let c = if unnamed then uuid m.identifiers else or_else cmd.correlation_id "" in
      if status_text u.status == "OFFLINE" then (raised (http_error 409), m) else (
        ok (published (command_topic i, c)),
        record m {
          outbox =
              m.outbox
              ++ (command_topic i, record cmd { unit_id = i; correlation_id = some c }) ∷ [];
          identifiers = if unnamed then m.identifiers + 1 else m.identifiers;
        },
      )

module _ {F J : Type 0} ⦃fl : Float F⦄ where
  -- The unit of a registration: it is OFFLINE, with an automatic fan and nothing measured.
  unfoldable pub registered : AcUnitCreate F J → AcUnit F J
  registered p = record {
    id = p.id;
    zone_id = p.zone_id;
    name = p.name;
    model = p.model;
    capacity_kw = p.capacity_kw;
    status = offline;
    current_temp = none;
    target_temp = p.target_temp;
    fan_speed = auto;
    load_percentage = fl.dec 0 0;
    power_consumption_w = fl.dec 0 0;
    last_seen = none;
    tags = p.tags;
  }

  -- A unit is added to a zone that is there, under an identifier that is free.
  unfoldable pub add_unit_to :
      Bool → AcUnitCreate F J → Option (Zone F) → Option (AcUnit F J) → Exec (Maps F J) (Answer F J)
  add_unit_to taken p none old m = (raised (http_error 404), m)
  add_unit_to taken p (some z) (some old) m = (raised (http_error 409), m)
  add_unit_to taken p (some z) none m =
      written taken (unit (registered p)) (record m { units = put p.id (registered p) m.units }) m

  unfoldable pub serve_maps : Outside F J → Bool → Request F J → Exec (Maps F J) (Answer F J)
  serve_maps out taken (add_zone z) m = add_zone_to taken z (m.zones z.id) m
  serve_maps out taken (add_unit p) m =
      and_then (unit_create out p, m)
        λ q m. add_unit_to taken q (m.zones q.zone_id) (m.units q.id) m
  serve_maps out taken (change i p) m =
      if setpoint_in_range p.target_temp
      then change_in taken i p (m.units i) m
      else (raised validation_error, m)
  serve_maps out taken (remove i) m = remove_from taken i (m.units i) m
  serve_maps out taken (command i cmd) m =
      and_then (control_command cmd, m) λ cmd m. command_in out.uuid i cmd (m.units i) m
