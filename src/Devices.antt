-- ===== src/Devices.antt =====
-- The device service (main.py) with its tables and schemas (models.py): zones, units, and the
-- endpoints that read and change them. A request is one transaction on PostgreSQL.
pub mod Status
pub mod Keys
pub mod Registry
pub mod Rows
pub mod Sound
pub mod Command
use centralized_hvac_system.Prelude.{
  ℕ, ◌+◌, String, Bool, true, false, not, ◌&&◌, ◌||◌, Option, none, some, or_else, List, [], ◌∷◌,
  ◌++◌, ◌==◌, if◌then◌else◌, select, leb, map,
}
use centralized_hvac_system.Prelude.Result.{
  Result, ok, raised, Exception, http_error, integrity_error, validation_error, Exec, and_then,
}
use centralized_hvac_system.Float.{Float}
use centralized_hvac_system.Models.{
  UnitStatus, on, off, fault, offline, standby, FanSpeed, auto, ControlCommand, control_command,
  setpoint_in_range,
}

-- `F` is a float and `J` a JSON value.
pub record Zone (F : Type 0) : Type 0 where
  pub id : String
  pub name : String
  pub building : Option String
  pub floor : Option String
  pub area_sqm : Option F
  pub target_temp : F

pub record AcUnit (F J : Type 0) : Type 0 where
  pub id : String
  pub zone_id : String
  pub name : String
  pub model : Option String
  pub capacity_kw : F
  pub status : UnitStatus
  pub current_temp : Option F
  pub target_temp : F
  pub fan_speed : FanSpeed
  pub load_percentage : F
  pub power_consumption_w : F
  pub last_seen : Option F
  pub tags : J

pub record AcUnitCreate (F J : Type 0) : Type 0 where
  pub id : String
  pub zone_id : String
  pub name : String
  pub model : Option String
  pub capacity_kw : F
  pub target_temp : F
  pub tags : J

pub record AcUnitUpdate (F J : Type 0) : Type 0 where
  pub name : Option String
  pub zone_id : Option String
  pub target_temp : Option F
  pub fan_speed : Option FanSpeed
  pub tags : Option J

-- The tables in the order of insertion; of the alerts only the units that they refer to.
pub record Tables (F J : Type 0) : Type 0 where
  pub zones : List (Zone F)
  pub units : List (AcUnit F J)
  pub alerted : List String

-- The service: its tables, what it has published, and the identifiers that it has drawn.
pub record Server (F J : Type 0) : Type 0 where
  pub tables : Tables F J
  pub outbox : List (String × ControlCommand F)
  pub identifiers : ℕ

-- What comes from outside: PostgreSQL's check of the declared keys when a transaction ends, a
-- regular expression's match with a length between two bounds, and uuid4.
pub record Outside (F J : Type 0) : Type 0 where
  pub accepts : Tables F J → Bool
  pub fits : ℕ → ℕ → String → String → Bool
  pub uuid : ℕ → String

-- `if not found: raise HTTPException(status_code)`
unfoldable pub found : {S A B : Type 0} → ℕ → Option A → (A → Exec S B) → Exec S B
found status_code none k s = (raised (http_error status_code), s)
found status_code (some a) k s = k a s

-- `if existing: raise HTTPException(status_code)`
unfoldable pub absent : {S A B : Type 0} → ℕ → Option A → Exec S B → Exec S B
absent status_code none k s = k s
absent status_code (some a) k s = (raised (http_error status_code), s)

-- `db.get(ZoneORM, id)` and `db.get(ACUnitORM, id)`
unfoldable pub zone_at : {F : Type 0} → String → List (Zone F) → Option (Zone F)
zone_at i [] = none
zone_at i (z ∷ zs) = if z.id == i then some z else zone_at i zs

unfoldable pub unit_at : {F J : Type 0} → String → List (AcUnit F J) → Option (AcUnit F J)
unit_at i [] = none
unit_at i (u ∷ us) = if u.id == i then some u else unit_at i us

module _ {F J : Type 0} where
  -- `db.commit()`: the database takes the changed tables, or keeps the old ones and refuses
  unfoldable pub commit : {A : Type 0} → Outside F J → A → Tables F J → Exec (Server F J) A
  commit out a t s =
      if out.accepts t then (ok a, record s { tables = t }) else (raised integrity_error, s)

  -- `create_zone`
  unfoldable pub create_zone : Outside F J → Zone F → Exec (Server F J) (Zone F)
  create_zone out zone s =
      absent 409 (zone_at zone.id s.tables.zones)
        (commit out zone (record s.tables { zones = s.tables.zones ++ zone ∷ [] })) s

  -- `get_unit`
  unfoldable pub get_unit : String → Exec (Server F J) (AcUnit F J)
  get_unit unit_id s = found 404 (unit_at unit_id s.tables.units) (λ unit s. (ok unit, s)) s

  -- The loop of `update_unit`: the fields that were given.
  unfoldable pub apply_update : AcUnitUpdate F J → AcUnit F J → AcUnit F J
  apply_update p u = record u {
    name = or_else p.name u.name;
    zone_id = or_else p.zone_id u.zone_id;
    target_temp = or_else p.target_temp u.target_temp;
    fan_speed = or_else p.fan_speed u.fan_speed;
    tags = or_else p.tags u.tags;
  }

  -- The row of the unit, written over.
  unfoldable pub put_unit : AcUnit F J → List (AcUnit F J) → List (AcUnit F J)
  put_unit new [] = []
  put_unit new (u ∷ us) =
      let rest = put_unit new us in if u.id == new.id then new ∷ rest else u ∷ rest

  -- `update_unit`, after the validation of its payload
  unfoldable pub update_valid :
      Outside F J → String → AcUnitUpdate F J → Exec (Server F J) (AcUnit F J)
  update_valid out unit_id p s =
      found 404 (unit_at unit_id s.tables.units)
        (λ unit.
          let unit' = apply_update p unit in
          commit out unit' (record s.tables { units = put_unit unit' s.tables.units }))
        s

  -- The rows without the unit's.
  unfoldable pub drop_unit : String → List (AcUnit F J) → List (AcUnit F J)
  drop_unit unit_id us = select (λ u. not (u.id == unit_id)) us

  -- `deregister_unit`
  unfoldable pub deregister_unit : Outside F J → String → Exec (Server F J) (AcUnit F J)
  deregister_unit out unit_id s =
      found 404 (unit_at unit_id s.tables.units)
        (λ unit. commit out unit (record s.tables { units = drop_unit unit_id s.tables.units })) s

module _ {F J : Type 0} ⦃fl : Float F⦄ where
  -- The constraints of the fields of `ACUnitCreate`.
  unfoldable pub unit_create : Outside F J → AcUnitCreate F J → Result (AcUnitCreate F J)
  unit_create out p =
      if out.fits 3 64 "^[a-zA-Z0-9_-]+$" p.id
        && fl.lt (fl.dec 0 0) p.capacity_kw
        && fl.le p.capacity_kw (fl.dec 1000 0)
        && fl.le (fl.dec 16 0) p.target_temp
        && fl.le p.target_temp (fl.dec 32 0)
      then ok p
      else raised validation_error

  -- `ACUnitORM(...)` with the defaults of its columns
  unfoldable pub new_unit : AcUnitCreate F J → AcUnit F J
  new_unit p = record {
    id = p.id;
    zone_id = p.zone_id;
    name = p.name;
    model = p.model;
    capacity_kw = p.capacity_kw;
    status = offline;
    current_temp = none;
    target_temp = p.target_temp;
    fan_speed = auto;
    load_percentage = fl.dec 0 0;
    power_consumption_w = fl.dec 0 0;
    last_seen = none;
    tags = p.tags;
  }

  -- `register_unit`, after the validation of its payload and with it
  unfoldable pub register : Outside F J → AcUnitCreate F J → Exec (Server F J) (AcUnit F J)
  register out p s =
      found 404 (zone_at p.zone_id s.tables.zones)
        (λ zone.
          absent 409 (unit_at p.id s.tables.units) (
            commit out (new_unit p)
              (record s.tables { units = s.tables.units ++ new_unit p ∷ [] })))
        s

  unfoldable pub register_unit : Outside F J → AcUnitCreate F J → Exec (Server F J) (AcUnit F J)
  register_unit out p s = and_then (unit_create out p, s) (register out)

  -- `update_unit` with the constraint of `ACUnitUpdate`
  unfoldable pub update_unit :
      Outside F J → String → AcUnitUpdate F J → Exec (Server F J) (AcUnit F J)
  update_unit out unit_id p s =
      if setpoint_in_range p.target_temp
      then update_valid out unit_id p s
      else (raised validation_error, s)
