-- ===== src/Devices/Status.antt =====
-- The endpoints of the device service that only read (main.py, `list_units` and `zone_status`).
use centralized_hvac_system.Prelude.{
  ℕ, String, Bool, true, false, ◌&&◌, ◌||◌, Option, none, some, List, [], ◌∷◌, ◌==◌, if◌then◌else◌,
  select, length, nat_eq,
}
use centralized_hvac_system.Prelude.Int.{pos}
use centralized_hvac_system.Prelude.Result.{ok, Exec}
use centralized_hvac_system.Float.{Float}
use centralized_hvac_system.Models.{UnitStatus, fault, offline, status_text}
use centralized_hvac_system.Devices.{AcUnit, Server, found, zone_at}

unfoldable pub has_status : Option UnitStatus → UnitStatus → Bool
unfolding status_text
has_status none s = true
has_status (some wanted) s = status_text s == status_text wanted

-- An empty zone identifier filters nothing.
unfoldable pub in_zone : Option String → String → Bool
in_zone none z = true
in_zone (some wanted) z = wanted == "" || z == wanted

unfoldable pub is_online : UnitStatus → Bool
is_online offline = false
is_online fault = false
is_online s = true

module _ {F J : Type 0} where
  -- `list_units`
  unfoldable pub list_units : Option String → Option UnitStatus → Server F J → List (AcUnit F J)
  unfolding has_status in_zone
  list_units zone_id status s =
      select (λ u. in_zone zone_id u.zone_id && has_status status u.status) s.tables.units

pub record ZoneStatus (F : Type 0) : Type 0 where
  pub zone_id : String
  pub zone_name : String
  pub total_units : ℕ
  pub online_units : ℕ
  pub avg_temperature : F
  pub total_power_w : F
  pub target_temp : F

module _ {F J : Type 0} ⦃fl : Float F⦄ where
  -- `sum(u.current_temp for u in online if u.current_temp)`, where adding 0.0 changes nothing
  unfoldable pub sum_temps : List (AcUnit F J) → F → F
  sum_temps [] total = total
  sum_temps (u ∷ us) total = elim u.current_temp [
    | none ↦ sum_temps us total
    | some t ↦ sum_temps us (fl.add total t)
  ]

  unfoldable pub sum_power : List (AcUnit F J) → F → F
  sum_power [] total = total
  sum_power (u ∷ us) total = sum_power us (fl.add total u.power_consumption_w)

  -- `zone_status`
  unfoldable pub zone_status : String → Exec (Server F J) (ZoneStatus F)
  unfolding is_online sum_temps sum_power
  zone_status zone_id s =
      found 404 (zone_at zone_id s.tables.zones)
        (λ zone s.
          let units = select (λ u. u.zone_id == zone_id) s.tables.units in
          let online = select (λ u. is_online u.status) units in
          let n = if nat_eq (length online) 0 then 1 else length online in
          (
            ok (record {
              zone_id = zone_id;
              zone_name = zone.name;
              total_units = length units;
              online_units = length online;
              avg_temperature =
                  fl.round_to (fl.div (sum_temps online (fl.dec 0 0)) (fl.of_int (pos n))) 2;
              total_power_w = fl.round_to (sum_power units (fl.dec 0 0)) 2;
              target_temp = zone.target_temp;
            }),
            s,
          ))
        s
