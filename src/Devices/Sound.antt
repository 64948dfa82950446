-- ===== src/Devices/Sound.antt =====
-- The tables of the device service under its requests (main.py).
use mathlib.Core.Path.{subst}
use centralized_hvac_system.Prelude.{
  String, ◌≡◌, refl, sym, true, some, is_some, List, [], ◌∷◌, ◌++◌, Bool-cases, Option-cases, inl,
  inr,
}
use centralized_hvac_system.Prelude.Result.{Result, ok, raised, and_then_keeps, Result-cases}
use centralized_hvac_system.Float.{Float}
use centralized_hvac_system.Models.{ControlCommand, setpoint_in_range, control_command}
use centralized_hvac_system.Devices.{
  Zone, AcUnit, AcUnitCreate, AcUnitUpdate, Tables, Server, Outside, zone_at, unit_at, found,
  absent, commit, put_unit, drop_unit, create_zone, new_unit, unit_create, register, register_unit,
  apply_update, update_valid, update_unit, deregister_unit,
}
use centralized_hvac_system.Devices.Command.{send_command, issue, is_offline}
use centralized_hvac_system.Devices.Registry.{
  Request, add_zone, add_unit, change, remove, command, Answer, serve, answered,
}
use centralized_hvac_system.Devices.Rows.{
  IsHoused, IsSound, DistinctZones-append, DistinctUnits-append, DistinctUnits-put_unit,
  DistinctUnits-drop_unit, All-append, All-put_unit, All-drop_unit, All-IsHoused_more, All-unit_at,
}

module _ {F J : Type 0} where
  -- A unit that is moved is moved to a zone that is there.
  abbrev pub MovesWell : Request F J → Tables F J → Type 0
  MovesWell (change i p) t = (z : String) → p.zone_id ≡ some z → is_some (zone_at z t.zones) ≡ true
  MovesWell r t = Unit

  answered-keeps :
      {A : Type 0} (P : Tables F J → Type 0) (f : A → Answer F J) (r : Result A × Server F J)
      → P r.1.tables
      → P (answered f r).1.tables
  answered-keeps P f (ok a, s) h = h
  answered-keeps P f (raised e, s) h = h

module _ {F J : Type 0} (out : Outside F J) where
  commit-IsSound :
      {A : Type 0} (a : A) (t : Tables F J) (s : Server F J)
      → IsSound s.tables
      → IsSound t
      → IsSound (commit out a t s).1.tables
  unfolding commit
  commit-IsSound a t s h k = elim (Bool-cases (out.accepts t)) [
    | inl accepted ↦ rw accepted k
    | inr refused ↦ rw refused h
  ]

  create_zone-IsSound :
      (z : Zone F) (s : Server F J) → IsSound s.tables → IsSound (create_zone out z s).1.tables
  unfolding create_zone absent
  create_zone-IsSound z s h = elim (Option-cases (zone_at z.id s.tables.zones)) [
    | inl free ↦ rw free (
        commit-IsSound z (record s.tables { zones = s.tables.zones ++ z ∷ [] }) s h
          (record {
            zone_keys = DistinctZones-append s.tables.zones z free h.zone_keys;
            unit_keys = h.unit_keys;
            housed = All-IsHoused_more z s.tables.zones s.tables.units free h.housed;
          }))
    | inr (old, taken) ↦ rw taken h
  ]

  deregister_unit-IsSound :
      (i : String) (s : Server F J) → IsSound s.tables → IsSound (deregister_unit out i s).1.tables
  unfolding deregister_unit found
  deregister_unit-IsSound i s h = elim (Option-cases (unit_at i s.tables.units)) [
    | inl unknown ↦ rw unknown h
    | inr (u, known) ↦ rw known (
        commit-IsSound u (record s.tables { units = drop_unit i s.tables.units }) s h
          (record {
            zone_keys = h.zone_keys;
            unit_keys = DistinctUnits-drop_unit i s.tables.units h.unit_keys;
            housed = All-drop_unit (IsHoused s.tables.zones) i s.tables.units h.housed;
          }))
  ]

  apply_update-IsHoused :
      (p : AcUnitUpdate F J) (u : AcUnit F J) (zs : List (Zone F))
      → IsHoused zs u
      → ((z : String) → p.zone_id ≡ some z → is_some (zone_at z zs) ≡ true)
      → IsHoused zs (apply_update p u)
  unfolding apply_update
  apply_update-IsHoused p u zs h k = elim (Option-cases p.zone_id) [
    | inl stays ↦ rw stays h
    | inr (z, moves) ↦ rw moves (k z moves)
  ]

  update_valid-IsSound :
      (i : String) (p : AcUnitUpdate F J) (s : Server F J)
      → IsSound s.tables
      → ((z : String) → p.zone_id ≡ some z → is_some (zone_at z s.tables.zones) ≡ true)
      → IsSound (update_valid out i p s).1.tables
  unfolding update_valid found
  update_valid-IsSound i p s h k = elim (Option-cases (unit_at i s.tables.units)) [
    | inl unknown ↦ rw unknown h
    | inr (u, known) ↦
        let u' = apply_update p u in
        let lives = All-unit_at (IsHoused s.tables.zones) i s.tables.units u h.housed known in
        rw known (
          commit-IsSound u' (record s.tables { units = put_unit u' s.tables.units }) s h
            (record {
              zone_keys = h.zone_keys;
              unit_keys = DistinctUnits-put_unit u' s.tables.units h.unit_keys;
              housed =
                  All-put_unit (IsHoused s.tables.zones) u' s.tables.units h.housed
                    (apply_update-IsHoused p u s.tables.zones lives k);
            }))
  ]

module _ {F J : Type 0} ⦃fl : Float F⦄ (out : Outside F J) where
  register-IsSound :
      (p : AcUnitCreate F J) (s : Server F J)
      → IsSound s.tables
      → IsSound (register out p s).1.tables
  unfolding register found absent new_unit
  register-IsSound p s h = elim (Option-cases (zone_at p.zone_id s.tables.zones)) [
    | inl nowhere ↦ rw nowhere h
    | inr (z, there) ↦ elim (Option-cases (unit_at p.id s.tables.units)) [
      | inr (old, taken) ↦ rw there (rw taken h)
      | inl free ↦
          let lives : IsHoused s.tables.zones (new_unit p) = rw there refl in
          rw there (
            rw free (
              commit-IsSound out (new_unit p)
                (record s.tables { units = s.tables.units ++ new_unit p ∷ [] }) s h
                (record {
                  zone_keys = h.zone_keys;
                  unit_keys = DistinctUnits-append s.tables.units (new_unit p) free h.unit_keys;
                  housed =
                      All-append (IsHoused s.tables.zones) s.tables.units (new_unit p) h.housed
                        lives;
                })))
    ]
  ]

  send_command-tables :
      (i : String) (cmd : ControlCommand F) (s : Server F J)
      → (send_command out i cmd s).1.tables ≡ s.tables
  unfolding send_command found issue
  send_command-tables i cmd s = elim (Result-cases (control_command cmd)) [
    | inr (e, invalid) ↦ rw invalid refl
    | inl (c, valid) ↦ elim (Option-cases (unit_at i s.tables.units)) [
      | inl unknown ↦ rw valid (rw unknown refl)
      | inr (u, known) ↦ elim (Bool-cases (is_offline u.status)) [
        | inl away ↦ rw valid (rw known (rw away refl))
        | inr here ↦ rw valid (rw known (rw here refl))
      ]
    ]
  ]

  -- Whatever the database would accept, the endpoints themselves keep every identifier of a zone
  -- and of a unit unique and every unit in a zone that is there, provided that an update moves a
  -- unit only to a zone that is there.
  pub serve-IsSound :
      (r : Request F J) (s : Server F J)
      → IsSound s.tables
      → MovesWell r s.tables
      → IsSound (serve out r s).1.tables
  unfolding serve register_unit update_unit
  serve-IsSound (add_zone z) s h k =
      answered-keeps IsSound _ (create_zone out z s) (create_zone-IsSound out z s h)
  serve-IsSound (add_unit p) s h k = answered-keeps IsSound _ (register_unit out p s) (
      and_then_keeps (λ s. IsSound s.tables) (unit_create out p, s) (register out) h
        (λ q e. register-IsSound q s h))
  serve-IsSound (change i p) s h k =
      answered-keeps IsSound _ (update_unit out i p s)
        (elim (Bool-cases (setpoint_in_range p.target_temp)) [
          | inl valid ↦ rw valid (update_valid-IsSound out i p s h k)
          | inr invalid ↦ rw invalid h
        ])
  serve-IsSound (remove i) s h k =
      answered-keeps IsSound _ (deregister_unit out i s) (deregister_unit-IsSound out i s h)
  serve-IsSound (command i cmd) s h k =
      answered-keeps IsSound _ (send_command out i cmd s)
        (subst IsSound (sym (send_command-tables i cmd s)) h)
