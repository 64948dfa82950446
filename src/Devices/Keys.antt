-- ===== src/Devices/Keys.antt =====
-- The keys of the tables of the device service (main.py, models.py): what the endpoints do to the
-- rows.
use mathlib.Core.Path.{subst}
use centralized_hvac_system.Prelude.{
  String, ◌≡◌, refl, true, false, none, some, is_some, List, [], ◌∷◌, ◌++◌, ◌==◌, eq_iff, eq_refl,
  arith, if◌then◌else◌, Bool-cases, inl, inr,
}
use centralized_hvac_system.Devices.{Zone, AcUnit, zone_at, unit_at, put_unit, drop_unit}

module _ {F J : Type 0} where
  pub unit_at-append :
      (i : String) (us : List (AcUnit F J)) (u : AcUnit F J)
      → unit_at u.id us ≡ none
      → unit_at i (us ++ u ∷ []) ≡ (if u.id == i then some u else unit_at i us)
  unfolding unit_at
  unit_at-append i [] u h = refl
  unit_at-append i (x ∷ us) u h =
      let ih = unit_at-append i us u in
      ground (arith, eq_iff x.id i, eq_iff u.id i, eq_iff x.id u.id, ih)

  put_unit-other :
      (i : String) (new : AcUnit F J) (us : List (AcUnit F J))
      → (new.id == i) ≡ false
      → unit_at i (put_unit new us) ≡ unit_at i us
  unfolding unit_at put_unit
  put_unit-other i new [] h = refl
  put_unit-other i new (x ∷ us) h =
      ground (arith, eq_iff x.id i, eq_iff x.id new.id, eq_iff new.id i, put_unit-other i new us h)

  -- What is not in the table is not in it after an update.
  pub put_unit-absent :
      (i : String) (new : AcUnit F J) (us : List (AcUnit F J))
      → unit_at i us ≡ none
      → unit_at i (put_unit new us) ≡ none
  unfolding unit_at put_unit
  put_unit-absent i new [] h = refl
  put_unit-absent i new (x ∷ us) h =
      let ih = put_unit-absent i new us in
      ground (arith, eq_iff x.id i, eq_iff x.id new.id, eq_iff new.id i, ih)

  put_unit_self :
      (new : AcUnit F J) (us : List (AcUnit F J))
      → is_some (unit_at new.id us) ≡ true
      → unit_at new.id (put_unit new us) ≡ some new
  unfolding unit_at put_unit
  put_unit_self new [] h = cc
  put_unit_self new (x ∷ us) h =
      let ih = put_unit_self new us in ground (arith, eq_iff x.id new.id, eq_refl new.id, ih)

  pub unit_at-put_unit :
      (i : String) (new : AcUnit F J) (us : List (AcUnit F J))
      → is_some (unit_at new.id us) ≡ true
      → unit_at i (put_unit new us) ≡ (if new.id == i then some new else unit_at i us)
  unit_at-put_unit i new us h = elim (Bool-cases (new.id == i)) [
    | inl same ↦ rw same (
        subst (λ j. unit_at j (put_unit new us) ≡ some new) ((eq_iff new.id i).0 same)
          (put_unit_self new us h))
    | inr other ↦ rw other (put_unit-other i new us other)
  ]

  pub unit_at-drop_unit :
      (i j : String) (us : List (AcUnit F J))
      → unit_at i (drop_unit j us) ≡ (if j == i then none else unit_at i us)
  unfolding unit_at drop_unit
  unit_at-drop_unit i j [] = ground arith
  unit_at-drop_unit i j (x ∷ us) =
      ground (arith, eq_iff x.id i, eq_iff j i, eq_iff x.id j, unit_at-drop_unit i j us)

  pub unit_at-id :
      (i : String) (us : List (AcUnit F J)) (u : AcUnit F J) → unit_at i us ≡ some u → u.id ≡ i
  unfolding unit_at
  unit_at-id i [] u h = cc
  unit_at-id i (x ∷ us) u h = ground (arith, eq_iff x.id i, unit_at-id i us u)

pub zone_at-append :
    {F : Type 0} (i : String) (zs : List (Zone F)) (z : Zone F)
    → zone_at z.id zs ≡ none
    → zone_at i (zs ++ z ∷ []) ≡ (if z.id == i then some z else zone_at i zs)
unfolding zone_at
zone_at-append i [] z h = refl
zone_at-append i (x ∷ zs) z h =
    ground (arith, eq_iff x.id i, eq_iff z.id i, eq_iff x.id z.id, zone_at-append i zs z)
