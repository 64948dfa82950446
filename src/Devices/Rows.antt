-- ===== src/Devices/Rows.antt =====
-- What the endpoints of the device service (main.py) do to the keys of the rows.
use mathlib.Core.Path.{subst}
use centralized_hvac_system.Prelude.{
  String, ◌≡◌, refl, ◌∙◌, true, false, none, some, is_some, List, [], ◌∷◌, ◌++◌, ◌==◌, eq_iff,
  arith, All, Bool-cases, inl, inr,
}
use centralized_hvac_system.Devices.{Zone, AcUnit, Tables, zone_at, unit_at, put_unit, drop_unit}
use centralized_hvac_system.Devices.Keys.{
  unit_at-append, unit_at-drop_unit, zone_at-append, put_unit-absent,
}

-- No identifier stands twice.
abbrev pub DistinctZones : {F : Type 0} → List (Zone F) → Type 0
DistinctZones [] = Unit
DistinctZones (z ∷ zs) = (zone_at z.id zs ≡ none) × DistinctZones zs

pub DistinctZones-append :
    {F : Type 0} (zs : List (Zone F)) (z : Zone F)
    → zone_at z.id zs ≡ none
    → DistinctZones zs
    → DistinctZones (zs ++ z ∷ [])
unfolding zone_at
DistinctZones-append [] z h d = (refl, tt)
DistinctZones-append (x ∷ zs) z h (new, d) = elim (Bool-cases (x.id == z.id)) [
  | inl same ↦ absurd (cc)
  | inr other ↦
      let free : zone_at z.id zs ≡ none = rw other at h in
      let more = zone_at-append x.id zs z free in
      let apart : (z.id == x.id) ≡ false = ground (arith, eq_iff x.id z.id, eq_iff z.id x.id) in
      ((rw apart at more) ∙ new, DistinctZones-append zs z free d)
]

module _ {F J : Type 0} where
  abbrev pub DistinctUnits : List (AcUnit F J) → Type 0
  DistinctUnits [] = Unit
  DistinctUnits (u ∷ us) = (unit_at u.id us ≡ none) × DistinctUnits us

  -- The zone of the unit is there.
  abbrev pub IsHoused : List (Zone F) → AcUnit F J → Type 0
  IsHoused zs u = is_some (zone_at u.zone_id zs) ≡ true

  pub record IsSound (t : Tables F J) : Type 0 where
    pub zone_keys : DistinctZones t.zones
    pub unit_keys : DistinctUnits t.units
    pub housed : All (IsHoused t.zones) t.units

  pub DistinctUnits-append :
      (us : List (AcUnit F J)) (u : AcUnit F J)
      → unit_at u.id us ≡ none
      → DistinctUnits us
      → DistinctUnits (us ++ u ∷ [])
  unfolding unit_at
  DistinctUnits-append [] u h d = (refl, tt)
  DistinctUnits-append (x ∷ us) u h (new, d) = elim (Bool-cases (x.id == u.id)) [
    | inl same ↦ absurd (cc)
    | inr other ↦
        let free : unit_at u.id us ≡ none = rw other at h in
        let more = unit_at-append x.id us u free in
        let apart : (u.id == x.id) ≡ false = ground (arith, eq_iff x.id u.id, eq_iff u.id x.id) in
        ((rw apart at more) ∙ new, DistinctUnits-append us u free d)
  ]

  pub DistinctUnits-put_unit :
      (new : AcUnit F J) (us : List (AcUnit F J))
      → DistinctUnits us
      → DistinctUnits (put_unit new us)
  unfolding put_unit
  DistinctUnits-put_unit new [] d = tt
  DistinctUnits-put_unit new (x ∷ us) (free, d) =
      let rest = DistinctUnits-put_unit new us d in
      let still = put_unit-absent x.id new us free in
      elim (Bool-cases (x.id == new.id)) [
        | inl same ↦
            let e = (eq_iff x.id new.id).0 same in
            rw same (subst (λ i. unit_at i (put_unit new us) ≡ none) e still, rest)
        | inr other ↦ rw other (still, rest)
      ]

  pub DistinctUnits-drop_unit :
      (i : String) (us : List (AcUnit F J)) → DistinctUnits us → DistinctUnits (drop_unit i us)
  unfolding drop_unit
  DistinctUnits-drop_unit i [] d = tt
  DistinctUnits-drop_unit i (x ∷ us) (free, d) =
      let rest = DistinctUnits-drop_unit i us d in
      let still = unit_at-drop_unit x.id i us in
      elim (Bool-cases (x.id == i)) [
        | inl same ↦ rw same rest
        | inr other ↦ rw other (ground (arith, still, eq_iff i x.id, eq_iff x.id i), rest)
      ]

  pub All-append :
      (P : AcUnit F J → Type 0) (us : List (AcUnit F J)) (u : AcUnit F J)
      → All P us
      → P u
      → All P (us ++ u ∷ [])
  All-append P [] u h k = (k, tt)
  All-append P (x ∷ us) u (p, h) k = (p, All-append P us u h k)

  pub All-put_unit :
      (P : AcUnit F J → Type 0) (new : AcUnit F J) (us : List (AcUnit F J))
      → All P us
      → P new
      → All P (put_unit new us)
  unfolding put_unit
  All-put_unit P new [] h k = tt
  All-put_unit P new (x ∷ us) (p, h) k =
      let rest = All-put_unit P new us h k in
      elim (Bool-cases (x.id == new.id)) [
        | inl same ↦ rw same (k, rest)
        | inr other ↦ rw other (p, rest)
      ]

  pub All-drop_unit :
      (P : AcUnit F J → Type 0) (i : String) (us : List (AcUnit F J))
      → All P us
      → All P (drop_unit i us)
  unfolding drop_unit
  All-drop_unit P i [] h = tt
  All-drop_unit P i (x ∷ us) (p, h) =
      let rest = All-drop_unit P i us h in
      elim (Bool-cases (x.id == i)) [ inl same ↦ rw same rest | inr other ↦ rw other (p, rest) ]

  pub All-IsHoused_more :
      (z : Zone F) (zs : List (Zone F)) (us : List (AcUnit F J))
      → zone_at z.id zs ≡ none
      → All (IsHoused zs) us
      → All (IsHoused (zs ++ z ∷ [])) us
  All-IsHoused_more z zs [] free h = tt
  All-IsHoused_more z zs (u ∷ us) free (p, h) =
      let more = zone_at-append u.zone_id zs z free in
      (ground (arith, more), All-IsHoused_more z zs us free h)

  pub All-unit_at :
      (P : AcUnit F J → Type 0) (i : String) (us : List (AcUnit F J)) (u : AcUnit F J)
      → All P us
      → unit_at i us ≡ some u
      → P u
  unfolding unit_at
  All-unit_at P i [] u h e = absurd (cc)
  All-unit_at P i (x ∷ us) u (p, h) e = elim (Bool-cases (x.id == i)) [
    | inl same ↦ let is_it : x ≡ u = cc in subst P is_it p
    | inr other ↦ All-unit_at P i us u h (rw other at e)
  ]
