-- ===== src/Gateway/Balancer/Idlest.antt =====
-- The choice of `LocalLoadBalancer.evaluate` (gateway.py).
use mathlib.Core.Path.{subst}
use centralized_hvac_system.Prelude.{
  ◌+◌, String, ◌≡◌, refl, sym, ap, Bool, true, false, Option, some, List, [], ◌∷◌, ◌++◌, All, Among,
  arith, inl, inr, select, length, leb, if◌then◌else◌, Bool-cases, ◌≤◌,
}
use centralized_hvac_system.Prelude.Int.{pos}
use centralized_hvac_system.Prelude.Result.{ok}
use centralized_hvac_system.Float.{Float, IsOrdered}
use centralized_hvac_system.Dict.{Dict, lookup, insert}
use centralized_hvac_system.Gateway.Adapter.{RawTelemetry, Adapter, modbus, switch}
use centralized_hvac_system.Gateway.Modbus.{
  Bus, ModbusAdapter, ensure_connected, write_register, write_on_off_to,
}
use centralized_hvac_system.Gateway.Balancer.{
  threshold, is_overloaded, idlest, resting, activate, balance, switch_on,
}

module _ {F : Type 0} ⦃fl : Float F⦄ where
  -- The load is no NaN.
  abbrev pub IsMeasured : RawTelemetry F → Type 0
  IsMeasured r = fl.le r.load r.load ≡ true

  -- No reading of the list has a lower load.
  abbrev pub IsLeast : RawTelemetry F → List (RawTelemetry F) → Type 0
  IsLeast m rs = All (λ r. fl.le m.load r.load ≡ true) rs

  -- A Modbus adapter that is connected and whose next write goes through.
  abbrev pub IsReady : Option (Adapter F) → Type 0
  IsReady o =
      (bus : Bus F) × (a : ModbusAdapter) × (o ≡ some (modbus bus a))
      × (a.connected ≡ true)
      × (bus.accepts a.requests ≡ ok tt)

  write-ready :
      (bus : Bus F) (a : ModbusAdapter)
      → a.connected ≡ true
      → bus.accepts a.requests ≡ ok tt
      → write_on_off_to bus true a
        ≡ (ok tt, record a { requests = a.requests + 1; writes = a.writes ++ (18, pos 1) ∷ [] })
  unfolding write_on_off_to ensure_connected write_register
  write-ready bus a up fine = ground arith

  activate-ready :
      (now : F) (i : String) (last : Dict F) (adapters : Dict (Adapter F)) (bus : Bus F)
      (a : ModbusAdapter)
      → lookup i adapters ≡ some (modbus bus a)
      → a.connected ≡ true
      → bus.accepts a.requests ≡ ok tt
      → activate now i (last, adapters) ≡ (
        ok tt,
        (
          insert "default" now last,
          insert i
              (modbus bus
                (record a { requests = a.requests + 1; writes = a.writes ++ (18, pos 1) ∷ [] }))
              adapters,
        ),
      )
  unfolding activate switch_on switch
  activate-ready now i last adapters bus a found up fine = ground (arith, write-ready bus a up fine)

All-Among : {A : Type 0} (P : A → Type 0) (x : A) (l : List A) → All P l → Among x l → P x
All-Among P x [] h a = absurd a
All-Among P x (y ∷ l) h (inl e) = subst P (sym e) h.0
All-Among P x (y ∷ l) h (inr a) = All-Among P x l h.1 a

module _ {F : Type 0} ⦃fl : Float F⦄ (laws : IsOrdered F) where
  idlest-cons :
      (best r : RawTelemetry F) (rs : List (RawTelemetry F)) (b : Bool)
      → fl.lt r.load best.load ≡ b
      → idlest best (r ∷ rs) ≡ idlest (if b then r else best) rs
  unfolding idlest
  idlest-cons best r rs b e = ap (λ b'. idlest (if b' then r else best) rs) e

  -- The search returns one of its readings, no higher than the one it holds.
  idlest_lem :
      (best : RawTelemetry F) (rs : List (RawTelemetry F))
      → IsMeasured best
      → All IsMeasured rs
      → Among (idlest best rs) (best ∷ rs) × IsLeast (idlest best rs) (best ∷ rs)
  idlest_lem best [] h k = unfold idlest in (inl refl, (h, tt))
  idlest_lem best (r ∷ rs) h k =
      let P : RawTelemetry F → Type 0 = λ m. Among m (best ∷ r ∷ rs) × IsLeast m (best ∷ r ∷ rs) in
      elim (Bool-cases (fl.lt r.load best.load)) [
        | inl lower ↦
            let (a, l) = idlest_lem r rs k.0 k.1 in
            let under : fl.le r.load best.load ≡ true =
              ground (arith, laws.lt_le r.load best.load) in
            subst P (sym (idlest-cons best r rs true lower))
              (inr a, (laws.le_trans (idlest r rs).load r.load best.load l.0 under, l))
        | inr other ↦
            let (a, l) = idlest_lem best rs h k.1 in
            let over : fl.le best.load r.load ≡ true =
              ground (arith, laws.lt_le r.load best.load, laws.le_total r.load best.load k.0 h) in
            subst P (sym (idlest-cons best r rs false other)) (
              (elim a [ inl here ↦ inl here | inr there ↦ inr (inr there) ]),
              (l.0, (laws.le_trans (idlest best rs).load best.load r.load l.0 over, l.1)),
            )
      ]

  -- When it is not resting, no load is NaN, three or more readings are at 90 or over, and every unit
  -- read has a Modbus adapter that is connected and whose next write goes through: the balancer
  -- writes 1 to register 18 of a unit among those read whose load no other is below, and nothing to
  -- any other adapter, and notes the time.
  pub balance-IsLeast :
      (now : F) (r : RawTelemetry F) (rs : List (RawTelemetry F)) (last : Dict F)
      (adapters : Dict (Adapter F))
      → All IsMeasured (r ∷ rs)
      → resting now last ≡ false
      → 3 ≤ length (select is_overloaded (r ∷ rs))
      → All (λ t. IsReady (lookup t.unit_id adapters)) (r ∷ rs)
      → (m : RawTelemetry F) × (bus : Bus F) × (a : ModbusAdapter) × Among m (r ∷ rs)
        × IsLeast m (r ∷ rs)
        × (lookup m.unit_id adapters ≡ some (modbus bus a))
        × (balance now (r ∷ rs) (last, adapters) ≡ (
          ok tt,
          (
            insert "default" now last,
            insert m.unit_id
                (modbus bus
                  (record a { requests = a.requests + 1; writes = a.writes ++ (18, pos 1) ∷ [] }))
                adapters,
          ),
        ))
  unfolding balance
  balance-IsLeast now r rs last adapters h idle many ready =
      let (among, l) = idlest_lem r rs h.0 h.1 in
      let test : leb threshold (length (select is_overloaded (r ∷ rs))) ≡ true = ground arith in
      let (bus, a, found, up, fine) =
        All-Among (λ t. IsReady (lookup t.unit_id adapters)) (idlest r rs) (r ∷ rs) ready among in
      (
        idlest r rs,
        bus,
        a,
        among,
        l,
        found,
        rw (idle, test)
            (activate-ready now (idlest r rs).unit_id last adapters bus a found up fine),
      )
