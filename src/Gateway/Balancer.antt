-- ===== src/Gateway/Balancer.antt =====
-- The local load balancer of the edge gateway (gateway.py, `LocalLoadBalancer`).
pub mod Idlest
use centralized_hvac_system.Prelude.{
  ℕ, String, Bool, true, false, Option, none, some, List, [], ◌∷◌, ◌++◌, select, length, leb,
  if◌then◌else◌, or_else,
}
use centralized_hvac_system.Prelude.Result.{ok, Exec, and_then}
use centralized_hvac_system.Float.{Float}
use centralized_hvac_system.Dict.{Dict, lookup, insert, values}
use centralized_hvac_system.Gateway.Adapter.{RawTelemetry, Adapter, switch}

abbrev pub threshold : ℕ
threshold = 3

module _ {F : Type 0} ⦃fl : Float F⦄ where
  -- `adapter.write_on_off(True)`, where the adapter is there and has that method
  unfoldable pub switch_on : String → Exec (Dict (Adapter F)) Unit
  switch_on unit_id adapters = elim (lookup unit_id adapters) [
    | none ↦ (ok tt, adapters)
    | some a ↦ let (done, a') = switch true a in (done, insert unit_id a' adapters)
  ]

  abbrev pub is_overloaded : RawTelemetry F → Bool
  is_overloaded r = fl.le (fl.dec 90 0) r.load

  -- `min(best ∷ rs, key=lambda r: r.load)`: the first of the least
  unfoldable pub idlest : RawTelemetry F → List (RawTelemetry F) → RawTelemetry F
  idlest best [] = best
  idlest best (r ∷ rs) = idlest (if fl.lt r.load best.load then r else best) rs

  -- `now - self._last_action.get(zone, 0) < self.COOLDOWN_S`
  unfoldable pub resting : F → Dict F → Bool
  resting now last =
      fl.lt (fl.sub now (or_else (lookup "default" last) (fl.dec 0 0))) (fl.dec 120 0)

  -- The activation of a unit, which is noted unless the write raises.
  unfoldable pub activate : F → String → Exec (Dict F × Dict (Adapter F)) Unit
  unfolding switch_on
  activate now unit_id (last, adapters) =
      let (done, adapters') = switch_on unit_id adapters in
      and_then (done, (last, adapters')) λ _ s. (ok tt, (insert "default" now s.0, s.1))

  -- `evaluate`: all readings stand in the zone "default"; without a reading there is no zone
  unfoldable pub balance : F → List (RawTelemetry F) → Exec (Dict F × Dict (Adapter F)) Unit
  unfolding resting idlest activate
  balance now [] s = (ok tt, s)
  balance now (r ∷ rs) s =
      if resting now s.0
      then (ok tt, s)
      else if leb threshold (length (select is_overloaded (r ∷ rs)))
      then activate now (idlest r rs).unit_id s
      else (ok tt, s)
