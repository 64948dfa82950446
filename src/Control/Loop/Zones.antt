-- ===== src/Control/Loop/Zones.antt =====
-- The zone balancing of `control_loop` (main (2).py), on the twins that Redis returned.
use centralized_hvac_system.Prelude.{
  ◌+◌, String, ◌≡◌, refl, ap, ◌∙◌, Option, none, some, List, [], ◌∷◌, ◌++◌, map, All, arith,
  or_else,
}
use centralized_hvac_system.Prelude.Result.{ok, and_then_keeps}
use centralized_hvac_system.Float.{Float}
use centralized_hvac_system.Dict.{Dict, lookup, insert, values}
use centralized_hvac_system.Redis.{Redis}
use centralized_hvac_system.Models.{ControlCommand}
use centralized_hvac_system.Control.Value.{Twin, text}
use centralized_hvac_system.Control.Balancer.{evaluate_zone}
use centralized_hvac_system.Control.Balancer.Texts.{FromRedis, evaluate_zone_never}
use centralized_hvac_system.Control.Service.{Env, Service}
use centralized_hvac_system.Control.Loop.{
  Hash, as_twin, add_to_zone, group_from, group_by_zone, dispatch_balance, balance_zone,
  balance_zones,
}

-- The hash has a status and a load, as every twin that was persisted has.
pub record IsWhole (h : Hash) : Type 0 where
  pub status : String
  pub load : String
  pub status_there : lookup "status" h ≡ some status
  pub load_there : lookup "load_percentage" h ≡ some load

pub lookup-as_twin :
    {F : Type 0} (k v : String) (h : Hash)
    → lookup k h ≡ some v
    → lookup k (as_twin {F = F} h) ≡ some (text v)
unfolding lookup as_twin
lookup-as_twin k v [] e = cc
lookup-as_twin {F} k v ((j, w) ∷ h) e = ground (arith, lookup-as_twin {F = F} k v h)

as_twin-FromRedis : {F : Type 0} (h : Hash) → IsWhole h → FromRedis (as_twin {F = F} h)
as_twin-FromRedis h w = record {
  status = w.status;
  load = w.load;
  status_there = lookup-as_twin "status" w.status h w.status_there;
  load_there = lookup-as_twin "load_percentage" w.load h w.load_there;
}

twins-FromRedis :
    (F : Type 0) (hs : List Hash) → All IsWhole hs → All FromRedis (map (as_twin {F = F}) hs)
twins-FromRedis F [] w = tt
twins-FromRedis F (h ∷ hs) w = (as_twin-FromRedis h w.0, twins-FromRedis F hs w.1)

-- Every hash of every zone is whole.
abbrev pub AllWhole : Dict (List Hash) → Type 0
AllWhole zones = All (λ z. All IsWhole z.1) zones

All-append : (xs ys : List Hash) → All IsWhole xs → All IsWhole ys → All IsWhole (xs ++ ys)
All-append [] ys hx hy = hy
All-append (x ∷ xs) ys hx hy = (hx.0, All-append xs ys hx.1 hy)

AllWhole-insert :
    (z : String) (hs : List Hash) (zones : Dict (List Hash))
    → All IsWhole hs
    → AllWhole zones
    → AllWhole (insert z hs zones)
unfolding insert
AllWhole-insert z hs [] w k = (w, tt)
AllWhole-insert z hs ((y, l) ∷ zones) w k = ground (arith, AllWhole-insert z hs zones w k.1)

AllWhole-lookup :
    (z : String) (zones : Dict (List Hash))
    → AllWhole zones
    → All IsWhole (or_else (lookup z zones) [])
unfolding lookup
AllWhole-lookup z [] k = tt
AllWhole-lookup z ((y, l) ∷ zones) k = ground (arith, AllWhole-lookup z zones k.1)

AllWhole-group_from :
    (hs : List Hash) (zones : Dict (List Hash))
    → All IsWhole hs
    → AllWhole zones
    → AllWhole (group_from hs zones)
unfolding group_from add_to_zone
AllWhole-group_from [] zones w k = k
AllWhole-group_from (h ∷ hs) zones w k =
    let zid = or_else (lookup "zone_id" h) "unknown" in
    let there = AllWhole-lookup zid zones k in
    AllWhole-group_from hs (add_to_zone h zones) w.1 (
      AllWhole-insert zid (or_else (lookup zid zones) [] ++ h ∷ []) zones
        (All-append (or_else (lookup zid zones) []) (h ∷ []) there (w.0, tt)) k)

module _ {F R : Type 0} ⦃fl : Float F⦄ ⦃rd : Redis R⦄ (env : Env F) where
  -- Nothing was published and no key was set since `s`.
  abbrev IsSilent : Service F R → Service F R → Type 0
  IsSilent s s' = (s'.outbox ≡ s.outbox) × (s'.redis ≡ s.redis)

  dispatch_balance-IsSilent :
      (c : Option (ControlCommand F)) (s s' : Service F R)
      → ((cmd : ControlCommand F) → c ≡ some cmd → ⊥)
      → IsSilent s s'
      → IsSilent s (dispatch_balance env c s').1
  unfolding dispatch_balance
  dispatch_balance-IsSilent none s s' quiet h = h
  dispatch_balance-IsSilent (some cmd) s s' quiet h = absurd (quiet cmd refl)

  balance_zone-IsSilent :
      (zone_id : String) (hs : List Hash) (s : Service F R)
      → All IsWhole hs
      → IsSilent s (balance_zone env zone_id hs s).1
  unfolding balance_zone
  balance_zone-IsSilent zone_id hs s w =
      let now = env.clock s.readings in
      let corr = env.uuid s.identifiers in
      let twins : List (Twin F) = map as_twin hs in
      let (decision, cooldowns) = evaluate_zone now corr zone_id twins s.zone_cooldowns in
      let s1 = record s { readings = s.readings + 1; zone_cooldowns = cooldowns } in
      and_then_keeps (IsSilent s) (decision, s1) (dispatch_balance env) (refl, refl)
        λ c e.
          dispatch_balance-IsSilent c s s1
            (λ cmd acts.
              evaluate_zone_never now corr zone_id twins s.zone_cooldowns cmd
                (twins-FromRedis F hs w) (e ∙ ap ok acts))
            (refl, refl)

  balance_zones-IsSilent :
      (zones : Dict (List Hash)) (s s' : Service F R)
      → AllWhole zones
      → IsSilent s s'
      → IsSilent s (balance_zones env zones s').1
  unfolding balance_zones
  balance_zones-IsSilent [] s s' w h = h
  balance_zones-IsSilent ((z, hs) ∷ zones) s s' w h =
      let (o, r) = balance_zone-IsSilent z hs s' w.0 in
      let first : IsSilent s (balance_zone env z hs s').1 = (o ∙ h.0, r ∙ h.1) in
      and_then_keeps (IsSilent s) (balance_zone env z hs s')
        (λ done s''. balance_zones env zones s'') first
        λ done e. balance_zones-IsSilent zones s (balance_zone env z hs s').1 w.1 first

  -- On twins as the digital twin service stores them, the load balancing of a round publishes no
  -- command and sets no key, whatever their loads are.
  pub round_never_balances :
      (twins : Dict Hash) (s : Service F R)
      → All IsWhole (values twins)
      → ((balance_zones env (group_by_zone twins) s).1.outbox ≡ s.outbox)
        × ((balance_zones env (group_by_zone twins) s).1.redis ≡ s.redis)
  unfolding group_by_zone
  round_never_balances twins s w =
      balance_zones-IsSilent (group_by_zone twins) s s (AllWhole-group_from (values twins) [] w tt)
        (refl, refl)
