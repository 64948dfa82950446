-- ===== src/Control/Status.antt =====
-- The status endpoint of the load balancing (main (2).py, `load_balance_status`).
use centralized_hvac_system.Prelude.{
  ℕ, String, Bool, false, Option, none, some, List, [], ◌∷◌, ◌==◌, select, length, nat_eq,
  if◌then◌else◌,
}
use centralized_hvac_system.Prelude.Int.{pos}
use centralized_hvac_system.Prelude.Result.{Result, ok, raised, value_error, ◌>>=◌}
use centralized_hvac_system.Float.{Float}
use centralized_hvac_system.Dict.{Dict, lookup}
use centralized_hvac_system.Control.Loop.{Hash, get_all_twins, group_by_zone}

-- The summary of a zone.
pub record ZoneLoad (F : Type 0) : Type 0 where
  pub total : ℕ
  pub units_on : ℕ
  pub units_standby : ℕ
  pub avg_load : F
  pub overloaded : ℕ

-- `t.get("status") == wanted`
unfoldable pub is_in_status : String → Hash → Bool
is_in_status wanted t = elim (lookup "status" t) [ none ↦ false | some s ↦ s == wanted ]

module _ {F : Type 0} ⦃fl : Float F⦄ where
  -- `float(text)`
  unfoldable pub parsed_float : Option F → Result F
  parsed_float none = raised value_error
  parsed_float (some x) = ok x

  -- `float(t.get("load_percentage", 0))`
  unfoldable pub load_of : Option String → Result F
  unfolding parsed_float
  load_of none = ok (fl.dec 0 0)
  load_of (some s) = parsed_float (fl.parse s)

  -- The loads of the units, or the exception of the first that is no number.
  unfoldable pub loads : List Hash → Result (List F)
  unfolding load_of
  loads [] = ok []
  loads (t ∷ ts) =
      let rest = loads ts in
      load_of (lookup "load_percentage" t) >>= λ x. rest >>= λ xs. ok (x ∷ xs)

  unfoldable pub sum_all : List F → F → F
  sum_all [] total = total
  sum_all (x ∷ xs) total = sum_all xs (fl.add total x)

  -- The turn of the loop for one zone.
  unfoldable pub zone_load : List Hash → Result (ZoneLoad F)
  unfolding is_in_status loads sum_all
  zone_load twins =
      let units = select (is_in_status "ON") twins in
      let n = if nat_eq (length units) 0 then 1 else length units in
      loads units >>= λ xs. ok (record {
        total = length twins;
        units_on = length units;
        units_standby = length (select (is_in_status "STANDBY") twins);
        avg_load = fl.round_to (fl.div (sum_all xs (fl.dec 0 0)) (fl.of_int (pos n))) 1;
        overloaded = length (select (λ x. fl.le (fl.dec 90 0) x) xs);
      })

  -- The loop over the zones.
  unfoldable pub zone_loads : Dict (List Hash) → Result (Dict (ZoneLoad F))
  unfolding zone_load
  zone_loads [] = ok []
  zone_loads ((zone_id, twins) ∷ zones) =
      let rest = zone_loads zones in zone_load twins >>= λ z. rest >>= λ zs. ok ((zone_id, z) ∷ zs)

  -- `load_balance_status`, on the hashes that Redis returned
  unfoldable pub load_balance_status : List Hash → Result (Dict (ZoneLoad F))
  unfolding zone_loads
  load_balance_status hashes = get_all_twins hashes >>= λ twins. zone_loads (group_by_zone twins)
