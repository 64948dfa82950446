-- ===== src/Control/Balancer.antt =====
-- The zone load balancer of the control service (main (2).py). The proofs stand in the modules
-- below.
pub mod Choice
pub mod Quiet
pub mod Texts
use centralized_hvac_system.Prelude.{
  ℕ, String, Bool, true, false, ◌&&◌, Option, none, some, List, [], ◌∷◌, length, ltb, leb,
  if◌then◌else◌, or_else,
}
use centralized_hvac_system.Prelude.Int.{pos}
use centralized_hvac_system.Prelude.Result.{
  Result, ok, raised, validation_error, Exec, and_then, ◌>>=◌,
}
use centralized_hvac_system.Float.{Float}
use centralized_hvac_system.Dict.{Dict, lookup, insert}
use centralized_hvac_system.Models.{UnitStatus, on, standby, ControlCommand, control_command}
use centralized_hvac_system.Control.Value.{Value, text, Twin, item, is_text, at_least, plus, less}

abbrev pub threshold_count : ℕ
threshold_count = 3

module _ {F : Type 0} where
  -- `[t for t in twins if t["status"] == status]`
  unfoldable pub with_status : String → List (Twin F) → Result (List (Twin F))
  unfolding item is_text
  with_status status [] = ok []
  with_status status (t ∷ ts) = do
    v ← item t "status"
    rest ← with_status status ts
    ok (if is_text (some v) status then t ∷ rest else rest)

  -- a `str` field of a pydantic model
  abbrev pub str_field : Value F → Result String
  str_field (text s) = ok s
  str_field v = raised validation_error

-- The three lists that `evaluate_zone` draws up.
pub record Survey (F : Type 0) : Type 0 where
  pub on_units : List (Twin F)
  pub standby_units : List (Twin F)
  pub overloaded : List (Twin F)

module _ {F : Type 0} ⦃fl : Float F⦄ where
  abbrev pub high_load_pct : F
  high_load_pct = fl.dec 90 0

  abbrev pub low_load_pct : F
  low_load_pct = fl.dec 20 0

  abbrev pub zone_cooldown_s : F
  zone_cooldown_s = fl.dec 120 0

  -- `[t for t in on_units if t["load_percentage"] >= self.HIGH_LOAD_PCT]`
  unfoldable pub over : List (Twin F) → Result (List (Twin F))
  unfolding item at_least
  over [] = ok []
  over (t ∷ ts) = do
    v ← item t "load_percentage"
    high ← at_least v high_load_pct
    rest ← over ts
    ok (if high then t ∷ rest else rest)

  unfoldable pub survey : List (Twin F) → Result (Survey F)
  survey twins = do
    on_units ← with_status "ON" twins
    standby_units ← with_status "STANDBY" twins
    overloaded ← over on_units
    ok (record { on_units = on_units; standby_units = standby_units; overloaded = overloaded })

  -- The rest of `min(..., key=...)`, once `best` with its key `k` is the least so far.
  unfoldable pub least_from : Twin F → Value F → List (Twin F) → Result (Twin F)
  unfolding item less
  least_from best k [] = ok best
  least_from best k (t ∷ ts) = do
    v ← item t "load_percentage"
    smaller ← less v k
    least_from (if smaller then t else best) (if smaller then v else k) ts

  -- `min(t ∷ ts, key=lambda t: t["load_percentage"])`
  unfoldable pub least_loaded : Twin F → List (Twin F) → Result (Twin F)
  least_loaded t ts = do k ← item t "load_percentage"; least_from t k ts

  unfoldable pub sum_loads : F → List (Twin F) → Result F
  unfolding item plus
  sum_loads total [] = ok total
  sum_loads total (t ∷ ts) = do
    v ← item t "load_percentage"
    total' ← plus total v
    sum_loads total' ts

  -- `sum(...) / len(on_units)`
  unfoldable pub average_load : List (Twin F) → Result F
  unfolding sum_loads
  average_load units = do
    total ← sum_loads (fl.dec 0 0) units
    ok (fl.div total (fl.of_int (pos (length units))))

  -- `self._zone_cooldowns[zone_id] = now`, and the command to the target
  unfoldable pub command_unit :
      F → String → String → UnitStatus → Twin F → Exec (Dict F) (Option (ControlCommand F))
  unfolding item control_command
  command_unit now corr zone_id status target cooldowns = (
    (do
      v ← item target "unit_id"
      unit_id ← str_field v
      cmd ← control_command (record {
        unit_id = unit_id;
        status = some status;
        target_temp = none;
        fan_speed = none;
        issued_by = "load-balancer";
        correlation_id = some corr;
      })
      ok (some cmd)),
    insert zone_id now cooldowns,
  )

  -- Scale in: `if on_units:` and what stands under it.
  unfoldable pub scale_in :
      F → String → String → List (Twin F) → Exec (Dict F) (Option (ControlCommand F))
  scale_in now corr zone_id [] cooldowns = (ok none, cooldowns)
  scale_in now corr zone_id (t ∷ ts) cooldowns =
      and_then (average_load (t ∷ ts), cooldowns)
        λ avg cooldowns'.
          if fl.lt avg low_load_pct && ltb 1 (length (t ∷ ts))
          then and_then (least_loaded t ts, cooldowns') (command_unit now corr zone_id standby)
          else (ok none, cooldowns')

  -- Scale out, or else scale in.
  unfoldable pub decide :
      F
      → String
      → String
      → List (Twin F)
      → List (Twin F)
      → List (Twin F)
      → Exec (Dict F) (Option (ControlCommand F))
  decide now corr zone_id on_units [] overloaded cooldowns =
      scale_in now corr zone_id on_units cooldowns
  decide now corr zone_id on_units (t ∷ ts) overloaded cooldowns =
      if leb threshold_count (length overloaded)
      then and_then (least_loaded t ts, cooldowns) (command_unit now corr zone_id on)
      else scale_in now corr zone_id on_units cooldowns

  -- `now - self._zone_cooldowns.get(zone_id, 0) < self.ZONE_COOLDOWN_S`
  unfoldable pub zone_cooling : F → Dict F → String → Bool
  zone_cooling now cooldowns zone_id =
      fl.lt (fl.sub now (or_else (lookup zone_id cooldowns) (fl.dec 0 0))) zone_cooldown_s

  -- `LoadBalancer.evaluate_zone`, at the time `now` and with the identifier that uuid4 returns
  unfoldable pub evaluate_zone :
      F → String → String → List (Twin F) → Exec (Dict F) (Option (ControlCommand F))
  evaluate_zone now corr zone_id twins cooldowns =
      if zone_cooling now cooldowns zone_id
      then (ok none, cooldowns)
      else and_then (survey twins, cooldowns)
          λ s cooldowns'. decide now corr zone_id s.on_units s.standby_units s.overloaded cooldowns'
