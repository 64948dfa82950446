-- ===== src/Control/Loop.antt =====
-- The control loop (main (2).py): one round over the twins that Redis returned.
pub mod Turn
pub mod Round
pub mod Zones
pub mod Emergency
use centralized_hvac_system.Prelude.{
  ℕ, String, Bool, true, false, Option, none, some, List, [], ◌∷◌, ◌++◌, map, ◌==◌, if◌then◌else◌,
  or_else,
}
use centralized_hvac_system.Prelude.Result.{Result, ok, raised, key_error, Exec, and_then, ◌>>=◌}
use centralized_hvac_system.Float.{Float}
use centralized_hvac_system.Dict.{Dict, lookup, insert, values}
use centralized_hvac_system.Redis.{Redis}
use centralized_hvac_system.Models.{ControlCommand, control_command}
use centralized_hvac_system.Control.Value.{Value, text, Twin, is_text}
use centralized_hvac_system.Control.Rules.{Firings, evaluate}
use centralized_hvac_system.Control.Balancer.{evaluate_zone}
use centralized_hvac_system.Control.Optimizer.{suggest_setpoint}
use centralized_hvac_system.Control.Service.{Env, Service, read_clock, new_id}
use centralized_hvac_system.Control.Dispatcher.{dispatch}
use centralized_hvac_system.Control.Actions.{action_to_command}

-- A Redis hash, decoded: every value is a text.
abbrev pub Hash : Type 0
Hash = Dict String

-- A hash as the rule engine and the balancer see it.
unfoldable pub as_twin : {F : Type 0} → Hash → Twin F
as_twin [] = []
as_twin ((k, v) ∷ h) = (k, text v) ∷ as_twin h

-- The loop of `_get_all_twins` over what `hgetall` returned for each key: an empty hash is left
-- out, and `raw["unit_id"]` raises where it is missing.
unfoldable pub collect : List Hash → Dict Hash → Result (Dict Hash)
collect [] twins = ok twins
collect ([] ∷ hs) twins = collect hs twins
collect ((e ∷ raw) ∷ hs) twins = elim (lookup "unit_id" (e ∷ raw)) [
  | none ↦ raised key_error
  | some uid ↦ collect hs (insert uid (e ∷ raw) twins)
]

unfoldable pub get_all_twins : List Hash → Result (Dict Hash)
unfolding collect
get_all_twins hashes = collect hashes []

-- `zones.setdefault(zid, []).append(twin)`
unfoldable pub add_to_zone : Hash → Dict (List Hash) → Dict (List Hash)
add_to_zone twin zones =
    let zid = or_else (lookup "zone_id" twin) "unknown" in
    insert zid (or_else (lookup zid zones) [] ++ twin ∷ []) zones

unfoldable pub group_from : List Hash → Dict (List Hash) → Dict (List Hash)
unfolding add_to_zone
group_from [] zones = zones
group_from (twin ∷ twins) zones = group_from twins (add_to_zone twin zones)

-- `_group_by_zone`
unfoldable pub group_by_zone : Dict Hash → Dict (List Hash)
unfolding group_from
group_by_zone twins = group_from (values twins) []

-- The command that carries a suggested setpoint.
abbrev pub setpoint_command : {F : Type 0} → String → F → String → ControlCommand F
setpoint_command unit_id new_sp corr = record {
  unit_id = unit_id;
  status = none;
  target_temp = some new_sp;
  fan_speed = none;
  issued_by = "setpoint-optimizer";
  correlation_id = some corr;
}

module _ {F R : Type 0} ⦃fl : Float F⦄ ⦃rd : Redis R⦄ (env : Env F) where
  -- `if cmd: await dispatcher.dispatch(cmd)`
  unfoldable pub dispatch_if : Option (ControlCommand F) → Service F R → Service F R
  dispatch_if none s = s
  dispatch_if (some cmd) s = (dispatch env cmd s).1

  -- `for rule, action in rule_engine.evaluate(twin)`
  unfoldable pub run_actions : String → Firings F → Exec (Service F R) Unit
  run_actions unit_id [] s = (ok tt, s)
  run_actions unit_id ((rule, action) ∷ rest) s =
      and_then (action_to_command env unit_id rule action s)
        λ cmd s'. run_actions unit_id rest (dispatch_if cmd s')

  -- Step 1 for a unit: the rule engine reads the clock once, and its actions are carried out.
  unfoldable pub apply_rules : String → Twin F → Exec (Service F R) Unit
  apply_rules unit_id twin s =
      let (now, s1) = read_clock env s in
      let (fired, engine') = evaluate now twin s1.engine in
      and_then (fired, record s1 { engine = engine' }) (run_actions unit_id)

  -- `if new_sp is not None`
  unfoldable pub issue_setpoint : String → Option F → Exec (Service F R) Unit
  issue_setpoint unit_id none s = (ok tt, s)
  issue_setpoint unit_id (some new_sp) s =
      let (corr, s') = new_id env s in
      and_then (control_command (setpoint_command unit_id new_sp corr), s')
        λ cmd s''. (ok tt, (dispatch env cmd s'').1)

  -- Step 2 for a unit: the setpoint optimizer.
  unfoldable pub apply_setpoint : String → Twin F → Exec (Service F R) Unit
  apply_setpoint unit_id twin s = and_then (suggest_setpoint twin, s) (issue_setpoint unit_id)

  -- One turn of the loop over the units.
  unfoldable pub process_unit : String → Twin F → Exec (Service F R) Unit
  process_unit unit_id twin s =
      if is_text (lookup "status" twin) "OFFLINE"
      then (ok tt, s)
      else and_then (apply_rules unit_id twin s) λ done s'. apply_setpoint unit_id twin s'

  unfoldable pub process_units : Dict Hash → Exec (Service F R) Unit
  process_units [] s = (ok tt, s)
  process_units ((unit_id, raw) ∷ rest) s =
      and_then (process_unit unit_id (as_twin raw) s) λ done s'. process_units rest s'

  -- `if cmd: await dispatcher.dispatch(cmd)`, where a command has drawn an identifier
  unfoldable pub dispatch_balance : Option (ControlCommand F) → Exec (Service F R) Unit
  dispatch_balance none s = (ok tt, s)
  dispatch_balance (some cmd) s = (ok tt, (dispatch env cmd (new_id env s).1).1)

  -- Step 3 for a zone: the load balancer.
  unfoldable pub balance_zone : String → List Hash → Exec (Service F R) Unit
  balance_zone zone_id raws s =
      let (now, s1) = read_clock env s in
      let corr = env.uuid s1.identifiers in
      let (decision, cooldowns) =
        evaluate_zone now corr zone_id (map as_twin raws) s1.zone_cooldowns in
      and_then (decision, record s1 { zone_cooldowns = cooldowns }) dispatch_balance

  unfoldable pub balance_zones : Dict (List Hash) → Exec (Service F R) Unit
  balance_zones [] s = (ok tt, s)
  balance_zones ((zone_id, raws) ∷ rest) s =
      and_then (balance_zone zone_id raws s) λ done s'. balance_zones rest s'

  -- The body of the `try` in `control_loop`, after the sleep. With no twins, where the source goes
  -- on to the next round, both loops are over nothing.
  unfoldable pub round_body : List Hash → Exec (Service F R) Unit
  round_body hashes s =
      and_then (get_all_twins hashes, s)
        λ twins s1.
          and_then (process_units twins s1) λ done s2. balance_zones (group_by_zone twins) s2

  -- One round of `control_loop`: an exception is logged, and the state stays as it was reached.
  unfoldable pub control_round : List Hash → Service F R → Service F R
  control_round hashes s = (round_body hashes s).1
