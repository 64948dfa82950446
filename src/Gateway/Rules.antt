-- ===== src/Gateway/Rules.antt =====
-- The local rule engine of the edge gateway (gateway.py, `LocalRuleEngine`), on rules of the shape
-- that its documentation shows: a key that may be missing is an option.
pub mod Once
use centralized_hvac_system.Prelude.{
  String, Bool, true, false, not, ◌&&◌, ◌||◌, Option, none, some, List, [], ◌∷◌, ◌++◌, ◌==◌,
  if◌then◌else◌, ◌<>◌, or_else,
}
use centralized_hvac_system.Prelude.Result.{Result, ok, raised, type_error, Exec, and_then, ◌>>=◌}
use centralized_hvac_system.Float.{Float}
use centralized_hvac_system.Dict.{Dict, lookup, insert}
use centralized_hvac_system.Control.Value.{Value, null, flag, num, text, to_float}
use centralized_hvac_system.Control.Rules.{RuleCondition, fires}
use centralized_hvac_system.Gateway.Adapter.{RawTelemetry, Adapter, set_temperature, switch}

pub record LocalAction (F : Type 0) : Type 0 where
  pub kind : Option String
  pub value : Option (Value F)

pub record LocalRule (F : Type 0) : Type 0 where
  pub id : String
  pub enabled : Option Bool
  pub conditions : Option (List (RuleCondition F))
  pub logic : Option String
  pub actions : Option (List (LocalAction F))
  pub cooldown_s : Option F

module _ {F : Type 0} where
  abbrev or_null : Option F → Value F
  or_null none = null
  or_null (some x) = num x

  -- `asdict(telemetry).get(field)`; the list of error codes, which `float` refuses, raises at once
  unfoldable pub reading_field : RawTelemetry F → String → Result (Option (Value F))
  reading_field t field =
      if field == "unit_id"
      then ok (some (text t.unit_id))
      else if field == "temperature"
      then ok (some (num t.temperature))
      else if field == "humidity"
      then ok (some (num t.humidity))
      else if field == "load"
      then ok (some (num t.load))
      else if field == "power_w"
      then ok (some (num t.power_w))
      else if field == "pressure"
      then ok (some (or_null t.pressure))
      else if field == "compressor_rpm"
      then ok (some (or_null t.compressor_rpm))
      else if field == "error_codes"
      then raised type_error
      else ok none

module _ {F : Type 0} ⦃fl : Float F⦄ where
  -- `self.OPERATORS.get(name, lambda a, b: False)`
  unfoldable pub local_operator : String → F → F → Bool
  local_operator name a b =
      if name == "gt"
      then fl.lt b a
      else if name == "lt"
      then fl.lt a b
      else if name == "gte"
      then fl.le b a
      else if name == "lte"
      then fl.le a b
      else if name == "eq"
      then fl.lt (fl.abs (fl.sub a b)) (fl.dec 1 6)
      else false

  unfoldable pub local_value : Option (Value F) → RuleCondition F → Result Bool
  unfolding to_float
  local_value none c = ok false
  local_value (some null) c = ok false
  local_value (some v) c = to_float v >>= λ x. ok (local_operator c.operator x c.value)

  unfoldable pub local_checks : RawTelemetry F → List (RuleCondition F) → Result (List Bool)
  unfolding local_value reading_field
  local_checks t [] = ok []
  local_checks t (c ∷ cs) = do
    v ← reading_field t c.field
    b ← local_value v c
    bs ← local_checks t cs
    ok (b ∷ bs)

  -- `bool(val)`
  unfoldable pub truth : Option (Value F) → Bool
  truth none = false
  truth (some null) = false
  truth (some (flag b)) = b
  truth (some (num x)) = not (fl.le x (fl.dec 0 0) && fl.le (fl.dec 0 0) x)
  truth (some (text s)) = not (s == "")

  -- `float(val)`
  abbrev float_of : Option (Value F) → Result F
  float_of none = raised type_error
  float_of (some v) = to_float v

  -- The setpoint branches of `_apply`, by what the adapter has.
  unfoldable pub apply_setpoint_to : Option (Value F) → Exec (Adapter F) Unit
  apply_setpoint_to v a = and_then (float_of v, a) set_temperature

  unfoldable pub apply_on_off : Option (Value F) → Exec (Adapter F) Unit
  unfolding truth
  apply_on_off v a = switch (truth v) a

  -- `_apply`
  unfoldable pub apply_action : LocalAction F → Exec (Adapter F) Unit
  unfolding apply_setpoint_to apply_on_off
  apply_action act a =
      let kind = or_else act.kind "" in
      if kind == "set_on_off"
      then apply_on_off act.value a
      else if kind == "set_setpoint"
      then apply_setpoint_to act.value a
      else (ok tt, a)

  -- The loop over a fired rule's actions; an adapter keeps what it was given before a raise.
  unfoldable pub apply_actions : List (LocalAction F) → Exec (Dict F × Adapter F) Unit
  apply_actions [] s = (ok tt, s)
  apply_actions (act ∷ acts) (c, a) =
      let (done, a') = apply_action act a in and_then (done, (c, a')) λ _. apply_actions acts

  unfoldable pub local_key : LocalRule F → RawTelemetry F → String
  local_key rule t = rule.id <> ":" <> t.unit_id

  -- `now - self._cooldowns.get(cooldown_key, 0) < rule.get("cooldown_s", 60)`
  unfoldable pub local_cooling : F → Dict F → LocalRule F → RawTelemetry F → Bool
  local_cooling now c rule t =
      fl.lt (fl.sub now (or_else (lookup (local_key rule t) c) (fl.dec 0 0)))
        (or_else rule.cooldown_s (fl.dec 60 0))

  -- The body for a rule that was not skipped, once its conditions are checked.
  unfoldable pub local_conclude :
      F → RawTelemetry F → LocalRule F → List Bool → Exec (Dict F × Adapter F) Unit
  unfolding fires
  local_conclude now t rule bs (c, a) =
      if fires (or_else rule.logic "AND") bs
      then apply_actions (or_else rule.actions []) (insert (local_key rule t) now c, a)
      else (ok tt, (c, a))

  -- One turn of the loop in `evaluate`.
  unfoldable pub local_visit : F → RawTelemetry F → LocalRule F → Exec (Dict F × Adapter F) Unit
  local_visit now t rule s =
      if not (or_else rule.enabled true) || local_cooling now s.0 rule t
      then (ok tt, s)
      else and_then (local_checks t (or_else rule.conditions []), s) (local_conclude now t rule)

  -- `evaluate`
  unfoldable pub local_evaluate :
      F → RawTelemetry F → List (LocalRule F) → Exec (Dict F × Adapter F) Unit
  unfolding local_visit
  local_evaluate now t [] s = (ok tt, s)
  local_evaluate now t (rule ∷ rules) s =
      and_then (local_visit now t rule s) λ done s'. local_evaluate now t rules s'
