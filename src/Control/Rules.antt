-- ===== src/Control/Rules.antt =====
-- The rule engine of the control service (main (2).py): rules, their conditions, the cooldowns and
-- the evaluation of a twin. The proofs stand in the modules below.
pub mod Order
pub mod Firing
pub mod Total
pub mod Cooldown
use centralized_hvac_system.Prelude.{
  String, Bool, true, false, not, ◌&&◌, ◌||◌, Option, none, some, List, [], ◌∷◌, ◌++◌, map, ◌==◌,
  if◌then◌else◌, ◌<>◌, or_else, select, length, nat_eq,
}
use centralized_hvac_system.Prelude.Int.{ℤ, leb_ℤ}
use centralized_hvac_system.Prelude.Result.{Result, ok, raised, Exec, and_then, ◌>>=◌}
use centralized_hvac_system.Float.{Float}
use centralized_hvac_system.Dict.{Dict, lookup, insert}
use centralized_hvac_system.Control.Value.{Value, null, Twin, to_float, is_text, shown}

pub record RuleCondition (F : Type 0) : Type 0 where
  pub field : String
  pub operator : String
  pub value : F

-- An action's `value: Any`: a plain value, or the mapping that an alert carries.
pub data Payload (F : Type 0) : Type 0 where
  plain : Value F → Payload F
  mapping : Dict (Value F) → Payload F

pub record RuleAction (F : Type 0) : Type 0 where
  pub kind : String
  pub value : Payload F

pub record Rule (F : Type 0) : Type 0 where
  pub id : String
  pub name : String
  pub enabled : Bool
  pub priority : ℤ
  pub zone_id : Option String
  pub conditions : List (RuleCondition F)
  pub logic : String
  pub actions : List (RuleAction F)
  pub cooldown_s : ℤ

pub record RuleEngine (F : Type 0) : Type 0 where
  pub rules : List (Rule F)
  pub cooldowns : Dict F

-- What `evaluate` returns: the actions to execute, each with its rule.
abbrev pub Firings : Type 0 → Type 0
Firings F = List (Rule F × RuleAction F)

abbrev pub every : List Bool → Bool
every [] = true
every (b ∷ l) = b && every l

abbrev pub some_true : List Bool → Bool
some_true [] = false
some_true (b ∷ l) = b || some_true l

-- `all(checks) if rule.logic == "AND" else any(checks)`
unfoldable pub fires : String → List Bool → Bool
fires logic checks = if logic == "AND" then every checks else some_true checks

module _ {F : Type 0} where
  -- `sorted(rules, key=lambda r: r.priority)` is stable: a rule goes before the first later one
  -- whose priority is not below its own.
  unfoldable pub place : Rule F → List (Rule F) → List (Rule F)
  place r [] = r ∷ []
  place r (s ∷ l) =
      let rest = place r l in if leb_ℤ r.priority s.priority then r ∷ s ∷ l else s ∷ rest

  unfoldable pub sort_rules : List (Rule F) → List (Rule F)
  unfolding place
  sort_rules [] = []
  sort_rules (r ∷ l) = place r (sort_rules l)

  -- `RuleEngine(rules)`
  unfoldable pub new_engine : List (Rule F) → RuleEngine F
  new_engine rules = record { rules = sort_rules rules; cooldowns = [] }

  unfoldable pub load_rules : RuleEngine F → List (Rule F) → RuleEngine F
  load_rules e rules = record e { rules = sort_rules rules }

  -- `POST /rules`
  unfoldable pub add_rule : RuleEngine F → Rule F → RuleEngine F
  unfolding sort_rules
  add_rule e rule = record e { rules = sort_rules (e.rules ++ rule ∷ []) }

  -- `DELETE /rules/{rule_id}`: false stands for the 404
  unfoldable pub delete_rule : RuleEngine F → String → Bool × RuleEngine F
  delete_rule e rule_id =
      let kept = select (λ r. not (r.id == rule_id)) e.rules in
      (not (nat_eq (length kept) (length e.rules)), record e { rules = kept })

  -- `rule.zone_id and rule.zone_id != twin_state.get("zone_id")`; an empty text is false
  unfoldable pub other_zone : Option String → Twin F → Bool
  unfolding is_text
  other_zone none twin = false
  other_zone (some z) twin = not (z == "") && not (is_text (lookup "zone_id" twin) z)

  -- `for action in rule.actions: results.append((rule, action))`
  unfoldable pub firings : Rule F → Firings F
  firings rule = map (λ a. (rule, a)) rule.actions

module _ {F : Type 0} ⦃fl : Float F⦄ where
  abbrev close_to : F → F → Bool
  close_to a b = fl.lt (fl.abs (fl.sub a b)) (fl.dec 1 6)

  -- `OPERATORS.get(name, lambda a, b: False)`
  unfoldable pub apply_operator : String → F → F → Bool
  apply_operator name a b =
      if name == "gt"
      then fl.lt b a
      else if name == "lt"
      then fl.lt a b
      else if name == "gte"
      then fl.le b a
      else if name == "lte"
      then fl.le a b
      else if name == "eq"
      then close_to a b
      else if name == "neq"
      then fl.le (fl.dec 1 6) (fl.abs (fl.sub a b))
      else false

  -- The value of a condition's field: missing or None is False, any other goes through `float`.
  unfoldable pub check_value : Option (Value F) → RuleCondition F → Result Bool
  check_value none c = ok false
  check_value (some null) c = ok false
  check_value (some v) c = to_float v >>= λ x. ok (apply_operator c.operator x c.value)

  -- One condition's entry in `checks`.
  unfoldable pub check : Twin F → RuleCondition F → Result Bool
  unfolding check_value apply_operator to_float
  check twin c = check_value (lookup c.field twin) c

  -- The loop over the conditions: every one is evaluated, and the first that raises ends it.
  unfoldable pub checks : Twin F → List (RuleCondition F) → Result (List Bool)
  unfolding check
  checks twin [] = ok []
  checks twin (c ∷ cs) = do b ← check twin c; bs ← checks twin cs; ok (b ∷ bs)

  unfoldable pub cooldown_key : Rule F → Twin F → String
  unfolding shown
  cooldown_key rule twin = rule.id <> ":" <> shown (lookup "unit_id" twin)

  -- `now - self._cooldowns.get(cooldown_key, 0) < rule.cooldown_s`
  unfoldable pub cooling : F → Dict F → String → ℤ → Bool
  cooling now cooldowns key period =
      fl.lt (fl.sub now (or_else (lookup key cooldowns) (fl.dec 0 0))) (fl.of_int period)

  -- The three `continue` guards at the head of the loop's body.
  unfoldable pub skipped : F → Twin F → Dict F → Rule F → Bool
  unfolding cooling cooldown_key other_zone
  skipped now twin cooldowns rule =
      not rule.enabled
      || other_zone rule.zone_id twin
      || cooling now cooldowns (cooldown_key rule twin) rule.cooldown_s

  -- The body for a rule that was not skipped, once its conditions are checked.
  unfoldable pub conclude : F → Twin F → Rule F → List Bool → Exec (Dict F) (Firings F)
  unfolding fires firings
  conclude now twin rule bs cooldowns =
      if fires rule.logic bs
      then (ok (firings rule), insert (cooldown_key rule twin) now cooldowns)
      else (ok [], cooldowns)

  -- One turn of the loop over the rules.
  unfoldable pub visit : F → Twin F → Rule F → Exec (Dict F) (Firings F)
  unfolding skipped conclude checks
  visit now twin rule cooldowns =
      if skipped now twin cooldowns rule
      then (ok [], cooldowns)
      else and_then (checks twin rule.conditions, cooldowns) (conclude now twin rule)

  -- The loop; `results` is built in the order of the rules.
  unfoldable pub visit_all : F → Twin F → List (Rule F) → Exec (Dict F) (Firings F)
  unfolding visit
  visit_all now twin [] cooldowns = (ok [], cooldowns)
  visit_all now twin (rule ∷ rules) cooldowns =
      and_then (visit now twin rule cooldowns) λ here cooldowns'.
        and_then (visit_all now twin rules cooldowns')
          λ there cooldowns''. (ok (here ++ there), cooldowns'')

  -- `RuleEngine.evaluate`, at the time that the clock reads
  unfoldable pub evaluate : F → Twin F → Exec (RuleEngine F) (Firings F)
  unfolding visit_all
  evaluate now twin e =
      let (r, cooldowns) = visit_all now twin e.rules e.cooldowns in
      (r, record e { cooldowns = cooldowns })
