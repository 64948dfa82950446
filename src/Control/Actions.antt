-- ===== src/Control/Actions.antt =====
-- From a rule's action to a command (main (2).py, `_action_to_command`), and the rules that the
-- service starts with.
pub mod Overheat
use centralized_hvac_system.Prelude.{
  String, true, Option, none, some, List, [], ◌∷◌, ◌++◌, ◌==◌, if◌then◌else◌, ◌<>◌,
}
use centralized_hvac_system.Prelude.Int.{pos}
use centralized_hvac_system.Prelude.Result.{
  Result, ok, raised, type_error, value_error, Exec, ◌>>=◌,
}
use centralized_hvac_system.Float.{Float}
use centralized_hvac_system.Models.{ControlCommand, control_command, status_of_text, fan_of_text}
use centralized_hvac_system.Control.Value.{text, to_float}
use centralized_hvac_system.Control.Rules.{Rule, RuleAction, RuleCondition, Payload, plain, mapping}
use centralized_hvac_system.Control.Service.{alert, Env, Service, read_clock, new_id}

module _ {F : Type 0} where
  -- the text that an enumeration is looked up by; any other value names no member
  abbrev enum_text : Payload F → Result String
  enum_text (plain (text s)) = ok s
  enum_text p = raised value_error

  abbrev bare : String → Rule F → String → ControlCommand F
  bare unit_id rule corr = record {
    unit_id = unit_id;
    status = none;
    target_temp = none;
    fan_speed = none;
    issued_by = "rule:" <> rule.id;
    correlation_id = some corr;
  }

module _ {F : Type 0} ⦃fl : Float F⦄ where
  -- `float(action.value)`
  abbrev payload_float : Payload F → Result F
  payload_float (plain v) = to_float v
  payload_float (mapping d) = raised type_error

  -- The three branches that build a command.
  unfoldable pub set_temp :
      String → Rule F → Payload F → String → Result (Option (ControlCommand F))
  set_temp unit_id rule p corr = do
    t ← payload_float p
    cmd ← control_command (record (bare unit_id rule corr) { target_temp = some t })
    ok (some cmd)

  unfoldable pub set_fan : String → Rule F → Payload F → String → Result (Option (ControlCommand F))
  set_fan unit_id rule p corr = do
    s ← enum_text p
    fan ← fan_of_text s
    cmd ← control_command (record (bare unit_id rule corr) { fan_speed = some fan })
    ok (some cmd)

  unfoldable pub set_status :
      String → Rule F → Payload F → String → Result (Option (ControlCommand F))
  set_status unit_id rule p corr = do
    s ← enum_text p
    status ← status_of_text s
    cmd ← control_command (record (bare unit_id rule corr) { status = some status })
    ok (some cmd)

module _ {F R : Type 0} ⦃fl : Float F⦄ (env : Env F) where
  -- `**action.value` asks for a mapping; the publication is handed to a task.
  unfoldable pub raise_alert :
      String → Rule F → Payload F → Exec (Service F R) (Option (ControlCommand F))
  raise_alert unit_id rule (plain v) s = (raised type_error, s)
  raise_alert unit_id rule (mapping d) s =
      let (ts, s') = read_clock env s in
      (ok none, record s' { scheduled = s'.scheduled ++ alert unit_id d rule.id ts ∷ [] })

  -- `_action_to_command`
  unfoldable pub action_to_command :
      String → Rule F → RuleAction F → Exec (Service F R) (Option (ControlCommand F))
  action_to_command unit_id rule action s =
      let (corr, s') = new_id env s in
      if action.kind == "set_temp"
      then (set_temp unit_id rule action.value corr, s')
      else if action.kind == "set_fan"
      then (set_fan unit_id rule action.value corr, s')
      else if action.kind == "set_status"
      then (set_status unit_id rule action.value corr, s')
      else if action.kind == "alert"
      then raise_alert unit_id rule action.value s'
      else (ok none, s')

module _ {F : Type 0} ⦃fl : Float F⦄ where
  abbrev one_condition : String → String → F → List (RuleCondition F)
  one_condition field operator value =
      record { field = field; operator = operator; value = value } ∷ []

  abbrev act : String → Payload F → RuleAction F
  act kind value = record { kind = kind; value = value }

  abbrev alert_of : String → String → RuleAction F
  alert_of type severity =
      act "alert" (mapping (("type", text type) ∷ ("severity", text severity) ∷ []))

  -- The four rules of `DEFAULT_RULES`, with the thresholds of config.py.
  unfoldable pub overheat_shutdown : Rule F
  overheat_shutdown = record {
    id = "overheat-shutdown";
    name = "Emergency shutdown on critical temperature";
    enabled = true;
    priority = pos 0;
    zone_id = none;
    conditions = one_condition "current_temp" "gte" (fl.dec 35 0);
    logic = "AND";
    actions = act "set_status" (plain (text "OFF")) ∷ alert_of "OVERHEAT" "CRITICAL" ∷ [];
    cooldown_s = pos 300;
  }

  unfoldable pub high_temp_max_fan : Rule F
  high_temp_max_fan = record {
    id = "high-temp-max-fan";
    name = "Ramp fan to HIGH when temperature is elevated";
    enabled = true;
    priority = pos 10;
    zone_id = none;
    conditions = one_condition "current_temp" "gte" (fl.dec 30 0);
    logic = "AND";
    actions = act "set_fan" (plain (text "HIGH")) ∷ [];
    cooldown_s = pos 120;
  }

  unfoldable pub high_load_alert : Rule F
  high_load_alert = record {
    id = "high-load-alert";
    name = "Alert when load exceeds critical threshold";
    enabled = true;
    priority = pos 20;
    zone_id = none;
    conditions = one_condition "load_percentage" "gte" (fl.dec 98 0);
    logic = "AND";
    actions = alert_of "HIGH_LOAD" "WARNING" ∷ [];
    cooldown_s = pos 60;
  }

  unfoldable pub energy_saving_auto_fan : Rule F
  energy_saving_auto_fan = record {
    id = "energy-saving-auto-fan";
    name = "Switch to AUTO fan when load is low";
    enabled = true;
    priority = pos 80;
    zone_id = none;
    conditions =
        record { field = "load_percentage"; operator = "lt"; value = fl.dec 30 0 }
        ∷ one_condition "current_temp" "lte" (fl.dec 24 0);
    logic = "AND";
    actions = act "set_fan" (plain (text "AUTO")) ∷ [];
    cooldown_s = pos 300;
  }

  -- `DEFAULT_RULES`
  unfoldable pub default_rules : List (Rule F)
  default_rules =
      overheat_shutdown ∷ high_temp_max_fan ∷ high_load_alert ∷ energy_saving_auto_fan ∷ []
