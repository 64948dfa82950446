-- ===== src/Control/Loop/Turn.antt =====
-- The turn of one unit in `control_loop` (main (2).py), for what its dispatches keep.
use mathlib.Core.Path.{subst₂}
use centralized_hvac_system.Prelude.{
  ◌+◌, String, ◌≡◌, refl, sym, ap, ◌∙◌, inl, inr, Option, none, some, List, [], ◌∷◌, arith,
  Bool-cases,
}
use centralized_hvac_system.Prelude.Result.{ok, and_then_keeps}
use centralized_hvac_system.Float.{Float}
use centralized_hvac_system.Dict.{lookup}
use centralized_hvac_system.Redis.{Redis}
use centralized_hvac_system.Models.{ControlCommand, control_command}
use centralized_hvac_system.Control.Value.{Twin, is_text}
use centralized_hvac_system.Control.Rules.{Rule, RuleAction, Firings, evaluate}
use centralized_hvac_system.Control.Optimizer.{suggest_setpoint}
use centralized_hvac_system.Control.Service.{Env, Service, Message}
use centralized_hvac_system.Control.Dispatcher.{dispatch}
use centralized_hvac_system.Control.Actions.{
  set_temp, set_fan, set_status, raise_alert, action_to_command,
}
use centralized_hvac_system.Control.Loop.{
  dispatch_if, run_actions, apply_rules, setpoint_command, issue_setpoint, apply_setpoint,
  process_unit,
}

module _ {F : Type 0} ⦃fl : Float F⦄ where
  -- A command that passes validation is the one that was given.
  pub control_command-eq : (c d : ControlCommand F) → control_command c ≡ ok d → d ≡ c
  unfolding control_command
  control_command-eq c d h = ground arith

  set_temp-unit :
      (u : String) (rule : Rule F) (a : RuleAction F) (corr : String) (cmd : ControlCommand F)
      → set_temp u rule a.value corr ≡ ok (some cmd)
      → cmd.unit_id ≡ u
  unfolding set_temp control_command
  set_temp-unit u rule a corr cmd h = ground arith

  set_fan-unit :
      (u : String) (rule : Rule F) (a : RuleAction F) (corr : String) (cmd : ControlCommand F)
      → set_fan u rule a.value corr ≡ ok (some cmd)
      → cmd.unit_id ≡ u
  unfolding set_fan control_command
  set_fan-unit u rule a corr cmd h = ground arith

  set_status-unit :
      (u : String) (rule : Rule F) (a : RuleAction F) (corr : String) (cmd : ControlCommand F)
      → set_status u rule a.value corr ≡ ok (some cmd)
      → cmd.unit_id ≡ u
  unfolding set_status control_command
  set_status-unit u rule a corr cmd h = ground arith

module _ {F R : Type 0} ⦃fl : Float F⦄ (env : Env F) where
  -- Turning an action into a command publishes nothing, leaves Redis alone, and the command is to
  -- the unit.
  pub action_to_command_lem :
      (u : String) (rule : Rule F) (a : RuleAction F) (s : Service F R)
      → let (r, s') = action_to_command env u rule a s in
        (s'.outbox ≡ s.outbox) × (s'.redis ≡ s.redis)
  unfolding action_to_command raise_alert
  action_to_command_lem u rule a s = ground arith

  action_to_command-unit :
      (u : String) (rule : Rule F) (a : RuleAction F) (s : Service F R) (cmd : ControlCommand F)
      → (action_to_command env u rule a s).0 ≡ ok (some cmd)
      → cmd.unit_id ≡ u
  unfolding action_to_command raise_alert
  action_to_command-unit u rule a s cmd h =
      let corr = env.uuid s.identifiers in
      ground (
        arith,
        set_temp-unit u rule a corr cmd,
        set_fan-unit u rule a corr cmd,
        set_status-unit u rule a corr cmd,
      )

module _ {F R : Type 0} ⦃fl : Float F⦄ ⦃rd : Redis R⦄ (env : Env F) (u : String)
    (P : List (Message F) → R → Type 0)
    (keep : (cmd : ControlCommand F) (s : Service F R)
      → cmd.unit_id ≡ u
      → P s.outbox s.redis
      → P (dispatch env cmd s).1.outbox (dispatch env cmd s).1.redis) where
  abbrev pub Holds : Service F R → Type 0
  Holds s = P s.outbox s.redis

  dispatch_if_keeps :
      (c : Option (ControlCommand F)) (s : Service F R)
      → ((cmd : ControlCommand F) → c ≡ some cmd → cmd.unit_id ≡ u)
      → Holds s
      → Holds (dispatch_if env c s)
  unfolding dispatch_if
  dispatch_if_keeps none s k h = h
  dispatch_if_keeps (some cmd) s k h = keep cmd s (k cmd refl) h

  action_keeps :
      (rule : Rule F) (a : RuleAction F) (s : Service F R)
      → Holds s
      → Holds (action_to_command env u rule a s).1
  action_keeps rule a s h =
      let (o, r) = action_to_command_lem env u rule a s in subst₂ P (sym o) (sym r) h

  pub run_actions_keeps :
      (fs : Firings F) (s : Service F R) → Holds s → Holds (run_actions env u fs s).1
  unfolding run_actions
  run_actions_keeps [] s h = h
  run_actions_keeps ((rule, a) ∷ fs) s h =
      and_then_keeps Holds (action_to_command env u rule a s)
        (λ cmd s'. run_actions env u fs (dispatch_if env cmd s')) (action_keeps rule a s h)
        λ c e. run_actions_keeps fs (dispatch_if env c (action_to_command env u rule a s).1) (
          dispatch_if_keeps c (action_to_command env u rule a s).1
            (λ cmd p. action_to_command-unit env u rule a s cmd (e ∙ ap ok p))
            (action_keeps rule a s h))

  apply_rules_keeps :
      (twin : Twin F) (s : Service F R) → Holds s → Holds (apply_rules env u twin s).1
  unfolding apply_rules
  apply_rules_keeps twin s h =
      let now = env.clock s.readings in
      let (fired, engine') = evaluate now twin s.engine in
      let s1 = record s { readings = s.readings + 1; engine = engine' } in
      and_then_keeps Holds (fired, s1) (run_actions env u) h λ fs e. run_actions_keeps fs s1 h

  issue_setpoint_keeps :
      (suggestion : Option F) (s : Service F R)
      → Holds s
      → Holds (issue_setpoint env u suggestion s).1
  unfolding issue_setpoint
  issue_setpoint_keeps none s h = h
  issue_setpoint_keeps (some sp) s h =
      let s' = record s { identifiers = s.identifiers + 1 } in
      let c = setpoint_command u sp (env.uuid s.identifiers) in
      and_then_keeps Holds (control_command c, s') (λ cmd s''. (ok tt, (dispatch env cmd s'').1)) h
        λ cmd e. keep cmd s' (ap (λ d. d.unit_id) (control_command-eq c cmd e)) h

  pub apply_setpoint_keeps :
      (twin : Twin F) (s : Service F R) → Holds s → Holds (apply_setpoint env u twin s).1
  unfolding apply_setpoint
  apply_setpoint_keeps twin s h =
      and_then_keeps Holds (suggest_setpoint twin, s) (issue_setpoint env u) h
        λ suggestion e. issue_setpoint_keeps suggestion s h

  pub process_unit_keeps :
      (twin : Twin F) (s : Service F R) → Holds s → Holds (process_unit env u twin s).1
  unfolding process_unit
  process_unit_keeps twin s h = elim (Bool-cases (is_text (lookup "status" twin) "OFFLINE")) [
    | inl offline ↦ rw offline h
    | inr online ↦ rw online (
        and_then_keeps Holds (apply_rules env u twin s) (λ done s'. apply_setpoint env u twin s')
          (apply_rules_keeps twin s h)
          (λ done e.
            apply_setpoint_keeps twin (apply_rules env u twin s).1 (apply_rules_keeps twin s h)))
  ]
