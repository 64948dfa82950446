-- ===== src/Control/Loop/Emergency.antt =====
-- The turn of a hot unit in `control_loop` (main (2).py).
use centralized_hvac_system.Prelude.{
  ◌+◌, ◌<◌, String, ◌≡◌, refl, sym, ap, ◌∙◌, true, false, none, some, List, [], ◌∷◌, ◌++◌, arith,
  eq_refl,
}
use mathlib.Core.Path.{subst}
use centralized_hvac_system.Prelude.Int.{pos}
use centralized_hvac_system.Prelude.Result.{ok, and_then_keeps, and_then_returns}
use centralized_hvac_system.Float.{Float}
use centralized_hvac_system.Dict.{lookup}
use centralized_hvac_system.Redis.{Redis, IsRedis}
use centralized_hvac_system.Models.{ControlCommand, off, control_command, status_of_text}
use centralized_hvac_system.Control.Value.{Twin, is_text}
use centralized_hvac_system.Control.Rules.{Firings, cooling, cooldown_key, evaluate}
use centralized_hvac_system.Control.Service.{Env, Service, Message, command, command_topic}
use centralized_hvac_system.Control.Dispatcher.{rate_key, send, dispatch}
use centralized_hvac_system.Control.Dispatcher.Limit.{dispatch_refused, ttl-send}
use centralized_hvac_system.Control.Actions.Overheat.{Readings, shut_down_action, evaluate_overheat}
use centralized_hvac_system.Control.Actions.{
  default_rules, overheat_shutdown, set_status, action_to_command,
}
use centralized_hvac_system.Control.Loop.Turn.{run_actions_keeps, apply_setpoint_keeps}
use centralized_hvac_system.Control.Loop.{
  dispatch_if, run_actions, apply_rules, apply_setpoint, process_unit,
}

module _ {F : Type 0} where
  -- The command of the overheat rule.
  abbrev pub shutdown : String → String → ControlCommand F
  shutdown u corr = record {
    unit_id = u;
    status = some off;
    target_temp = none;
    fan_speed = none;
    issued_by = "rule:overheat-shutdown";
    correlation_id = some corr;
  }

module _ {F R : Type 0} ⦃fl : Float F⦄ ⦃rd : Redis R⦄ (laws : IsRedis R) (env : Env F) where
  action_shutdown :
      (u : String) (s : Service F R)
      → action_to_command env u overheat_shutdown shut_down_action s ≡ (
        ok (some (shutdown u (env.uuid s.identifiers))),
        record s { identifiers = s.identifiers + 1 },
      )
  unfolding action_to_command set_status status_of_text control_command overheat_shutdown
  action_shutdown u s = refl

  -- Once the unit's shutdown is sent, nothing else is published in its turn.
  abbrev Limited : String → List (Message F) → List (Message F) → R → Type 0
  Limited u sent outbox redis = (outbox ≡ sent) × (0 < rd.ttl (rate_key u) redis)

  dispatch-Limited :
      (u : String) (sent : List (Message F)) (cmd : ControlCommand F) (s : Service F R)
      → cmd.unit_id ≡ u
      → Limited u sent s.outbox s.redis
      → Limited u sent (dispatch env cmd s).1.outbox (dispatch env cmd s).1.redis
  dispatch-Limited u sent cmd s same h =
      let refused = dispatch_refused laws env cmd s (rw same h.1) in rw refused h

  dispatch-free :
      (cmd : ControlCommand F) (s : Service F R)
      → rd.ttl (rate_key cmd.unit_id) s.redis ≡ 0
      → (dispatch env cmd s).1 ≡ send env cmd s
  unfolding dispatch
  dispatch-free cmd s h = ground (arith, laws.exists-eq-ltb (rate_key cmd.unit_id) s.redis)

  -- The state once the shutdown is sent.
  after_shutdown : String → Service F R → Service F R
  after_shutdown u s =
      send env (shutdown u (env.uuid s.identifiers)) (record s { identifiers = s.identifiers + 1 })

  run_actions-shutdown :
      (u : String) (rest : Firings F) (s : Service F R)
      → rd.ttl (rate_key u) s.redis ≡ 0
      → run_actions env u ((overheat_shutdown, shut_down_action) ∷ rest) s
        ≡ run_actions env u rest (after_shutdown u s)
  unfolding run_actions dispatch_if after_shutdown
  run_actions-shutdown u rest s free =
      let cmd : ControlCommand F = shutdown u (env.uuid s.identifiers) in
      let s' = record s { identifiers = s.identifiers + 1 } in
      and_then_returns (action_to_command env u overheat_shutdown shut_down_action s)
        (λ c s''. run_actions env u rest (dispatch_if env c s'')) (some cmd)
        (ap (λ m. m.0) (action_shutdown u s))
      ∙ (ap (λ m. run_actions env u rest (dispatch_if env (some cmd) m.1)) (action_shutdown u s)
          ∙ ap (run_actions env u rest) (dispatch-free cmd s' free))

  abbrev with_shutdown : String → Service F R → List (Message F)
  with_shutdown u s =
      s.outbox
      ++ command (command_topic u) (shutdown u (env.uuid s.identifiers)) (env.clock s.readings)
          false
        ∷ []

  after_shutdown-Limited :
      (u : String) (s : Service F R)
      → Limited u (with_shutdown u s) (after_shutdown u s).outbox (after_shutdown u s).redis
  unfolding after_shutdown
  after_shutdown-Limited u s =
      let cmd : ControlCommand F = shutdown u (env.uuid s.identifiers) in
      let s' = record s { identifiers = s.identifiers + 1 } in
      (unfold send in refl, ground (arith, ttl-send laws env u cmd s', eq_refl u))

  apply_rules-shutdown :
      (u : String) (twin : Twin F) (temp : F) (s : Service F R)
      → Readings twin temp
      → fl.le (fl.dec 35 0) temp ≡ true
      → s.engine.rules ≡ default_rules
      → cooling
          (env.clock s.readings)
          s.engine.cooldowns
          (cooldown_key overheat_shutdown twin)
          (pos 300)
        ≡ false
      → rd.ttl (rate_key u) s.redis ≡ 0
      → Limited u
          (with_shutdown u (record s { readings = s.readings + 1 }))
          (apply_rules env u twin s).1.outbox
          (apply_rules env u twin s).1.redis
  unfolding apply_rules
  apply_rules-shutdown u twin temp s r hot rules idle free =
      let (rest, h) =
        evaluate_overheat (env.clock s.readings) twin temp s.engine r hot rules idle in
      let (fired, engine') = evaluate (env.clock s.readings) twin s.engine in
      let s1 = record s { readings = s.readings + 1; engine = engine' } in
      let fs : Firings F = (overheat_shutdown, shut_down_action) ∷ rest in
      let e =
        and_then_returns (fired, s1) (run_actions env u) fs h
        ∙ run_actions-shutdown u rest s1 free in
      let sent = with_shutdown u (record s { readings = s.readings + 1 }) in
      let kept =
        run_actions_keeps env u (Limited u sent) (dispatch-Limited u sent) rest
          (after_shutdown u s1) (after_shutdown-Limited u s1) in
      subst (λ m. Limited u sent m.1.outbox m.1.redis) (sym e) kept

  -- A twin that reads 35 degrees or more, whose load can be read too, and that is not OFFLINE,
  -- with the rules of the start, the rule not cooling for the unit and no time left on the
  -- unit's rate limit: its whole turn publishes the OFF command, and nothing else.
  pub hot_unit_shut_down :
      (u : String) (twin : Twin F) (temp : F) (s : Service F R)
      → Readings twin temp
      → fl.le (fl.dec 35 0) temp ≡ true
      → is_text (lookup "status" twin) "OFFLINE" ≡ false
      → s.engine.rules ≡ default_rules
      → cooling
          (env.clock s.readings)
          s.engine.cooldowns
          (cooldown_key overheat_shutdown twin)
          (pos 300)
        ≡ false
      → rd.ttl (rate_key u) s.redis ≡ 0
      → (process_unit env u twin s).1.outbox
        ≡ s.outbox
          ++ command
              (command_topic u)
              (shutdown u (env.uuid s.identifiers))
              (env.clock (s.readings + 1))
              false
            ∷ []
  unfolding process_unit
  hot_unit_shut_down u twin temp s r hot here rules idle free =
      let sent = with_shutdown u (record s { readings = s.readings + 1 }) in
      let first = apply_rules-shutdown u twin temp s r hot rules idle free in
      let both =
        and_then_keeps (λ s'. Limited u sent s'.outbox s'.redis) (apply_rules env u twin s)
          (λ done s'. apply_setpoint env u twin s') first
          (λ done e.
            apply_setpoint_keeps env u (Limited u sent) (dispatch-Limited u sent) twin
              (apply_rules env u twin s).1 first) in
      rw here both.0
