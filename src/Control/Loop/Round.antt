-- ===== src/Control/Loop/Round.antt =====
-- What the turn of one unit in `control_loop` (main (2).py) publishes.
use centralized_hvac_system.Prelude.{
  ℕ, ◌+◌, ◌≤◌, ◌<◌, String, ◌≡◌, refl, ap, ◌⊎◌, inl, inr, false, List, [], ◌∷◌, arith, length,
  length-append, eq_iff,
}
use centralized_hvac_system.Float.{Float}
use centralized_hvac_system.Redis.{Redis, IsRedis}
use centralized_hvac_system.Models.{ControlCommand}
use centralized_hvac_system.Control.Value.{Twin}
use centralized_hvac_system.Control.Service.{Env, Service, Message, command, command_topic}
use centralized_hvac_system.Control.Dispatcher.{rate_key, send, dispatch}
use centralized_hvac_system.Control.Dispatcher.Limit.{ttl-send}
use centralized_hvac_system.Control.Loop.Turn.{process_unit_keeps}
use centralized_hvac_system.Control.Loop.{process_unit}

module _ {F R : Type 0} ⦃fl : Float F⦄ ⦃rd : Redis R⦄ (laws : IsRedis R) (env : Env F) where
  -- With `n` messages as the bound: one more may follow, or none, and the unit is limited.
  abbrev Spent : String → ℕ → List (Message F) → R → Type 0
  Spent u n outbox redis =
      (length outbox + 1 ≡ n) ⊎ ((length outbox ≡ n) × (0 < rd.ttl (rate_key u) redis))

  length-send :
      (cmd : ControlCommand F) (s : Service F R)
      → length (send env cmd s).outbox ≡ length s.outbox + 1
  unfolding send
  length-send cmd s = ground (
    arith,
    length-append s.outbox
        (command (command_topic cmd.unit_id) cmd (env.clock s.readings) false ∷ []),
  )

  dispatch-Spent :
      (u : String) (n : ℕ) (cmd : ControlCommand F) (s : Service F R)
      → cmd.unit_id ≡ u
      → Spent u n s.outbox s.redis
      → Spent u n (dispatch env cmd s).1.outbox (dispatch env cmd s).1.redis
  unfolding dispatch
  dispatch-Spent u n cmd s same h = ground (
    arith,
    laws.exists-eq-ltb (rate_key cmd.unit_id) s.redis,
    length-send cmd s,
    ttl-send laws env u cmd s,
    eq_iff cmd.unit_id u,
    ap rate_key same,
  )

  -- A unit's turn publishes at most one command, whatever the rules and the optimizer ask for.
  pub process_unit_one_command :
      (u : String) (twin : Twin F) (s : Service F R)
      → length (process_unit env u twin s).1.outbox ≤ length s.outbox + 1
  process_unit_one_command u twin s =
      let spent =
        process_unit_keeps env u (Spent u (length s.outbox + 1))
          (dispatch-Spent u (length s.outbox + 1)) twin s (inl refl) in
      omega arith

  -- A unit that was sent a command within the last five seconds is sent none in its turn.
  pub process_unit_limited :
      (u : String) (twin : Twin F) (s : Service F R)
      → 0 < rd.ttl (rate_key u) s.redis
      → length (process_unit env u twin s).1.outbox ≤ length s.outbox
  process_unit_limited u twin s h =
      let spent =
        process_unit_keeps env u (Spent u (length s.outbox)) (dispatch-Spent u (length s.outbox))
          twin s (inr (refl, h)) in
      omega arith
