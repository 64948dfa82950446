-- ===== src/Control/Dispatcher/Limit.antt =====
-- The rate limit of `CommandDispatcher.dispatch` (main (2).py).
use Prim.Native.Char.{code}
use text.Mathlib.TextLemmas.{append_cancel_left, append_assoc, cons-append, head-eq_of_cons-eq}
use centralized_hvac_system.Prelude.{
  ap, or_else, ℕ, ◌+◌, ◌-◌, ◌≤◌, ◌<◌, String, ◌≡◌, ◌≢◌, not, ◌&&◌, sym, ◌∙◌, Bool, true, false,
  Option, List, [], ◌∷◌, arith, ◌==◌, eq_iff, eq_refl, ltb, if◌then◌else◌, ◌<>◌,
}
use centralized_hvac_system.Redis.{Redis, IsRedis}
use centralized_hvac_system.Models.{ControlCommand}
use centralized_hvac_system.Control.Service.{command, Env, Service, command_topic}
use centralized_hvac_system.Control.Dispatcher.{
  rate_key, ack_key, send, dispatch, manual_command, identified, cmd_rate_limit_s,
}

-- The store some milliseconds later.
abbrev pub later : {F R : Type 0} → ⦃rd : Redis R⦄ → ℕ → Service F R → Service F R
later ⦃rd⦄ n s = record s { redis = rd.pass n s.redis }

-- What can happen between two commands: time passes, a command is dispatched or is refused, an
-- operator overrides.
pub data Event (F : Type 0) : Type 0 where
  wait : ℕ → Event F
  try_command : ControlCommand F → Event F
  override_command : ControlCommand F → Event F

abbrev pub elapsed : {F : Type 0} → List (Event F) → ℕ
elapsed [] = 0
elapsed (wait n ∷ evs) = n + elapsed evs
elapsed (e ∷ evs) = elapsed evs

-- No dispatch to the unit is tried.
abbrev pub untried : {F : Type 0} → String → List (Event F) → Bool
untried u [] = true
untried u (try_command c ∷ evs) = not (c.unit_id == u) && untried u evs
untried u (e ∷ evs) = untried u evs

rate_key_inj : (u v : String) → rate_key u ≡ rate_key v → u ≡ v
unfolding rate_key
rate_key_inj u v h = append_cancel_left "cmd_rate:" u v h

ack-ne-rate : (corr : Option String) (u : String) → ack_key corr ≢ rate_key u
unfolding ack_key rate_key
ack-ne-rate corr u h =
    let c = or_else corr "None" in
    let e =
      append_cancel_left "cmd_" ("ack:" <> c) ("rate:" <> u)
        (sym (append_assoc "cmd_" "ack:" c) ∙ (h ∙ append_assoc "cmd_" "rate:" u)) in
    let first =
      head-eq_of_cons-eq (sym (cons-append "a" "ck:" c) ∙ (e ∙ cons-append "r" "ate:" u)) in
    let codes_equal : code "a" ≡ code "r" = ap code first in absurd (omega arith)

module _ {F R : Type 0} ⦃rd : Redis R⦄ (env : Env F) where
  abbrev step : Event F → Service F R → Service F R
  step (wait n) s = later n s
  step (try_command c) s = (dispatch env c s).1
  step (override_command c) s = manual_command env c s

  abbrev pub run : List (Event F) → Service F R → Service F R
  run [] s = s
  run (e ∷ evs) s = run evs (step e s)

module _ {F R : Type 0} ⦃rd : Redis R⦄ (laws : IsRedis R) (env : Env F) where
  -- The time left of a unit's rate key after a command is sent.
  pub ttl-send :
      (u : String) (cmd : ControlCommand F) (s : Service F R)
      → rd.ttl (rate_key u) (send env cmd s).redis
        ≡ (if cmd.unit_id == u then 5000 else rd.ttl (rate_key u) s.redis)
  unfolding send
  ttl-send u cmd s =
      let message = command (command_topic cmd.unit_id) cmd (env.clock s.readings) false in
      let limited = rd.set_ex (rate_key cmd.unit_id) "1" cmd_rate_limit_s s.redis in
      ground (
        arith,
        laws.ttl-set_ex (ack_key cmd.correlation_id) (rate_key u) (env.dumps message) 300 limited,
        laws.ttl-set_ex (rate_key cmd.unit_id) (rate_key u) "1" cmd_rate_limit_s s.redis,
        eq_iff (ack_key cmd.correlation_id) (rate_key u),
        ack-ne-rate cmd.correlation_id u,
        eq_iff (rate_key cmd.unit_id) (rate_key u),
        eq_iff cmd.unit_id u,
        rate_key_inj cmd.unit_id u,
        ap rate_key,
      )

  -- A unit whose rate key has time left is refused, and any other is accepted.
  pub dispatch_decides :
      (cmd : ControlCommand F) (s : Service F R)
      → (dispatch env cmd s).0 ≡ not (ltb 0 (rd.ttl (rate_key cmd.unit_id) s.redis))
  unfolding dispatch
  dispatch_decides cmd s = ground (arith, laws.exists-eq-ltb (rate_key cmd.unit_id) s.redis)

  pub dispatch_refused :
      (cmd : ControlCommand F) (s : Service F R)
      → 0 < rd.ttl (rate_key cmd.unit_id) s.redis
      → dispatch env cmd s ≡ (false, s)
  unfolding dispatch
  dispatch_refused cmd s h = ground (arith, laws.exists-eq-ltb (rate_key cmd.unit_id) s.redis)

  redis-manual_command :
      (cmd : ControlCommand F) (s : Service F R) → (manual_command env cmd s).redis ≡ s.redis
  unfolding manual_command identified
  redis-manual_command cmd s = ground arith

  -- While a unit's key has time left no dispatch renews it.
  ttl-dispatch :
      (u : String) (cmd : ControlCommand F) (s : Service F R)
      → 0 < rd.ttl (rate_key u) s.redis
      → rd.ttl (rate_key u) (dispatch env cmd s).1.redis ≡ rd.ttl (rate_key u) s.redis
  unfolding dispatch
  ttl-dispatch u cmd s h = ground (
    arith,
    laws.exists-eq-ltb (rate_key cmd.unit_id) s.redis,
    ttl-send u cmd s,
    eq_iff cmd.unit_id u,
    ap rate_key,
  )

  ttl-dispatch_other :
      (u : String) (cmd : ControlCommand F) (s : Service F R)
      → (cmd.unit_id == u) ≡ false
      → rd.ttl (rate_key u) (dispatch env cmd s).1.redis ≡ rd.ttl (rate_key u) s.redis
  unfolding dispatch
  ttl-dispatch_other u cmd s h = ground (arith, ttl-send u cmd s)

  ttl-run :
      (u : String) (evs : List (Event F)) (s : Service F R)
      → elapsed evs < rd.ttl (rate_key u) s.redis
      → rd.ttl (rate_key u) (run env evs s).redis ≡ rd.ttl (rate_key u) s.redis - elapsed evs
  ttl-run u [] s h = omega arith
  ttl-run u (wait n ∷ evs) s h =
      let e = laws.ttl-pass (rate_key u) n s.redis in
      omega (arith, e, ttl-run u evs (later n s) (omega (arith, e)))
  ttl-run u (try_command c ∷ evs) s h =
      let e = ttl-dispatch u c s (omega arith) in
      omega (arith, e, ttl-run u evs (dispatch env c s).1 (omega (arith, e)))
  ttl-run u (override_command c ∷ evs) s h =
      let e = ap (rd.ttl (rate_key u)) (redis-manual_command c s) in
      omega (arith, e, ttl-run u evs (manual_command env c s) (omega (arith, e)))

  pub ttl-accepted :
      (cmd : ControlCommand F) (s : Service F R)
      → (dispatch env cmd s).0 ≡ true
      → rd.ttl (rate_key cmd.unit_id) (dispatch env cmd s).1.redis ≡ 5000
  unfolding dispatch
  ttl-accepted cmd s h = ground (arith, ttl-send cmd.unit_id cmd s, eq_refl cmd.unit_id)

  -- After a command to a unit is accepted, each further one to it is refused and changes nothing
  -- until five seconds have passed, whatever is tried or overridden in between.
  pub one_per_window :
      (cmd cmd' : ControlCommand F) (evs : List (Event F)) (s : Service F R)
      → (dispatch env cmd s).0 ≡ true
      → cmd'.unit_id ≡ cmd.unit_id
      → elapsed evs < 5000
      → let s' = run env evs (dispatch env cmd s).1 in dispatch env cmd' s' ≡ (false, s')
  one_per_window cmd cmd' evs s accepted same soon =
      let s1 = (dispatch env cmd s).1 in
      let start = ttl-accepted cmd s accepted in
      let now_left = ttl-run cmd.unit_id evs s1 (omega (arith, start)) in
      dispatch_refused cmd' (run env evs s1) (rw same (omega (arith, start, now_left)))

  ttl-run_le :
      (u : String) (evs : List (Event F)) (s : Service F R)
      → untried u evs ≡ true
      → rd.ttl (rate_key u) (run env evs s).redis ≤ rd.ttl (rate_key u) s.redis - elapsed evs
  ttl-run_le u [] s h = omega arith
  ttl-run_le u (wait n ∷ evs) s h =
      omega (arith, laws.ttl-pass (rate_key u) n s.redis, ttl-run_le u evs (later n s) h)
  ttl-run_le u (try_command c ∷ evs) s h =
      let other : (c.unit_id == u) ≡ false = ground arith in
      omega (
        arith,
        ttl-dispatch_other u c s other,
        ttl-run_le u evs (dispatch env c s).1 (ground arith),
      )
  ttl-run_le u (override_command c ∷ evs) s h =
      let e = ap (rd.ttl (rate_key u)) (redis-manual_command c s) in
      omega (arith, e, ttl-run_le u evs (manual_command env c s) h)

  -- Once five seconds have passed with no try for the unit, the next command to it is accepted.
  pub limit_lifts :
      (cmd cmd' : ControlCommand F) (evs : List (Event F)) (s : Service F R)
      → (dispatch env cmd s).0 ≡ true
      → cmd'.unit_id ≡ cmd.unit_id
      → untried cmd.unit_id evs ≡ true
      → 5000 ≤ elapsed evs
      → (dispatch env cmd' (run env evs (dispatch env cmd s).1)).0 ≡ true
  limit_lifts cmd cmd' evs s accepted same idle long =
      let s1 = (dispatch env cmd s).1 in
      let start = ttl-accepted cmd s accepted in
      let now_left = ttl-run_le cmd.unit_id evs s1 idle in
      let none_left : rd.ttl (rate_key cmd'.unit_id) (run env evs s1).redis ≡ 0 =
        rw same (omega (arith, start, now_left)) in
      ground (arith, dispatch_decides cmd' (run env evs s1), none_left)
