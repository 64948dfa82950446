-- ===== src/Alerts/Pipeline/Dedup.antt =====
-- The deduplication of alerts (main (3).py, `emit_alert`).
use centralized_hvac_system.Prelude.{
  ℕ, ◌+◌, ◌-◌, ◌<◌, String, ◌≡◌, true, false, List, [], ◌∷◌, arith, eq_iff, eq_refl,
}
use centralized_hvac_system.Prelude.Result.{ok, raised, Exception}
use centralized_hvac_system.Redis.{Redis, IsRedis}
use centralized_hvac_system.Alerts.Detector.{AlertPayload}
use centralized_hvac_system.Alerts.Pipeline.{
  Sinks, AlertService, dedup_key, dedup_ttl_s, fire_webhooks, raise_new, emit_alert,
}

-- Time passes, or an alert is emitted.
pub data Event (F : Type 0) : Type 0 where
  wait : ℕ → Event F
  alarm : AlertPayload F → Event F

abbrev pub elapsed : {F : Type 0} → List (Event F) → ℕ
elapsed [] = 0
elapsed (wait n ∷ evs) = n + elapsed evs
elapsed (alarm a ∷ evs) = elapsed evs

module _ {F R : Type 0} ⦃rd : Redis R⦄ (out : Sinks F) where
  abbrev pub happen : Event F → AlertService F R → AlertService F R
  happen (wait n) s = record s { redis = rd.pass n s.redis }
  happen (alarm a) s = (emit_alert out a s).1

  abbrev pub run : List (Event F) → AlertService F R → AlertService F R
  run [] s = s
  run (e ∷ evs) s = run evs (happen e s)

module _ {F R : Type 0} ⦃rd : Redis R⦄ (laws : IsRedis R) (out : Sinks F) where
  redis-raise_new :
      (a : AlertPayload F) (s : AlertService F R)
      → (raise_new out a s).1.redis ≡ rd.set_ex (dedup_key a) "1" dedup_ttl_s s.redis
  unfolding raise_new fire_webhooks
  redis-raise_new a s = ground arith

  -- A key with time left keeps it, whatever alert is emitted.
  ttl-emit_alert :
      (k : String) (a : AlertPayload F) (s : AlertService F R)
      → 0 < rd.ttl k s.redis
      → rd.ttl k (emit_alert out a s).1.redis ≡ rd.ttl k s.redis
  unfolding emit_alert
  ttl-emit_alert k a s h = ground (
    arith,
    laws.exists-eq-ltb (dedup_key a) s.redis,
    redis-raise_new a s,
    laws.ttl-set_ex (dedup_key a) k "1" dedup_ttl_s s.redis,
    eq_iff (dedup_key a) k,
  )

  ttl-run :
      (k : String) (evs : List (Event F)) (s : AlertService F R)
      → elapsed evs < rd.ttl k s.redis
      → rd.ttl k (run out evs s).redis ≡ rd.ttl k s.redis - elapsed evs
  ttl-run k [] s h = omega arith
  ttl-run k (wait n ∷ evs) s h =
      let e = laws.ttl-pass k n s.redis in
      omega (arith, e, ttl-run k evs (record s { redis = rd.pass n s.redis }) (omega (arith, e)))
  ttl-run k (alarm a ∷ evs) s h =
      let e = ttl-emit_alert k a s (omega arith) in
      omega (arith, e, ttl-run k evs (emit_alert out a s).1 (omega (arith, e)))

  ttl-emitted :
      (a : AlertPayload F) (s : AlertService F R)
      → (emit_alert out a s).0 ≡ ok true
      → rd.ttl (dedup_key a) (emit_alert out a s).1.redis ≡ 300000
  unfolding emit_alert
  ttl-emitted a s h = ground (
    arith,
    redis-raise_new a s,
    laws.ttl-set_ex (dedup_key a) (dedup_key a) "1" dedup_ttl_s s.redis,
    eq_refl (dedup_key a),
  )

  same_key :
      (a a' : AlertPayload F)
      → a'.unit_id ≡ a.unit_id
      → a'.alert_type ≡ a.alert_type
      → dedup_key a' ≡ dedup_key a
  unfolding dedup_key
  same_key a a' u t = cc

  suppressed :
      (a : AlertPayload F) (s : AlertService F R)
      → 0 < rd.ttl (dedup_key a) s.redis
      → emit_alert out a s ≡ (ok false, s)
  unfolding emit_alert
  suppressed a s h = ground (arith, laws.exists-eq-ltb (dedup_key a) s.redis)

  -- After an alert of a type for a unit went through, a further one of that type for that unit is
  -- suppressed and changes nothing until 300 seconds have passed, whatever alerts come in between.
  pub one_alert_per_window :
      (a a' : AlertPayload F) (evs : List (Event F)) (s : AlertService F R)
      → (emit_alert out a s).0 ≡ ok true
      → a'.unit_id ≡ a.unit_id
      → a'.alert_type ≡ a.alert_type
      → elapsed evs < 300000
      → let s' = run out evs (emit_alert out a s).1 in emit_alert out a' s' ≡ (ok false, s')
  one_alert_per_window a a' evs s went unit type soon =
      let s1 = (emit_alert out a s).1 in
      let start = ttl-emitted a s went in
      let left = ttl-run (dedup_key a) evs s1 (omega (arith, start)) in
      suppressed a' (run out evs s1) (rw (same_key a a' unit type) (omega (arith, start, left)))

  ttl-raise_new :
      (a : AlertPayload F) (s : AlertService F R)
      → rd.exists (dedup_key a) s.redis ≡ false
      → rd.ttl (dedup_key a) (emit_alert out a s).1.redis ≡ 300000
  unfolding emit_alert
  ttl-raise_new a s h = ground (
    arith,
    redis-raise_new a s,
    laws.ttl-set_ex (dedup_key a) (dedup_key a) "1" dedup_ttl_s s.redis,
    eq_refl (dedup_key a),
  )

  refused :
      (a : AlertPayload F) (s : AlertService F R) (e : Exception)
      → rd.exists (dedup_key a) s.redis ≡ false
      → out.commits s.attempts a ≡ raised e
      → let (done, s') = emit_alert out a s in
        (done ≡ raised e)
        × (s'.stored ≡ s.stored)
        × (s'.published ≡ s.published)
        × (s'.posted ≡ s.posted)
  unfolding emit_alert raise_new
  refused a s e fresh failed = (ground arith, ground arith, ground arith, ground arith)

  -- An alert that is no duplicate and whose commit the database refuses is neither stored nor
  -- published nor posted, and a further alert of its type for its unit is suppressed and changes
  -- nothing until 300 seconds have passed, whatever alerts come in between.
  pub lost_alert :
      (a a' : AlertPayload F) (evs : List (Event F)) (s : AlertService F R) (e : Exception)
      → rd.exists (dedup_key a) s.redis ≡ false
      → out.commits s.attempts a ≡ raised e
      → a'.unit_id ≡ a.unit_id
      → a'.alert_type ≡ a.alert_type
      → elapsed evs < 300000
      → let s1 = (emit_alert out a s).1 in
        let s' = run out evs s1 in
        ((emit_alert out a s).0 ≡ raised e)
        × (s1.stored ≡ s.stored)
        × (s1.published ≡ s.published)
        × (s1.posted ≡ s.posted)
        × (emit_alert out a' s' ≡ (ok false, s'))
  lost_alert a a' evs s e fresh failed unit type soon =
      let s1 = (emit_alert out a s).1 in
      let start = ttl-raise_new a s fresh in
      let left = ttl-run (dedup_key a) evs s1 (omega (arith, start)) in
      let (done, stored, published, posted) = refused a s e fresh failed in
      (
        done,
        stored,
        published,
        posted,
        suppressed a' (run out evs s1) (rw (same_key a a' unit type) (omega (arith, start, left))),
      )
