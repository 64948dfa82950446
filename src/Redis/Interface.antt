-- ===== src/Redis/Interface.antt =====
-- The commands EXISTS, SET with EX, GET and TTL, and the passing of time, in milliseconds.
use centralized_hvac_system.Prelude.{ℕ, ◌-◌, ◌*◌, String, ◌≡◌, Bool, ◌==◌, ltb, if◌then◌else◌}

pub record Redis (R : Type 0) : Type 0 where
  pub exists : String → R → Bool
  -- `set(key, value, ex=seconds)`
  pub set_ex : String → String → ℕ → R → R
  -- the milliseconds that a key has left, 0 for a key that is not there
  pub ttl : String → R → ℕ
  -- the store some milliseconds later, with no command in between
  pub pass : ℕ → R → R

-- A key exists while it has time left, SET EX gives it its time, and time passes for all keys.
pub record IsRedis (R : Type 0) ⦃rd : Redis R⦄ : Type 0 where
  pub exists-eq-ltb : (k : String) (r : R) → rd.exists k r ≡ ltb 0 (rd.ttl k r)
  pub ttl-set_ex :
      (k j v : String) (s : ℕ) (r : R)
      → rd.ttl j (rd.set_ex k v s r) ≡ (if k == j then s * 1000 else rd.ttl j r)
  pub ttl-pass : (k : String) (n : ℕ) (r : R) → rd.ttl k (rd.pass n r) ≡ rd.ttl k r - n
