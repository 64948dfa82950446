-- ===== src/Auth/Limiter.antt =====
-- The rate limiter (auth.py, `RateLimiter`).
mod Live
mod Tracks
pub mod Window
use centralized_hvac_system.Prelude.{ℕ, ◌-◌, ◌*◌, String, Bool, ltb, leb, if◌then◌else◌, ◌<>◌}
use centralized_hvac_system.Auth.Zset.{Zset}

abbrev pub default_rate : ℕ
default_rate = 100

-- in seconds
abbrev pub default_window : ℕ
default_window = 60

unfoldable pub limit_key : String → String
limit_key identity = "ratelimit:" <> identity

module _ {Z : Type 0} ⦃zs : Zset Z⦄ where
  -- `zremrangebyscore(key, 0, now - window)`; a range that ends below 0 holds nothing
  unfoldable pub forget_old : String → ℕ → ℕ → Z → Z
  forget_old key window now z =
      if ltb now (window * 1000) then z else zs.zrem_upto key (now - window * 1000) z

  -- `check`, at the time `now` in milliseconds, with the n-th identifier of uuid4
  unfoldable pub check : (ℕ → String) → ℕ → ℕ → String → ℕ → ℕ → Z → Bool × Z
  check uuid rate window identity now n z =
      let key = limit_key identity in
      let z1 = forget_old key window now z in
      let z2 = zs.zadd key (uuid n) now z1 in (leb (zs.zcard key z2) rate, zs.expire key window z2)
