-- ===== src/Auth/Zset/Interface.antt =====
-- The commands ZREMRANGEBYSCORE from 0, ZADD, ZCARD and EXPIRE, and the passing of time.
use centralized_hvac_system.Prelude.{
  ℕ, ◌-◌, ◌*◌, ◌<◌, String, ◌≡◌, not, false, List, [], ◌∷◌, ◌++◌, ◌==◌, ltb, nat_eq, ◌||◌,
  if◌then◌else◌, select, length,
}

pub record Zset (Z : Type 0) : Type 0 where
  -- `zremrangebyscore(key, 0, upto)`
  pub zrem_upto : String → ℕ → Z → Z
  -- `zadd(key, {member: score})`
  pub zadd : String → String → ℕ → Z → Z
  pub zcard : String → Z → ℕ
  -- `expire(key, seconds)`
  pub expire : String → ℕ → Z → Z
  -- the store some milliseconds later
  pub pass : ℕ → Z → Z
  -- the members of a key with their scores, and its time to live: 0 if no expiry is set
  pub entries : String → Z → List (String × ℕ)
  pub life : String → Z → ℕ

-- A member has one score; a key whose time is over is gone with its members and its expiry.
pub record IsZset (Z : Type 0) ⦃zs : Zset Z⦄ : Type 0 where
  pub zcard-eq : (k : String) (z : Z) → zs.zcard k z ≡ length (zs.entries k z)
  pub entries-zrem :
      (j k : String) (hi : ℕ) (z : Z)
      → zs.entries k (zs.zrem_upto j hi z)
        ≡ (if j == k then select (λ e. ltb hi e.1) (zs.entries k z) else zs.entries k z)
  pub entries-zadd :
      (j k m : String) (s : ℕ) (z : Z)
      → zs.entries k (zs.zadd j m s z) ≡ (
          if j == k
          then select (λ e. not (e.0 == m)) (zs.entries k z) ++ (m, s) ∷ []
          else zs.entries k z)
  pub entries-expire :
      (j k : String) (s : ℕ) (z : Z) → 0 < s → zs.entries k (zs.expire j s z) ≡ zs.entries k z
  pub entries-pass :
      (k : String) (n : ℕ) (z : Z)
      → zs.entries k (zs.pass n z)
        ≡ (if nat_eq (zs.life k z) 0 || ltb n (zs.life k z) then zs.entries k z else [])
  pub life-zrem :
      (j k : String) (hi : ℕ) (z : Z)
      → (j == k) ≡ false
      → zs.life k (zs.zrem_upto j hi z) ≡ zs.life k z
  pub life-zadd :
      (j k m : String) (s : ℕ) (z : Z)
      → (j == k) ≡ false
      → zs.life k (zs.zadd j m s z) ≡ zs.life k z
  pub life-expire :
      (j k : String) (s : ℕ) (z : Z)
      → 0 < length (zs.entries j z)
      → zs.life k (zs.expire j s z) ≡ (if j == k then s * 1000 else zs.life k z)
  pub life-pass : (k : String) (n : ℕ) (z : Z) → zs.life k (zs.pass n z) ≡ zs.life k z - n
