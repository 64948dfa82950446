-- ===== src/Redis/Sample.antt =====
-- A store that behaves as the interface asks: each key with its value and the time that it has left.
use centralized_hvac_system.Prelude.{
  ℕ, ◌-◌, ◌*◌, String, ◌≡◌, refl, Option, none, some, [], ◌∷◌, arith, ◌==◌, ltb, if◌then◌else◌,
}
use centralized_hvac_system.Dict.{Dict, lookup, insert, lookup-insert}
use centralized_hvac_system.Redis.Interface.{Redis, IsRedis}

abbrev pub Store : Type 0
Store = Dict (String × ℕ)

abbrev pub fresh_store : Store
fresh_store = []

abbrev left : Option (String × ℕ) → ℕ
left none = 0
left (some (v, n)) = n

abbrev pass : ℕ → Store → Store
pass n [] = []
pass n ((k, (v, m)) ∷ r) = (k, (v, m - n)) ∷ pass n r

instance abbrev pub store_redis : Redis Store
store_redis = record {
  exists = λ k r. ltb 0 (left (lookup k r));
  set_ex = λ k v s r. insert k (v, s * 1000) r;
  ttl = λ k r. left (lookup k r);
  pass = pass;
}

ttl_set :
    (k j v : String) (s : ℕ) (r : Store)
    → left (lookup j (insert k (v, s * 1000) r)) ≡ (if k == j then s * 1000 else left (lookup j r))
ttl_set k j v s r = ground (arith, lookup-insert k j (v, s * 1000) r)

ttl_pass : (k : String) (n : ℕ) (r : Store) → left (lookup k (pass n r)) ≡ left (lookup k r) - n
unfolding lookup
ttl_pass k n [] = ground arith
ttl_pass k n ((j, (v, m)) ∷ r) = ground (arith, ttl_pass k n r)

pub Store-IsRedis : IsRedis Store
Store-IsRedis = record { exists-eq-ltb = λ k r. refl; ttl-set_ex = ttl_set; ttl-pass = ttl_pass }
