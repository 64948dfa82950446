-- ===== src/Auth/Zset/Sample.antt =====
-- A store of sorted sets on which tests run: for each key its members and its time to live.
use centralized_hvac_system.Prelude.{
  ℕ, ◌-◌, ◌*◌, String, ◌≡◌, refl, ap, not, or_else, List, [], ◌∷◌, ◌++◌, ◌==◌, eq_iff, arith, ltb,
  nat_eq, ◌||◌, if◌then◌else◌, select, length,
}
use centralized_hvac_system.Dict.{Dict, lookup, insert, lookup-insert}
use centralized_hvac_system.Auth.Zset.Interface.{Zset, IsZset}

abbrev pub ZStore : Type 0
ZStore = Dict (List (String × ℕ) × ℕ)

abbrev at_key : String → ZStore → List (String × ℕ) × ℕ
at_key k z = or_else (lookup k z) ([], 0)

abbrev later : ℕ → List (String × ℕ) × ℕ → List (String × ℕ) × ℕ
later n (es, left) = (if nat_eq left 0 || ltb n left then es else [], left - n)

unfoldable pub pass_all : ℕ → ZStore → ZStore
pass_all n [] = []
pass_all n ((k, e) ∷ z) = (k, later n e) ∷ pass_all n z

instance abbrev pub zstore : Zset ZStore
zstore = record {
  zrem_upto = λ k hi z. let e = at_key k z in insert k (select (λ m. ltb hi m.1) e.0, e.1) z;
  zadd = λ k m s z.
      let e = at_key k z in insert k (select (λ x. not (x.0 == m)) e.0 ++ (m, s) ∷ [], e.1) z;
  zcard = λ k z. length (at_key k z).0;
  expire = λ k s z. insert k ((at_key k z).0, s * 1000) z;
  pass = pass_all;
  entries = λ k z. (at_key k z).0;
  life = λ k z. (at_key k z).1;
}

at-insert :
    (j k : String) (e : List (String × ℕ) × ℕ) (z : ZStore)
    → at_key k (insert j e z) ≡ (if j == k then e else at_key k z)
at-insert j k e z = ground (arith, lookup-insert j k e z)

at-pass_all : (k : String) (n : ℕ) (z : ZStore) → at_key k (pass_all n z) ≡ later n (at_key k z)
unfolding lookup pass_all
at-pass_all k n [] = ground arith
at-pass_all k n ((j, (es, left)) ∷ z) = ground (arith, at-pass_all k n z)

pub ZStore-IsZset : IsZset ZStore
ZStore-IsZset = record {
  zcard-eq = λ k z. refl;
  entries-zrem = λ j k hi z. ground (
    arith,
    eq_iff j k,
    at-insert j k (select (λ (m : String × ℕ). ltb hi m.1) (at_key j z).0, (at_key j z).1) z,
  );
  entries-zadd = λ j k m s z. ground (
    arith,
    eq_iff j k,
    at-insert j k
        (select (λ (x : String × ℕ). not (x.0 == m)) (at_key j z).0 ++ (m, s) ∷ [], (at_key j z).1)
        z,
  );
  entries-expire =
      λ j k s z h. ground (arith, eq_iff j k, at-insert j k ((at_key j z).0, s * 1000) z);
  entries-pass = λ k n z. ap (λ e. e.0) (at-pass_all k n z);
  life-zrem = λ j k hi z h. ground (
    arith,
    at-insert j k (select (λ (m : String × ℕ). ltb hi m.1) (at_key j z).0, (at_key j z).1) z,
  );
  life-zadd = λ j k m s z h. ground (
    arith,
    at-insert j k
        (select (λ (x : String × ℕ). not (x.0 == m)) (at_key j z).0 ++ (m, s) ∷ [], (at_key j z).1)
        z,
  );
  life-expire = λ j k s z h. ground (arith, at-insert j k ((at_key j z).0, s * 1000) z);
  life-pass = λ k n z. ap (λ e. e.1) (at-pass_all k n z);
}
