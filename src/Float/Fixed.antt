-- ===== src/Float/Fixed.antt =====
-- Whole millionths, a concrete `float` on which the model runs: tests and witnesses use it.
use Prim.Native.Nat.{◌^◌}
use native.Mathlib.Nat.{le_trans, le-div_iff_mul-le, div-mul-le_self, div-zero}
use native.Mathlib.Decide.{dec_lt}
use centralized_hvac_system.Prelude.{
  ℕ, ◌+◌, ◌-◌, ◌*◌, ◌/◌, ◌≤◌, String, ◌≡◌, Bool, true, Option, none, some, arith, ltb, leb,
  if◌then◌else◌, ◌==◌, ◌⊎◌, ◌&&◌, not,
}
use centralized_hvac_system.Prelude.Int.{ℤ, pos, negsuc, pos_part, neg_part, leb_ℤ}
use centralized_hvac_system.Float.Interface.{Float, IsOrdered}

pub data Micro : Type 0 where
  micro : ℤ → Micro

abbrev units : Micro → ℤ
units (micro a) = a

abbrev sub_ℕ : ℕ → ℕ → ℤ
sub_ℕ a b = if leb b a then pos (a - b) else negsuc (b - a - 1)

abbrev magnitude : ℤ → ℕ
magnitude a = pos_part a + neg_part a

-- `n` with the sign of the product of `a` and `b`.
abbrev with_sign : ℤ → ℤ → ℕ → ℤ
with_sign (pos a) (pos b) n = pos n
with_sign (pos a) (negsuc b) n = sub_ℕ 0 n
with_sign (negsuc a) (pos b) n = sub_ℕ 0 n
with_sign (negsuc a) (negsuc b) n = pos n

-- The nearest multiple of `step`.
abbrev nearest : ℕ → ℤ → ℤ
nearest step a = with_sign a (pos 0) ((magnitude a + step / 2) / step * step)

abbrev micro_le : Micro → Micro → Bool
micro_le (micro a) (micro b) = leb_ℤ a b

abbrev micro_lt : Micro → Micro → Bool
micro_lt (micro a) (micro b) = ltb (pos_part a + neg_part b) (pos_part b + neg_part a)

-- The texts that the tests read as numbers.
abbrev known_text : String → Option Micro
known_text s =
    if s == "24.0"
    then some (micro (pos 24000000))
    else if s == "36.0"
    then some (micro (pos 36000000))
    else if s == "95.0"
    then some (micro (pos 95000000))
    else none

instance abbrev pub micro_float : Float Micro
micro_float = record {
  dec = λ m k. micro (pos (m * 1000000 / 10 ^ k));
  of_int = λ n. micro (with_sign n (pos 0) (magnitude n * 1000000));
  le = micro_le;
  lt = micro_lt;
  add = λ x y.
      micro
        (sub_ℕ (pos_part (units x) + pos_part (units y)) (neg_part (units x) + neg_part (units y)));
  sub = λ x y.
      micro
        (sub_ℕ (pos_part (units x) + neg_part (units y)) (neg_part (units x) + pos_part (units y)));
  mul = λ x y.
      micro (with_sign (units x) (units y) (magnitude (units x) * magnitude (units y) / 1000000));
  div = λ x y.
      micro (with_sign (units x) (units y) (magnitude (units x) * 1000000 / magnitude (units y)));
  abs = λ x. micro (pos (magnitude (units x)));
  round = λ x. micro (nearest 1000000 (units x));
  round_to = λ x n. micro (nearest (10 ^ (6 - n)) (units x));
  parse = known_text;
  to_str = λ x. "0.0";
}

le_self_micro : (x : Micro) → micro_le x x ≡ true
le_self_micro (micro a) = ground arith

le_trans_micro : (x y z : Micro) → micro_le x y ≡ true → micro_le y z ≡ true → micro_le x z ≡ true
le_trans_micro (micro a) (micro b) (micro c) p q = ground arith

le_total_micro : (x y : Micro) → (micro_le x y ≡ true) ⊎ (micro_le y x ≡ true)
le_total_micro (micro a) (micro b) = ground arith

lt_le_micro : (x y : Micro) → micro_lt x y ≡ (micro_le x y && not (micro_le y x))
lt_le_micro (micro a) (micro b) = ground arith

div_mono : (a b d : ℕ) → a ≤ b → a / d ≤ b / d
div_mono a b d h = elim (dec_lt 0 d) [
  | yes p ↦ (le-div_iff_mul-le p).1 (le_trans (div-mul-le_self a d) h)
  | no p ↦ let e : d ≡ 0 = omega arith in rw e (omega (arith, div-zero a, div-zero b))
]

dec_le_micro : (m n k : ℕ) → m ≤ n → micro_le (micro_float.dec m k) (micro_float.dec n k) ≡ true
dec_le_micro m n k h =
    let lt = div_mono (m * 1000000) (n * 1000000) (10 ^ k) (omega arith) in ground arith

pub Micro-IsOrdered : IsOrdered Micro
Micro-IsOrdered = record {
  le_self = λ x y h. (le_self_micro x, le_self_micro y);
  le_trans = le_trans_micro;
  le_total = λ x y p q. le_total_micro x y;
  lt_le = lt_le_micro;
  dec_le = dec_le_micro;
}
