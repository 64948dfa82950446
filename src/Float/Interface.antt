-- ===== src/Float/Interface.antt =====
-- The operations and the order laws of `float`.
use centralized_hvac_system.Prelude.{ℕ, ◌*◌, ◌≤◌, String, ◌≡◌, ◌⊎◌, Bool, true, not, ◌&&◌, Option}
use centralized_hvac_system.Prelude.Int.{ℤ}

pub record Float (F : Type 0) : Type 0 where
  -- the literal `m / 10 ** k`: `dec 25 2` is 0.25, `dec 90 0` is 90.0
  pub dec : ℕ → ℕ → F
  -- `float(n)` of an `int`
  pub of_int : ℤ → F
  pub le : F → F → Bool
  pub lt : F → F → Bool
  pub add : F → F → F
  pub sub : F → F → F
  pub mul : F → F → F
  pub div : F → F → F
  pub abs : F → F
  -- `round(x)` to a whole number and `round(x, n)` to n digits
  pub round : F → F
  pub round_to : F → ℕ → F
  -- `float(s)` of a text, `none` where Python raises `ValueError`, and `str(x)`
  pub parse : String → Option F
  pub to_str : F → String

-- NaN is the value that is not `<=` itself; the order is total away from it.
pub record IsOrdered (F : Type 0) ⦃fl : Float F⦄ : Type 0 where
  pub le_self : (x y : F) → fl.le x y ≡ true → (fl.le x x ≡ true) × (fl.le y y ≡ true)
  pub le_trans : (x y z : F) → fl.le x y ≡ true → fl.le y z ≡ true → fl.le x z ≡ true
  pub le_total :
      (x y : F) → fl.le x x ≡ true → fl.le y y ≡ true → (fl.le x y ≡ true) ⊎ (fl.le y x ≡ true)
  pub lt_le : (x y : F) → fl.lt x y ≡ (fl.le x y && not (fl.le y x))
  -- literals stand in the order of the numbers that they write
  pub dec_le : (m n k : ℕ) → m ≤ n → fl.le (fl.dec m k) (fl.dec n k) ≡ true

-- Doubling, rounding to a whole number and halving keep the order, and are exact at the ends of
-- a band of whole degrees.
pub record RoundsHalves (F : Type 0) ⦃fl : Float F⦄ : Type 0 where
  pub double_mono :
      (x y : F) → fl.le x y ≡ true → fl.le (fl.mul x (fl.dec 2 0)) (fl.mul y (fl.dec 2 0)) ≡ true
  pub round_mono : (x y : F) → fl.le x y ≡ true → fl.le (fl.round x) (fl.round y) ≡ true
  pub half_mono :
      (x y : F) → fl.le x y ≡ true → fl.le (fl.div x (fl.dec 2 0)) (fl.div y (fl.dec 2 0)) ≡ true
  pub exact_double : (m : ℕ) → m ≤ 100 → fl.mul (fl.dec m 0) (fl.dec 2 0) ≡ fl.dec (m * 2) 0
  pub exact_round : (m : ℕ) → m ≤ 100 → fl.round (fl.dec m 0) ≡ fl.dec m 0
  pub exact_half : (m : ℕ) → m ≤ 100 → fl.div (fl.dec (m * 2) 0) (fl.dec 2 0) ≡ fl.dec m 0
