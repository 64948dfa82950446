-- ===== src/Prelude/Result.antt =====
-- Python's exceptions as values, and methods that mutate an object and may raise.
use Prim.Native.Nat.{ℕ}
use mathlib.Core.Path.{◌≡◌, refl}
use mathlib.Core.Logic.{◌⊎◌, inl, inr}

-- The exception classes that the modelled code can raise.
pub data Exception : Type 0 where
  key_error value_error type_error validation_error jwt_error integrity_error runtime_error :
      Exception
  http_error : (status_code : ℕ) → Exception

pub data Result {ℓ} (A : Type ℓ) : Type ℓ where
  ok : A → Result A
  raised : Exception → Result A

infixl 5 ◌>>=◌ ◌>>◌
abbrev pub ◌>>=◌ {ℓ κ} : {A : Type ℓ} {B : Type κ} → Result A → (A → Result B) → Result B
ok a >>= f = f a
raised e >>= f = raised e

abbrev pub ◌>>◌ {ℓ κ} : {A : Type ℓ} {B : Type κ} → Result A → Result B → Result B
m >> k = m >>= λ _. k

-- What was written before a raise stays written: the state comes back beside the exception too.
abbrev pub Exec {ℓ} : Type ℓ → Type ℓ → Type ℓ
Exec S A = S → Result A × S

-- The second half of a step: it runs only if the first did not raise.
abbrev pub and_then {ℓ} : {S A B : Type ℓ} → Result A × S → (A → Exec S B) → Result B × S
and_then (ok a, s) f = f a s
and_then (raised e, s) f = (raised e, s)

-- A step that returned went through its first half.
pub and_then-eq-ok {ℓ} :
    {S A B : Type ℓ} (m : Result A × S) (f : A → Exec S B) (b : B)
    → (and_then m f).0 ≡ ok b
    → (a : A) × (m.0 ≡ ok a) × (and_then m f ≡ f a m.1)
and_then-eq-ok (ok a, s) f b h = (a, refl, refl)
and_then-eq-ok (raised e, s) f b h = cc

pub Result-cases {ℓ} :
    {A : Type ℓ} (r : Result A) → ((a : A) × (r ≡ ok a)) ⊎ ((e : Exception) × (r ≡ raised e))
Result-cases (ok a) = inl (a, refl)
Result-cases (raised e) = inr (e, refl)

-- Inversion of a bind that returned.
pub >>=-eq-ok {ℓ κ} :
    {A : Type ℓ} {B : Type κ} (m : Result A) (f : A → Result B) (b : B)
    → (m >>= f) ≡ ok b
    → (a : A) × (m ≡ ok a) × (f a ≡ ok b)
>>=-eq-ok (ok a) f b h = (a, refl, h)
>>=-eq-ok (raised e) f b h = cc

-- What the first half leaves true, and the second half keeps, holds at the end, raised or not.
pub and_then_keeps {ℓ κ} :
    {S A B : Type ℓ} (P : S → Type κ) (m : Result A × S) (f : A → Exec S B)
    → P m.1
    → ((a : A) → m.0 ≡ ok a → P (f a m.1).1)
    → P (and_then m f).1
and_then_keeps P (ok a, s) f h k = k a refl
and_then_keeps P (raised e, s) f h k = h

pub and_then_returns {ℓ} :
    {S A B : Type ℓ} (m : Result A × S) (f : A → Exec S B) (a : A)
    → m.0 ≡ ok a
    → and_then m f ≡ f a m.1
and_then_returns (ok b, s) f a h = cc
and_then_returns (raised e, s) f a h = cc
