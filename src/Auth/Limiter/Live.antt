-- ===== src/Auth/Limiter/Live.antt =====
-- The attempts that a sliding window holds (auth.py, `RateLimiter`).
use centralized_hvac_system.Prelude.{
  ℕ, ◌+◌, ◌≤◌, String, ◌≡◌, refl, Bool, true, ◌&&◌, List, [], ◌∷◌, ◌++◌, ◌==◌, arith, ltb,
  if◌then◌else◌, select, length, length-append, append_nil, Bool-cases, inl, inr,
}

module _ {A : Type 0} where
  pub select-append :
      (p : A → Bool) (xs ys : List A) → select p (xs ++ ys) ≡ select p xs ++ select p ys
  select-append p [] ys = refl
  select-append p (x ∷ xs) ys = ground (arith, select-append p xs ys)

  pub select-swap : (p q : A → Bool) (xs : List A) → select p (select q xs) ≡ select q (select p xs)
  select-swap p q [] = refl
  select-swap p q (x ∷ xs) = ground (arith, select-swap p q xs)

  -- A wider selection before a narrower one makes no difference.
  select-narrow :
      (p q : A → Bool) (xs : List A)
      → ((x : A) → q x ≡ true → p x ≡ true)
      → select q (select p xs) ≡ select q xs
  select-narrow p q [] h = refl
  select-narrow p q (x ∷ xs) h = ground (arith, select-narrow p q xs h, h x)

  pub select-cong :
      (p q : A → Bool) (xs : List A) → ((x : A) → p x ≡ q x) → select p xs ≡ select q xs
  select-cong p q [] h = refl
  select-cong p q (x ∷ xs) h = ground (arith, select-cong p q xs h, h x)

  pub select-every : (p : A → Bool) (xs : List A) → ((x : A) → p x ≡ true) → select p xs ≡ xs
  select-every p [] h = refl
  select-every p (x ∷ xs) h = ground (arith, select-every p xs h, h x)

-- The last `window` milliseconds before `now` hold the attempt.
abbrev pub live : ℕ → ℕ → String × ℕ → Bool
live window now e = ltb now (e.1 + window)

abbrev pub attempts_of : String → List (String × ℕ) → List (String × ℕ)
attempts_of u log = select (λ a. a.0 == u) log

-- The attempts of an identity that the window still holds.
abbrev pub recent : ℕ → String → ℕ → List (String × ℕ) → ℕ
recent window u now log = length (select (live window now) (attempts_of u log))

pub recent-append :
    (span : ℕ) (u v : String) (t now : ℕ) (log : List (String × ℕ))
    → recent span u t (log ++ (v, now) ∷ [])
      ≡ recent span u t log + (if (v == u) && ltb t (now + span) then 1 else 0)
recent-append span u v t now log =
    let own = select-append (λ (a : String × ℕ). a.0 == u) log ((v, now) ∷ []) in
    let held = select-append (live span t) (attempts_of u log) ((v, now) ∷ []) in
    let joined =
      length-append (select (live span t) (attempts_of u log))
        (select (live span t) ((v, now) ∷ [])) in
    elim (Bool-cases (v == u)) [
      | inl same ↦ rw own (rw same (rw held (rw joined (ground arith))))
      | inr other ↦ rw own (rw other (rw (append_nil (attempts_of u log)) (omega arith)))
    ]

-- What is no longer live now will not be live later.
pub length-live_append :
    (span t now : ℕ) (m : String) (xs : List (String × ℕ))
    → now ≤ t
    → length (select (live span t) (select (live span now) xs ++ (m, now) ∷ []))
      ≡ length (select (live span t) xs) + (if ltb t (now + span) then 1 else 0)
length-live_append span t now m xs i =
    let kept = select (live span now) xs in
    let parts = select-append (live span t) kept ((m, now) ∷ []) in
    let narrow = select-narrow (live span now) (live span t) xs (λ x a. ground arith) in
    let joined = length-append (select (live span t) kept) (select (live span t) ((m, now) ∷ [])) in
    rw parts (rw joined (rw narrow (ground arith)))
