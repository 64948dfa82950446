-- ===== src/Auth/Limiter/Window.antt =====
-- The rate limiter (auth.py, `RateLimiter`) as a client sees it: a log of all attempts.
use centralized_hvac_system.Prelude.{
  ℕ, ◌+◌, ◌*◌, ◌<◌, String, ◌≡◌, refl, ap, Bool, true, List, [], ◌∷◌, ◌++◌, ◌==◌, eq_iff, leb,
  select, length, Bool-cases, inl, inr,
}
use mathlib.Core.Path.{subst}
use centralized_hvac_system.Auth.Zset.{Zset, IsZset}
use centralized_hvac_system.Auth.Limiter.{limit_key, check}
use centralized_hvac_system.Auth.Limiter.Live.{live, recent}
use centralized_hvac_system.Auth.Limiter.Tracks.{Tracks, Tracks-pass, Tracks-ask_other, Tracks-ask}

-- A request that is counted, by the identity that makes it, or milliseconds that go by.
pub data Event : Type 0 where
  wait : ℕ → Event
  ask : String → Event

-- The limiter that forgets nothing: it accepts while the window holds at most `rate` attempts of
-- the identity, refused ones and this one included.
unfoldable pub windowed : ℕ → ℕ → List Event → ℕ → List (String × ℕ) → List Bool
windowed rate window [] now log = []
windowed rate window (wait d ∷ es) now log = windowed rate window es (now + d) log
windowed rate window (ask u ∷ es) now log =
    let log' = log ++ (u, now) ∷ [] in
    leb (recent (window * 1000) u now log') rate ∷ windowed rate window es now log'

module _ {Z : Type 0} ⦃zs : Zset Z⦄ (uuid : ℕ → String) (rate window : ℕ) where
  -- The answers of `check`. A wait passes for Redis and for the service alike.
  unfoldable pub answers : List Event → ℕ → ℕ → Z → List Bool
  answers [] now n z = []
  answers (wait d ∷ es) now n z = answers es (now + d) n (zs.pass d z)
  answers (ask u ∷ es) now n z =
      let (accepted, z') = check uuid rate window u now n z in accepted ∷ answers es now (n + 1) z'

module _ {Z : Type 0} ⦃zs : Zset Z⦄ (laws : IsZset Z) (uuid : ℕ → String) (window : ℕ) where
  answers-windowed :
      ((i j : ℕ) → (uuid i == uuid j) ≡ true → i ≡ j)
      → (rate : ℕ) → 0 < window
      → (es : List Event) (now n : ℕ) (z : Z) (log : List (String × ℕ))
      → ((u : String) → Tracks laws uuid window u now n z log)
      → answers uuid rate window es now n z ≡ windowed rate window es now log
  unfolding answers windowed
  answers-windowed unique rate w [] now n z log h = refl
  answers-windowed unique rate w (wait d ∷ es) now n z log h =
      answers-windowed unique rate w es (now + d) n (zs.pass d z) log
        (λ u. Tracks-pass laws uuid window u now n d z log (h u))
  answers-windowed unique rate w (ask v ∷ es) now n z log h =
      let own = Tracks-ask laws uuid window unique v rate now n z log w (h v) in
      let (_, z') = check uuid rate window v now n z in
      let rest = answers-windowed unique rate w es now (n + 1) z' (log ++ (v, now) ∷ []) (λ u.
        elim (Bool-cases (v == u)) [
          | inl same ↦
              subst (λ x. Tracks laws uuid window x now (n + 1) z' (log ++ (v, now) ∷ []))
                ((eq_iff v u).0 same) own.1
          | inr other ↦ Tracks-ask_other laws uuid window u v rate now n z log w other (h u)
        ]) in
      cc (own.0, rest)

-- On a store without entries the limiter of Redis, whose sets forget and expire, answers every
-- sequence of requests and waits as the limiter that keeps all attempts does, for a window of at
-- least a second and identifiers that never repeat.
pub check_refines_windowed :
    {Z : Type 0} ⦃zs : Zset Z⦄ (laws : IsZset Z) (uuid : ℕ → String) (rate window : ℕ)
    → ((i j : ℕ) → (uuid i == uuid j) ≡ true → i ≡ j)
    → 0 < window
    → (es : List Event) (now n : ℕ) (z : Z) → ((k : String) → zs.entries k z ≡ [])
    → answers uuid rate window es now n z ≡ windowed rate window es now []
check_refines_windowed laws uuid rate window unique w es now n z empty =
    answers-windowed laws uuid window unique rate w es now n z [] (λ u. record {
      same = λ t i. ap (λ f. length (select (live (window * 1000) t) f)) (empty (limit_key u));
      gone = λ t i. refl;
      past = λ t i. refl;
      bare = λ i. empty (limit_key u);
      fresh = λ j i. rw (empty (limit_key u)) refl;
    })
