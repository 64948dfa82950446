-- ===== src/Gateway/Adapter/Range.antt =====
-- The physics of `MockAdapter.poll` (gateway.py).
use centralized_hvac_system.Prelude.{◌≡◌, true, List, [], ◌∷◌, ◌≤◌, ℕ, arith}
use centralized_hvac_system.Float.{Float, IsOrdered}
use centralized_hvac_system.Control.Optimizer.{min_of, max_of}
use centralized_hvac_system.Gateway.Adapter.{Draws, MockAdapter, clamp, next_temp, next_load, poll}

module _ {F : Type 0} ⦃fl : Float F⦄ where
  -- The mock unit stands between 15 and 40 degrees, with a load between 0 and 100.
  abbrev pub InRange : MockAdapter F → Type 0
  InRange m =
      (fl.le (fl.dec 15 0) m.temp ≡ true)
      × (fl.le m.temp (fl.dec 40 0) ≡ true)
      × (fl.le (fl.dec 0 0) m.load ≡ true)
      × (fl.le m.load (fl.dec 100 0) ≡ true)

  -- The unit after a sequence of polls.
  abbrev pub polls : List (Draws F) → MockAdapter F → MockAdapter F
  polls [] m = m
  polls (d ∷ ds) m = polls ds (poll d m).1

module _ {F : Type 0} ⦃fl : Float F⦄ (laws : IsOrdered F) where
  pub clamp_between :
      (lo hi x : F)
      → fl.le lo hi ≡ true
      → (fl.le lo (clamp lo hi x) ≡ true) × (fl.le (clamp lo hi x) hi ≡ true)
  unfolding clamp min_of max_of
  clamp_between lo hi x h =
      let ends = laws.le_self lo hi h in
      ground (arith, h, ends.0, ends.1, laws.lt_le x hi, laws.lt_le lo hi, laws.lt_le lo x)

  pub clamp_lem :
      (m n : ℕ) (x : F)
      → m ≤ n
      → (fl.le (fl.dec m 0) (clamp (fl.dec m 0) (fl.dec n 0) x) ≡ true)
        × (fl.le (clamp (fl.dec m 0) (fl.dec n 0) x) (fl.dec n 0) ≡ true)
  clamp_lem m n x h = clamp_between (fl.dec m 0) (fl.dec n 0) x (laws.dec_le m n 0 h)

  -- After any polls, whatever the noise, a unit that started in its range is in it.
  pub polls-InRange : (ds : List (Draws F)) (m : MockAdapter F) → InRange m → InRange (polls ds m)
  unfolding poll next_temp next_load
  polls-InRange [] m h = h
  polls-InRange (d ∷ ds) m h =
      let t = clamp_lem 15 40 _ (omega arith) in
      let l = clamp_lem 0 100 _ (omega arith) in polls-InRange ds (poll d m).1 (t.0, t.1, l.0, l.1)
