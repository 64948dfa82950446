-- ===== src/Gateway/Link/Backoff.antt =====
-- The reconnect delay of `MQTTManager` (gateway.py).
use centralized_hvac_system.Prelude.{
  ℕ, String, ◌≡◌, Bool, true, List, [], ◌∷◌, ◌++◌, nat_eq, arith, All, Bool-cases, inl, inr,
}
use centralized_hvac_system.Float.{Float, IsOrdered, RoundsHalves}
use centralized_hvac_system.Gateway.Link.{MqttManager, on_connect, on_disconnect, smaller_of}

-- What the broker's side does to the link: a connect with a reason code, or a disconnect with one. An
-- exception in a callback leaves the link as it was then.
pub data Signal : Type 0 where
  connect disconnect : (reason_code : ℕ) → Signal

module _ {F : Type 0} ⦃fl : Float F⦄ (loop_there : Bool) (unit_ids : List String)
    (delay_max : F) where
  abbrev pub signal : Signal → MqttManager F → MqttManager F
  signal (connect code) m = (on_connect loop_there unit_ids code m).1
  signal (disconnect code) m = on_disconnect delay_max code m

  abbrev pub signals : List Signal → MqttManager F → MqttManager F
  signals [] m = m
  signals (x ∷ xs) m = signals xs (signal x m)

module _ {F : Type 0} ⦃fl : Float F⦄ (delay_max : F) where
  -- The next delay and every delay slept are at most the configured bound.
  abbrev pub IsBounded : MqttManager F → Type 0
  IsBounded m =
      (fl.le m.reconnect_delay delay_max ≡ true) × All (λ d. fl.le d delay_max ≡ true) m.slept

  All-append :
      (l : List F) (x : F)
      → All (λ d. fl.le d delay_max ≡ true) l
      → fl.le x delay_max ≡ true
      → All (λ d. fl.le d delay_max ≡ true) (l ++ x ∷ [])
  All-append [] x h k = (k, tt)
  All-append (d ∷ l) x h k = (h.0, All-append l x h.1 k)

module _ {F : Type 0} ⦃fl : Float F⦄ (laws : IsOrdered F) (halves : RoundsHalves F)
    (loop_there : Bool) (unit_ids : List String) (delay_max : F) where
  smaller_of-le :
      (x : F)
      → fl.le x x ≡ true
      → fl.le delay_max delay_max ≡ true
      → fl.le (smaller_of x delay_max) delay_max ≡ true
  smaller_of-le x h k = ground (arith, laws.lt_le delay_max x, laws.le_total x delay_max h k)

  signal-IsBounded :
      (x : Signal) (m : MqttManager F)
      → fl.le (fl.dec 1 0) delay_max ≡ true
      → IsBounded delay_max m
      → IsBounded delay_max (signal loop_there unit_ids delay_max x m)
  unfolding on_connect on_disconnect
  signal-IsBounded (connect code) m one h = ground (arith, h.0, h.1)
  signal-IsBounded (disconnect code) m one h =
      let (own, bound) = laws.le_self m.reconnect_delay delay_max h.0 in
      let twice = halves.double_mono m.reconnect_delay m.reconnect_delay own in
      let next = smaller_of-le (fl.mul m.reconnect_delay (fl.dec 2 0)) twice bound in
      let slept = All-append delay_max m.slept m.reconnect_delay h.1 h.0 in
      elim (Bool-cases (nat_eq code 0)) [
        | inl clean ↦ rw clean h
        | inr lost ↦ rw lost (next, slept)
      ]

  -- However the link comes and goes, every delay that is slept is at most the configured bound,
  -- if one second and the delays at the start are.
  pub signals-IsBounded :
      (xs : List Signal) (m : MqttManager F)
      → fl.le (fl.dec 1 0) delay_max ≡ true
      → IsBounded delay_max m
      → IsBounded delay_max (signals loop_there unit_ids delay_max xs m)
  signals-IsBounded [] m one h = h
  signals-IsBounded (x ∷ xs) m one h =
      signals-IsBounded xs (signal loop_there unit_ids delay_max x m) one
        (signal-IsBounded x m one h)
