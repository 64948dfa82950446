-- ===== src/Gateway/Link/Stranded.antt =====
-- What `MQTTManager` (gateway.py) hands to the client and what it keeps, over the whole life of the
-- link but for the replays.
use centralized_hvac_system.Prelude.{
  ℕ, suc, ◌+◌, ◌≤◌, String, ◌≡◌, refl, sym, ap, ◌∙◌, Bool, true, false, ◌||◌, List, [], ◌∷◌, ◌++◌,
  map, length, nat_eq, arith, Bool-cases, inl, inr, append_assoc, append_nil, if◌then◌else◌,
}
use centralized_hvac_system.Float.{Float}
use centralized_hvac_system.Gateway.Buffer.{max_rows}
use centralized_hvac_system.Gateway.Buffer.Fifo.{IsWell}
use centralized_hvac_system.Gateway.Link.{
  Packet, MqttManager, packet, publish, on_connect, on_disconnect,
}
use centralized_hvac_system.Gateway.Link.Backoff.{Signal, connect, disconnect, signal}
use centralized_hvac_system.Gateway.Link.Replay.{Post, packet_of, publish-away}

-- The link comes or goes, or the gateway publishes.
pub data Happening (F P : Type 0) : Type 0 where
  link_signal : Signal → Happening F P
  message : Post F P → Happening F P

-- Whether the link is up after a signal.
abbrev pub up_after : Bool → Signal → Bool
up_after up (connect code) = nat_eq code 0 || up
up_after up (disconnect code) = false

module _ {F P : Type 0} (dumps : P → String) where
  -- The messages published while the link is up, and those published while it is down.
  abbrev pub handed : Bool → List (Happening F P) → List Packet
  handed up [] = []
  handed up (link_signal x ∷ hs) = handed (up_after up x) hs
  handed up (message p ∷ hs) = if up then packet_of dumps p ∷ handed up hs else handed up hs

  abbrev pub kept : Bool → List (Happening F P) → List Packet
  kept up [] = []
  kept up (link_signal x ∷ hs) = kept (up_after up x) hs
  kept up (message p ∷ hs) = if up then kept up hs else packet_of dumps p ∷ kept up hs

-- The successful connects.
abbrev pub successes : Signal → ℕ
successes (connect code) = if nat_eq code 0 then 1 else 0
successes (disconnect code) = 0

abbrev pub connects : {F P : Type 0} → List (Happening F P) → ℕ
connects [] = 0
connects (link_signal x ∷ hs) = successes x + connects hs
connects (message p ∷ hs) = connects hs

module _ {F P : Type 0} ⦃fl : Float F⦄ (dumps : P → String) (loop_there : Bool)
    (unit_ids : List String) (delay_max : F) where
  abbrev pub happen : Happening F P → MqttManager F → MqttManager F
  happen (link_signal x) m = signal loop_there unit_ids delay_max x m
  happen (message p) m = (publish dumps p.now p.topic p.payload p.qos p.retain m).1

  abbrev pub happen_all : List (Happening F P) → MqttManager F → MqttManager F
  happen_all [] m = m
  happen_all (h ∷ hs) m = happen_all hs (happen h m)

  signal_lem :
      (x : Signal) (m : MqttManager F)
      → let m' = signal loop_there unit_ids delay_max x m in
        (m'.connected ≡ up_after m.connected x)
        × (m'.sent ≡ m.sent)
        × (m'.buffer ≡ m.buffer)
        × (m'.replays ≡ m.replays + (if loop_there then successes x else 0))
  unfolding on_connect on_disconnect
  signal_lem (connect code) m = (ground arith, ground arith, ground arith, ground arith)
  signal_lem (disconnect code) m = (ground arith, ground arith, ground arith, ground arith)

  publish-up :
      (p : Post F P) (m : MqttManager F)
      → m.connected ≡ true
      → let m' = (publish dumps p.now p.topic p.payload p.qos p.retain m).1 in
        (m'.connected ≡ true)
        × (m'.sent ≡ m.sent ++ packet_of dumps p ∷ [])
        × (m'.buffer ≡ m.buffer)
  unfolding publish
  publish-up p m up = (ground arith, rw up refl, ground arith)

  replays-publish :
      (p : Post F P) (m : MqttManager F)
      → (publish dumps p.now p.topic p.payload p.qos p.retain m).1.replays ≡ m.replays
  unfolding publish
  replays-publish p m = ground arith

  -- Whatever signals and messages the link sees, in whatever order, as long as the buffer has room:
  -- the client has been given the messages published while the link was up and no other, those
  -- published while it was down stand in the buffer after what was there, in order, whatever
  -- connects came since, and a replay was scheduled for each successful connect if the thread of the
  -- client has an event loop, and never if it has none.
  pub happen_all_lem :
      (hs : List (Happening F P)) (m : MqttManager F)
      → IsWell m.buffer
      → length m.buffer.rows + length (kept dumps m.connected hs) ≤ max_rows
      → let m' = happen_all hs m in
        (m'.sent ≡ m.sent ++ handed dumps m.connected hs)
        × (map packet m'.buffer.rows ≡ map packet m.buffer.rows ++ kept dumps m.connected hs)
        × (m'.replays ≡ m.replays + (if loop_there then connects hs else 0))
  happen_all_lem [] m w space =
      (sym (append_nil m.sent), sym (append_nil (map packet m.buffer.rows)), ground arith)
  happen_all_lem (link_signal x ∷ hs) m w space =
      let m1 = signal loop_there unit_ids delay_max x m in
      let (up, sent, buffer, replays) = signal_lem x m in
      let (sent', rows', replays') = happen_all_lem hs m1 (rw buffer w) (rw (buffer, up) space) in
      (rw (sent, up) at sent', rw (buffer, up) at rows', ground (arith, replays, replays'))
  happen_all_lem (message p ∷ hs) m w space = elim (Bool-cases m.connected) [
    | inl up ↦
        let m1 = (publish dumps p.now p.topic p.payload p.qos p.retain m).1 in
        let (up', sent, buffer) = publish-up p m up in
        let given : packet_of dumps p ∷ handed dumps true hs
            ≡ handed dumps m.connected (message p ∷ hs) =
          rw up refl in
        let left : kept dumps true hs ≡ kept dumps m.connected (message p ∷ hs) = rw up refl in
        let (sent', rows', replays') =
          happen_all_lem hs m1 (rw buffer w) (rw (buffer, up') (rw up at space)) in
        (
          (rw (sent, up') at sent')
              ∙ (append_assoc m.sent (packet_of dumps p ∷ []) (handed dumps true hs)
                  ∙ ap (λ l. m.sent ++ l) given),
          (rw (buffer, up') at rows') ∙ ap (λ l. map packet m.buffer.rows ++ l) left,
          replays' ∙ ap (λ n. n + (if loop_there then connects hs else 0)) (replays-publish p m),
        )
    | inr down ↦
        let m1 = (publish dumps p.now p.topic p.payload p.qos p.retain m).1 in
        let room : length m.buffer.rows + suc (length (kept dumps false hs)) ≤ max_rows =
          rw down at space in
        let given : handed dumps false hs ≡ handed dumps m.connected (message p ∷ hs) =
          rw down refl in
        let left : packet_of dumps p ∷ kept dumps false hs
            ≡ kept dumps m.connected (message p ∷ hs) =
          rw down refl in
        let (w', down', sent, rows, count) = publish-away dumps p m w down (omega arith) in
        let (sent', rows', replays') = happen_all_lem hs m1 w' (rw (count, down') (omega arith)) in
        (
          (rw (sent, down') at sent') ∙ ap (λ l. m.sent ++ l) given,
          (rw (rows, down') at rows')
              ∙ (append_assoc (map packet m.buffer.rows) (packet_of dumps p ∷ [])
                    (kept dumps false hs)
                  ∙ ap (λ l. map packet m.buffer.rows ++ l) left),
          replays' ∙ ap (λ n. n + (if loop_there then connects hs else 0)) (replays-publish p m),
        )
  ]
