-- ===== src/Gateway/Link.antt =====
-- The link of the edge gateway to the broker (gateway.py, `MQTTManager`): it publishes while it is
-- connected, buffers while it is not, and asks for a replay of the buffer once it is connected again.
pub mod Replay
pub mod Backoff
pub mod Stranded
use centralized_hvac_system.Prelude.{
  ℕ, zero, suc, ◌+◌, String, Bool, true, false, List, [], ◌∷◌, ◌++◌, map, nat_eq, if◌then◌else◌,
  ◌<>◌,
}
use centralized_hvac_system.Prelude.Result.{Exec, ok, raised, runtime_error}
use centralized_hvac_system.Float.{Float}
use centralized_hvac_system.Gateway.Buffer.{
  Body, raw, Row, OfflineBuffer, size, payload_text, push, pop_batch,
}

-- What the client is given to publish.
pub record Packet : Type 0 where
  pub topic : String
  pub payload : String
  pub qos : ℕ
  pub retain : Bool

-- `slept` holds the delays that were slept, `replays` counts the replays that were scheduled.
pub record MqttManager (F : Type 0) : Type 0 where
  pub connected : Bool
  pub reconnect_delay : F
  pub buffer : OfflineBuffer F
  pub sent : List Packet
  pub subscriptions : List String
  pub slept : List F
  pub replays : ℕ

module _ {F : Type 0} where
  unfoldable pub packet : Row F → Packet
  packet r = record { topic = r.topic; payload = r.payload; qos = r.qos; retain = r.retain }

  -- `publish`, at the time `now`: the answer says whether the client was given the message
  unfoldable pub publish :
      {P : Type 0}
      → (P → String)
      → F
      → String
      → Body P
      → ℕ
      → Bool
      → MqttManager F
      → Bool × MqttManager F
  publish dumps now topic payload qos retain m =
      let body = payload_text dumps payload in
      if m.connected
      then (
        true,
        record m {
          sent =
              m.sent ++ record { topic = topic; payload = body; qos = qos; retain = retain } ∷ [];
        },
      )
      else (false, record m { buffer = push dumps now topic (raw body) qos retain m.buffer })

  -- `if not batch: break`
  unfoldable pub after_batch : List (Row F) → MqttManager F → MqttManager F → MqttManager F
  after_batch [] done later = done
  after_batch (r ∷ rows) done later = later

  -- The loop of `_replay_buffer`, for at most that many batches.
  unfoldable pub replay_batches : ℕ → MqttManager F → MqttManager F
  replay_batches zero m = m
  replay_batches (suc fuel) m =
      let (batch, rest) = pop_batch 50 m.buffer in
      let later =
        replay_batches fuel (record m { buffer = rest; sent = m.sent ++ map packet batch }) in
      after_batch batch (record m { buffer = rest }) later

  -- `_replay_buffer`: each batch but the last takes a row, so the rows and one more are enough.
  unfoldable pub replay_buffer : MqttManager F → MqttManager F
  unfolding size
  replay_buffer m = if nat_eq (size m.buffer) 0 then m else replay_batches (size m.buffer + 1) m

module _ {F : Type 0} ⦃fl : Float F⦄ where
  -- `_on_connect`; reason code 0 is success. `loop_there` says whether asyncio.get_event_loop()
  -- finds an event loop in the thread that calls this; it raises RuntimeError where there is none.
  unfoldable pub on_connect : Bool → List String → ℕ → Exec (MqttManager F) Unit
  on_connect loop_there unit_ids reason_code m =
      let up = record m {
        connected = true;
        reconnect_delay = fl.dec 1 0;
        subscriptions = m.subscriptions ++ map (λ u. "ac/unit/" <> u <> "/command") unit_ids;
      } in
      if nat_eq reason_code 0
      then if loop_there
        then (ok tt, record up { replays = m.replays + 1 })
        else (raised runtime_error, up)
      else (ok tt, m)

  -- `min(a, b)`
  abbrev pub smaller_of : F → F → F
  smaller_of a b = if fl.lt b a then b else a

  -- `_on_disconnect`
  unfoldable pub on_disconnect : F → ℕ → MqttManager F → MqttManager F
  on_disconnect delay_max reason_code m =
      let down = record m { connected = false } in
      if nat_eq reason_code 0 then down else record down {
        slept = m.slept ++ m.reconnect_delay ∷ [];
        reconnect_delay = smaller_of (fl.mul m.reconnect_delay (fl.dec 2 0)) delay_max;
      }
