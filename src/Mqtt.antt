-- ===== src/Mqtt.antt =====
-- The shared MQTT client (mqtt_client.py): subscriptions with their handlers, reconnection, and the
-- dispatch of messages. paho's client is outside: what it is asked to do is listed.
pub mod Dispatch
use centralized_hvac_system.Prelude.{
  ℕ, ◌+◌, String, Bool, true, false, Option, none, some, or_else, List, [], ◌∷◌, ◌++◌, map,
  if◌then◌else◌, nat_eq,
}
use centralized_hvac_system.Float.{Float}
use centralized_hvac_system.Dict.{Dict, lookup, insert}
use centralized_hvac_system.Control.Optimizer.{min_of}

-- The settings that the operations read.
pub record MqttConfig (F : Type 0) : Type 0 where
  pub qos : ℕ
  pub reconnect_delay_min : F
  pub reconnect_delay_max : F

-- What is asked of paho's client.
pub data Call (F : Type 0) : Type 0 where
  subscribed : (topic : String) (qos : ℕ) → Call F
  published : (topic payload : String) (qos : ℕ) (retain : Bool) → Call F
  slept : (seconds : F) → Call F
  reconnected : Call F

-- `H` is a handler. `calls` lists what was asked of paho's client, `delivered` the messages that
-- were handed to a handler; the two counters of messages are left out.
pub record AsyncMqttClient (F H : Type 0) : Type 0 where
  pub cfg : MqttConfig F
  pub handlers : Dict H
  pub connected : Bool
  pub reconnect_delay : F
  pub reconnects : ℕ
  pub calls : List (Call F)
  pub delivered : List (H × String × String)

-- What is given to `publish`: a dictionary or a text.
pub data Outgoing (P : Type 0) : Type 0 where
  entries : P → Outgoing P
  raw : String → Outgoing P

unfoldable pub encoded : {P : Type 0} → (P → String) → Outgoing P → String
encoded dumps (entries p) = dumps p
encoded dumps (raw s) = s

-- The first pattern that matches the topic, with its handler; `matches` is
-- `mqtt.topic_matches_sub`.
unfoldable pub find_match : {H : Type 0} → (String → String → Bool) → String → Dict H → Option H
find_match matches topic [] = none
find_match matches topic ((pattern, h) ∷ d) =
    if matches pattern topic then some h else find_match matches topic d

-- The first that is there: `if not handler:`.
abbrev pub or_first {ℓ} : {A : Type ℓ} → Option A → Option A → Option A
or_first none b = b
or_first (some a) b = some a

-- An exact entry goes before a pattern.
unfoldable pub find_handler : {H : Type 0} → (String → String → Bool) → String → Dict H → Option H
unfolding find_match
find_handler matches topic d = or_first (lookup topic d) (find_match matches topic d)

module _ {F H : Type 0} where
  -- `publish`
  unfoldable pub publish :
      {P : Type 0}
      → (P → String)
      → String
      → Outgoing P
      → Option ℕ
      → Bool
      → AsyncMqttClient F H
      → AsyncMqttClient F H
  unfolding encoded
  publish dumps topic payload qos retain c = record c {
    calls = c.calls ++ published topic (encoded dumps payload) (or_else qos c.cfg.qos) retain ∷ [];
  }

  -- `subscribe`
  unfoldable pub subscribe : String → H → Option ℕ → AsyncMqttClient F H → AsyncMqttClient F H
  subscribe topic handler qos c = record c {
    handlers = insert topic handler c.handlers;
    calls = c.calls ++ subscribed topic (or_else qos c.cfg.qos) ∷ [];
  }

  -- The loop of `_on_connect` over the handlers.
  unfoldable pub resubscribe : ℕ → Dict H → List (Call F)
  resubscribe qos [] = []
  resubscribe qos ((topic, h) ∷ d) = subscribed topic qos ∷ resubscribe qos d

  -- `_on_connect`
  unfoldable pub on_connect : ℕ → AsyncMqttClient F H → AsyncMqttClient F H
  unfolding resubscribe
  on_connect reason_code c =
      if nat_eq reason_code 0
      then record c {
        reconnect_delay = c.cfg.reconnect_delay_min;
        calls = c.calls ++ resubscribe c.cfg.qos c.handlers;
        connected = true;
      }
      else c

  -- `if handler:` the message is handed to it
  unfoldable pub hand : Option H → String → String → AsyncMqttClient F H → AsyncMqttClient F H
  hand none topic payload c = c
  hand (some h) topic payload c = record c { delivered = c.delivered ++ (h, topic, payload) ∷ [] }

  -- `_on_message`
  unfoldable pub on_message :
      (String → String → Bool) → String → String → AsyncMqttClient F H → AsyncMqttClient F H
  on_message matches topic payload c = hand (find_handler matches topic c.handlers) topic payload c

module _ {F H : Type 0} ⦃fl : Float F⦄ where
  -- `_on_disconnect`
  unfoldable pub on_disconnect : ℕ → AsyncMqttClient F H → AsyncMqttClient F H
  unfolding min_of
  on_disconnect reason_code c =
      let lost = record c { connected = false } in
      if nat_eq reason_code 0 then lost else record lost {
        reconnects = c.reconnects + 1;
        calls = c.calls ++ slept c.reconnect_delay ∷ reconnected ∷ [];
        reconnect_delay = min_of (fl.mul c.reconnect_delay (fl.dec 2 0)) c.cfg.reconnect_delay_max;
      }
