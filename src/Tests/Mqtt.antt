-- ===== src/Tests/Mqtt.antt =====
-- The shared MQTT client: a topic of its own beside two patterns that match it.
use centralized_hvac_system.Prelude.{
  ℕ, ◌≡◌, refl, Bool, false, String, none, some, List, [], ◌∷◌, ◌==◌, ◌||◌,
}
use centralized_hvac_system.Float.{Micro}
use centralized_hvac_system.Mqtt.{
  AsyncMqttClient, or_first, hand, on_message, on_connect, subscribed,
}
use centralized_hvac_system.Mqtt.Dispatch.{
  Subscription, latest, first_pattern, latest_of, subscribe_all, on_message_lem,
}
use centralized_hvac_system.Tests.Data.{whole}

abbrev idle : AsyncMqttClient Micro ℕ
idle = record {
  cfg = record { qos = 1; reconnect_delay_min = whole 1; reconnect_delay_max = whole 60 };
  handlers = [];
  connected = false;
  reconnect_delay = whole 1;
  reconnects = 0;
  calls = [];
  delivered = [];
}

abbrev matches : String → String → Bool
matches pattern topic = pattern == topic || pattern == "#" || pattern == "a/+"

abbrev registered : List (Subscription ℕ)
registered =
    record { topic = "a/+"; handler = 1; qos = none }
    ∷ record { topic = "#"; handler = 2; qos = some 0 }
    ∷ record { topic = "a/b"; handler = 3; qos = none }
    ∷ record { topic = "a/+"; handler = 4; qos = none }
    ∷ []

on_message_lem_example :
    on_message matches "a/c" "x" (subscribe_all registered idle)
    ≡ hand
        (or_first
          (latest "a/c" registered)
          (latest_of (first_pattern matches "a/c" registered) registered))
        "a/c"
        "x"
        (subscribe_all registered idle)
on_message_lem_example = on_message_lem matches "a/c" "x" registered idle refl

to_the_pattern :
    (on_message matches "a/c" "x" (subscribe_all registered idle)).delivered ≡ (4, "a/c", "x") ∷ []
unfolding on_message hand centralized_hvac_system.Mqtt.find_handler
    centralized_hvac_system.Dict.lookup subscribe_all centralized_hvac_system.Mqtt.subscribe
    centralized_hvac_system.Dict.insert
to_the_pattern = refl

to_the_topic :
    (on_message matches "a/b" "x" (subscribe_all registered idle)).delivered ≡ (3, "a/b", "x") ∷ []
unfolding on_message hand centralized_hvac_system.Mqtt.find_handler
    centralized_hvac_system.Dict.lookup subscribe_all centralized_hvac_system.Mqtt.subscribe
    centralized_hvac_system.Dict.insert
to_the_topic = refl

abbrev one_handler : List (Subscription ℕ)
one_handler = record { topic = "t"; handler = 1; qos = some 2 } ∷ []

-- A subscription is made anew with the configured quality of service, not with its own.
qos_forgotten :
    (on_connect 0 (subscribe_all one_handler idle)).calls ≡ subscribed "t" 2 ∷ subscribed "t" 1 ∷ []
unfolding on_connect subscribe_all centralized_hvac_system.Mqtt.subscribe
    centralized_hvac_system.Dict.insert
qos_forgotten = refl
