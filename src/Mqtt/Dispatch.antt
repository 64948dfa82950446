-- ===== src/Mqtt/Dispatch.antt =====
-- Which handler of the shared MQTT client gets a message (mqtt_client.py, `subscribe` and
-- `_on_message`).
use mathlib.Core.Path.{subst}
use centralized_hvac_system.Prelude.{
  ℕ, String, ◌≡◌, refl, sym, ap, ◌∙◌, Bool, true, false, Option, none, some, List, [], ◌∷◌, ◌==◌,
  eq_iff, eq_refl, arith, if◌then◌else◌, Bool-cases, Option-cases, inl, inr,
}
use centralized_hvac_system.Dict.{Dict, lookup, insert, lookup-insert}
use centralized_hvac_system.Mqtt.{
  AsyncMqttClient, find_match, or_first, find_handler, hand, subscribe, on_message,
}

or_first-none : {A : Type 0} (o : Option A) → or_first o none ≡ o
or_first-none none = refl
or_first-none (some a) = refl

-- A registration: the topic or pattern, the handler, and the quality of service asked for.
pub record Subscription (H : Type 0) : Type 0 where
  pub topic : String
  pub handler : H
  pub qos : Option ℕ

module _ {H : Type 0} where
  -- The handler that was registered last for exactly this topic.
  unfoldable pub latest : String → List (Subscription H) → Option H
  latest topic [] = none
  latest topic (s ∷ subs) =
      or_first (latest topic subs) (if s.topic == topic then some s.handler else none)

  -- The pattern that was registered first among those that match the topic.
  unfoldable pub first_pattern :
      (String → String → Bool) → String → List (Subscription H) → Option String
  first_pattern matches topic [] = none
  first_pattern matches topic (s ∷ subs) =
      if matches s.topic topic then some s.topic else first_pattern matches topic subs

  -- The latest handler of a pattern, if there is one.
  abbrev pub latest_of : Option String → List (Subscription H) → Option H
  latest_of none subs = none
  latest_of (some p) subs = latest p subs

  abbrev inserts : List (Subscription H) → Dict H → Dict H
  inserts [] d = d
  inserts (s ∷ subs) d = inserts subs (insert s.topic s.handler d)

  abbrev first_key : (String → String → Bool) → String → Dict H → Option String
  first_key matches topic [] = none
  first_key matches topic ((k, h) ∷ d) =
      if matches k topic then some k else first_key matches topic d

  abbrev at_key : Option String → Dict H → Option H
  at_key none d = none
  at_key (some k) d = lookup k d

  lookup-inserts :
      (k : String) (subs : List (Subscription H)) (d : Dict H)
      → lookup k (inserts subs d) ≡ or_first (latest k subs) (lookup k d)
  unfolding latest
  lookup-inserts k [] d = refl
  lookup-inserts k (s ∷ subs) d =
      let ih = lookup-inserts k subs (insert s.topic s.handler d) in
      let new = lookup-insert s.topic k s.handler d in
      elim (Option-cases (latest k subs)) [
        | inl older ↦ ground (arith, ih, new)
        | inr (h, newer) ↦ ground (arith, ih, new)
      ]

  lookup-inserts_new :
      (k : String) (subs : List (Subscription H)) → lookup k (inserts subs []) ≡ latest k subs
  unfolding lookup
  lookup-inserts_new k subs = lookup-inserts k subs [] ∙ or_first-none (latest k subs)

  at_key-inserts :
      (k : Option String) (subs : List (Subscription H))
      → at_key k (inserts subs []) ≡ latest_of k subs
  at_key-inserts none subs = refl
  at_key-inserts (some k) subs = lookup-inserts_new k subs

  first_key-insert :
      (matches : String → String → Bool) (topic k : String) (h : H) (d : Dict H)
      → first_key matches topic (insert k h d)
        ≡ or_first (first_key matches topic d) (if matches k topic then some k else none)
  unfolding insert
  first_key-insert matches topic k h [] = refl
  first_key-insert matches topic k h ((j, g) ∷ d) =
      let ih = first_key-insert matches topic k h d in
      let own = (eq_iff j k).0 in
      elim (Bool-cases (j == k)) [
        | inl same ↦ elim (Bool-cases (matches j topic)) [
          | inl found ↦ rw same (rw found refl)
          | inr no_match ↦
              let none_new : matches k topic ≡ false =
                subst (λ x. matches x topic ≡ false) (own same) no_match in
              rw same (rw (no_match, none_new) (sym (or_first-none (first_key matches topic d))))
        ]
        | inr other ↦ elim (Bool-cases (matches j topic)) [
          | inl found ↦ rw other (rw found refl)
          | inr no_match ↦ rw other (rw no_match ih)
        ]
      ]

  first_key-inserts :
      (matches : String → String → Bool) (topic : String) (subs : List (Subscription H))
      (d : Dict H)
      → first_key matches topic (inserts subs d)
        ≡ or_first (first_key matches topic d) (first_pattern matches topic subs)
  unfolding first_pattern
  first_key-inserts matches topic [] d = sym (or_first-none (first_key matches topic d))
  first_key-inserts matches topic (s ∷ subs) d =
      let ih = first_key-inserts matches topic subs (insert s.topic s.handler d) in
      let new = first_key-insert matches topic s.topic s.handler d in
      elim (Option-cases (first_key matches topic d)) [
        | inr (k, old) ↦
            rw old (ih ∙ ap (λ o. or_first o (first_pattern matches topic subs)) (rw old at new))
        | inl nothing ↦ elim (Bool-cases (matches s.topic topic)) [
          | inl found ↦ rw nothing (
              rw found (
                ih
                ∙ ap (λ o. or_first o (first_pattern matches topic subs))
                    (rw (nothing, found) at new)))
          | inr no_match ↦ rw nothing (
              rw no_match (
                ih
                ∙ ap (λ o. or_first o (first_pattern matches topic subs))
                    (rw (nothing, no_match) at new)))
        ]
      ]

  first_key-matches :
      (matches : String → String → Bool) (topic k : String) (d : Dict H)
      → first_key matches topic d ≡ some k
      → matches k topic ≡ true
  first_key-matches matches topic k [] h = cc
  first_key-matches matches topic k ((j, g) ∷ d) h = elim (Bool-cases (matches j topic)) [
    | inl found ↦ cc
    | inr other ↦ first_key-matches matches topic k d (rw other at h)
  ]

  skip :
      (o : Option String) (j : String) (g : H) (d : Dict H)
      → ((k : String) → o ≡ some k → (j == k) ≡ false)
      → at_key o d ≡ at_key o ((j, g) ∷ d)
  unfolding lookup
  skip none j g d h = refl
  skip (some k) j g d h = rw (h k refl) refl

  find_match-first_key :
      (matches : String → String → Bool) (topic : String) (d : Dict H)
      → find_match matches topic d ≡ at_key (first_key matches topic d) d
  unfolding find_match lookup
  find_match-first_key matches topic [] = refl
  find_match-first_key matches topic ((j, g) ∷ d) =
      let ih = find_match-first_key matches topic d in
      elim (Bool-cases (matches j topic)) [
        | inl found ↦ rw found (rw (eq_refl j) refl)
        | inr no_match ↦ rw no_match (
            ih
            ∙ skip (first_key matches topic d) j g d (λ k h.
              let matched = first_key-matches matches topic k d h in
              elim (Bool-cases (j == k)) [
                | inl same ↦ let e = (eq_iff j k).0 same in absurd (cc)
                | inr apart ↦ apart
              ]))
      ]

  -- The client after some registrations.
  unfoldable pub subscribe_all :
      {F : Type 0} → List (Subscription H) → AsyncMqttClient F H → AsyncMqttClient F H
  subscribe_all [] c = c
  subscribe_all (s ∷ subs) c = subscribe_all subs (subscribe s.topic s.handler s.qos c)

  handlers-subscribe_all :
      {F : Type 0} (subs : List (Subscription H)) (c : AsyncMqttClient F H)
      → (subscribe_all subs c).handlers ≡ inserts subs c.handlers
  unfolding subscribe_all subscribe
  handlers-subscribe_all [] c = refl
  handlers-subscribe_all (s ∷ subs) c =
      handlers-subscribe_all subs (subscribe s.topic s.handler s.qos c)

  -- After any registrations on a client without handlers, a message is handed to the handler that was
  -- registered last for its very topic; if there is none, to the latest handler of the pattern that
  -- was registered first among those that match; and if none matches, to nobody.
  pub on_message_lem :
      {F : Type 0} (matches : String → String → Bool) (topic payload : String)
      (subs : List (Subscription H)) (c : AsyncMqttClient F H)
      → c.handlers ≡ []
      → on_message matches topic payload (subscribe_all subs c)
        ≡ hand
            (or_first (latest topic subs) (latest_of (first_pattern matches topic subs) subs))
            topic
            payload
            (subscribe_all subs c)
  unfolding on_message find_handler
  on_message_lem matches topic payload subs c h =
      let table = handlers-subscribe_all subs c ∙ ap (inserts subs) h in
      let exact = lookup-inserts_new topic subs in
      let key = first_key-inserts matches topic subs [] in
      let found =
        find_match-first_key matches topic (inserts subs [])
        ∙ (ap (λ k. at_key k (inserts subs [])) key
            ∙ at_key-inserts (first_pattern matches topic subs) subs) in
      rw (table, exact, found) refl
