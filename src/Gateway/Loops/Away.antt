-- ===== src/Gateway/Loops/Away.antt =====
-- The polling loop of the edge gateway (gateway.py, `EdgeGateway._poll_loop`) while the broker is
-- away, into the buffer.
use centralized_hvac_system.Prelude.{
  ◌+◌, ◌≤◌, String, ◌≡◌, refl, sym, ap, ◌∙◌, Bool, true, false, ◌||◌, ◌&&◌, not, Option, none, some,
  List, [], ◌∷◌, ◌++◌, map, length, ◌==◌, eq_iff, arith, ◌<>◌, if◌then◌else◌, Bool-cases,
  Option-cases, inl, inr,
}
use centralized_hvac_system.Prelude.Result.{ok, and_then-eq-ok}
use centralized_hvac_system.Float.{Float}
use centralized_hvac_system.Dict.{Dict, lookup, insert, lookup-insert}
use centralized_hvac_system.Gateway.Adapter.{RawTelemetry, Adapter}
use centralized_hvac_system.Gateway.Buffer.{entries, max_rows}
use centralized_hvac_system.Gateway.Buffer.Fifo.{IsWell}
use centralized_hvac_system.Gateway.Link.{MqttManager, packet, publish}
use centralized_hvac_system.Gateway.Link.Replay.{Post, publish_all, packet_of, publish_all-away}
use centralized_hvac_system.Gateway.Loops.{
  UnitConfig, EdgeLoops, Reading, send_from, adapter_at, put_adapter, run_rules, take_poll,
  poll_unit, poll_units, poll_turn,
}

-- Whether a unit is configured under an identifier.
unfoldable pub configured : String → List UnitConfig → Bool
configured i [] = false
configured i (u ∷ us) = (u.unit_id == i) || configured i us

-- Whether every identifier is configured once.
unfoldable pub distinct : List UnitConfig → Bool
unfolding configured
distinct [] = true
distinct (u ∷ us) = not (configured u.unit_id us) && distinct us

module _ {F : Type 0} (poll : String → Adapter F → Option (RawTelemetry F) × Adapter F)
    (now : F) where
  -- What an adapter that may be missing reads.
  unfoldable pub reading_at : String → Option (Adapter F) → Option (RawTelemetry F)
  reading_at i none = none
  reading_at i (some a) = (poll i a).0

  -- The message that a reading of a unit asks for.
  unfoldable pub report : UnitConfig → Option (RawTelemetry F) → List (Post F (Reading F))
  report u none = []
  report u (some t) =
      record {
        now = now;
        topic = "ac/unit/" <> u.unit_id <> "/telemetry";
        payload = entries (record { telemetry = t; timestamp = now });
        qos = 1;
        retain = false;
      }
      ∷ []

  -- The messages that a turn owes: one for each enabled unit whose adapter gives a reading.
  unfoldable pub reports : List UnitConfig → Dict (Adapter F) → List (Post F (Reading F))
  unfolding report reading_at
  reports [] adapters = []
  reports (u ∷ us) adapters =
      (if u.enabled then report u (reading_at u.unit_id (lookup u.unit_id adapters)) else [])
      ++ reports us adapters

  -- The adapters of other units have no part in what is owed.
  reports-eq :
      (i : String) (us : List UnitConfig) (d e : Dict (Adapter F))
      → ((j : String) → (i == j) ≡ false → lookup j e ≡ lookup j d)
      → configured i us ≡ false
      → reports us e ≡ reports us d
  unfolding reports configured
  reports-eq i [] d e same absent = refl
  reports-eq i (u ∷ us) d e same absent =
      let apart : (i == u.unit_id) ≡ false =
        ground (arith, eq_iff i u.unit_id, eq_iff u.unit_id i) in
      let rest = reports-eq i us d e same (ground arith) in rw (same u.unit_id apart, rest) refl

module _ {F P : Type 0} (dumps : P → String) where
  publish_all-append :
      (ps qs : List (Post F P)) (m : MqttManager F)
      → publish_all dumps (ps ++ qs) m ≡ publish_all dumps qs (publish_all dumps ps m)
  publish_all-append [] qs m = refl
  publish_all-append (p ∷ ps) qs m =
      publish_all-append ps qs (publish dumps p.now p.topic p.payload p.qos p.retain m).1

module _ {F : Type 0} ⦃fl : Float F⦄
    (poll : String → Adapter F → Option (RawTelemetry F) × Adapter F) (dumps : Reading F → String)
    (now : F) where
  -- What a part of a turn does: it publishes these messages, and leaves these adapters alone.
  abbrev Published : EdgeLoops F → EdgeLoops F → List (Post F (Reading F)) → String → Type 0
  Published s s' ps i =
      (s'.gateway.link ≡ publish_all dumps ps s.gateway.link)
      × ((j : String)
          → (i == j) ≡ false
          → lookup j s'.gateway.adapters ≡ lookup j s.gateway.adapters)

  lookup-insert_other :
      (i j : String) (a : Adapter F) (d : Dict (Adapter F))
      → (i == j) ≡ false
      → lookup j (insert i a d) ≡ lookup j d
  lookup-insert_other i j a d h = rw (lookup-insert i j a d, h) refl

  take_poll-Published :
      (u : UnitConfig) (t : Option (RawTelemetry F)) (a : Adapter F) (s : EdgeLoops F)
      → (take_poll dumps now u.unit_id t a s).0 ≡ ok tt
      → Published s (take_poll dumps now u.unit_id t a s).1 (report poll now u t) u.unit_id
  unfolding take_poll report run_rules put_adapter send_from
  take_poll-Published u none a s h =
      (refl, λ j apart. lookup-insert_other u.unit_id j a s.gateway.adapters apart)
  take_poll-Published u (some t) a s h =
      let s1 : EdgeLoops F = record s { latest = insert u.unit_id t s.latest } in
      let (done, went, e) = and_then-eq-ok (run_rules now u.unit_id t a s1) _ tt h in
      rw e (refl, λ j apart. lookup-insert_other u.unit_id j _ s.gateway.adapters apart)

  poll_unit-Published :
      (u : UnitConfig) (s : EdgeLoops F)
      → (poll_unit poll dumps now u s).0 ≡ ok tt
      → Published s
          (poll_unit poll dumps now u s).1
          (if u.enabled
            then report poll now u
                (reading_at poll now u.unit_id (lookup u.unit_id s.gateway.adapters))
            else [])
          u.unit_id
  unfolding poll_unit adapter_at reading_at report
  poll_unit-Published u s h = elim (Bool-cases u.enabled) [
    | inl e ↦ elim (Option-cases (lookup u.unit_id s.gateway.adapters)) [
      | inl missing ↦ absurd (cc (rw (e, missing) at h))
      | inr (a, found) ↦
          rw (e, found)
            (take_poll-Published u (poll u.unit_id a).0 (poll u.unit_id a).1 s (rw (e, found) at h))
    ]
    | inr e ↦ rw e (refl, λ j apart. refl)
  ]

  poll_units-Published :
      (us : List UnitConfig) (s : EdgeLoops F)
      → distinct us ≡ true
      → (poll_units poll dumps now us s).0 ≡ ok tt
      → (poll_units poll dumps now us s).1.gateway.link
        ≡ publish_all dumps (reports poll now us s.gateway.adapters) s.gateway.link
  unfolding poll_units reports distinct
  poll_units-Published [] s d h = refl
  poll_units-Published (u ∷ us) s d h =
      let (done, went, e) = and_then-eq-ok (poll_unit poll dumps now u s) _ tt h in
      let s1 = (poll_unit poll dumps now u s).1 in
      let (link, others) = poll_unit-Published u s went in
      let rest = poll_units-Published us s1 (ground arith) (ap (λ x. x.0) (sym e) ∙ h) in
      let same =
        reports-eq poll now u.unit_id us s.gateway.adapters s1.gateway.adapters others
          (ground arith) in
      let first =
        if u.enabled
        then report poll now u (reading_at poll now u.unit_id (lookup u.unit_id s.gateway.adapters))
        else [] in
      let later = reports poll now us s.gateway.adapters in
      ap (λ x. x.1.gateway.link) e
      ∙ (rest
          ∙ (ap (λ ps. publish_all dumps ps s1.gateway.link) same
              ∙ (ap (publish_all dumps later) link
                  ∙ sym (publish_all-append dumps first later s.gateway.link))))

  -- With each identifier configured once, on a well-formed buffer with room for them: a turn of the
  -- polling loop while the broker is away, if it ends without an exception, gives the client nothing
  -- and puts one telemetry message into the buffer, which stays well-formed, for each enabled unit
  -- whose adapter gave a reading at the start of the turn, in the order of the configuration, after
  -- what stood there, whatever the local rules and the load balancer do meanwhile.
  pub poll_turn_buffers :
      (s : EdgeLoops F)
      → distinct s.units ≡ true
      → (poll_turn poll dumps now s).0 ≡ ok tt
      → IsWell s.gateway.link.buffer
      → s.gateway.link.connected ≡ false
      → length s.gateway.link.buffer.rows + length (reports poll now s.units s.gateway.adapters)
        ≤ max_rows
      → let m = (poll_turn poll dumps now s).1.gateway.link in
        IsWell m.buffer
        × (m.sent ≡ s.gateway.link.sent)
        × (map packet m.buffer.rows
            ≡ map packet s.gateway.link.buffer.rows
              ++ map (packet_of dumps) (reports poll now s.units s.gateway.adapters))
  unfolding poll_turn
  poll_turn_buffers s d h w away space =
      let ps = reports poll now s.units s.gateway.adapters in
      let (done, went, e) = and_then-eq-ok (poll_units poll dumps now s.units s) _ tt h in
      let link = ap (λ x. x.1.gateway.link) e ∙ poll_units-Published s.units s d went in
      rw link (publish_all-away dumps ps s.gateway.link w away space)
