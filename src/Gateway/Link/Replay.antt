-- ===== src/Gateway/Link/Replay.antt =====
-- The replay of the buffer by `MQTTManager` (gateway.py).
use centralized_hvac_system.Prelude.{
  append_assoc, append_nil, ℕ, ◌+◌, ◌≤◌, ◌<◌, String, ◌≡◌, refl, sym, ap, ◌∙◌, Bool, false, List,
  [], ◌∷◌, ◌++◌, map, length, leb, arith, length-append,
}
use centralized_hvac_system.Gateway.Buffer.{Body, raw, max_rows, payload_text, push}
use centralized_hvac_system.Gateway.Buffer.Fifo.{IsWell, push_lem, push-IsWell}
use centralized_hvac_system.Gateway.Link.{Packet, MqttManager, packet, publish}

map-append : {A B : Type 0} (f : A → B) (xs ys : List A) → map f (xs ++ ys) ≡ map f xs ++ map f ys
map-append f [] ys = refl
map-append f (x ∷ xs) ys = ap (λ l. f x ∷ l) (map-append f xs ys)

module _ {F : Type 0} where
  -- The manager once its whole buffer is replayed.
  abbrev pub drained : MqttManager F → MqttManager F
  drained m = record m {
    buffer = record m.buffer { rows = [] };
    sent = m.sent ++ map packet m.buffer.rows;
  }

-- A message that is to be published, and when.
pub record Post (F P : Type 0) : Type 0 where
  pub now : F
  pub topic : String
  pub payload : Body P
  pub qos : ℕ
  pub retain : Bool

module _ {F P : Type 0} (dumps : P → String) where
  abbrev pub publish_all : List (Post F P) → MqttManager F → MqttManager F
  publish_all [] m = m
  publish_all (p ∷ ps) m = publish_all ps (publish dumps p.now p.topic p.payload p.qos p.retain m).1

  abbrev pub packet_of : Post F P → Packet
  packet_of p = record {
    topic = p.topic;
    payload = payload_text dumps p.payload;
    qos = p.qos;
    retain = p.retain;
  }

  -- One message published while the broker is away goes to the end of a buffer that is not full.
  pub publish-away :
      (p : Post F P) (m : MqttManager F)
      → IsWell m.buffer
      → m.connected ≡ false
      → length m.buffer.rows < max_rows
      → let m' = (publish dumps p.now p.topic p.payload p.qos p.retain m).1 in
        IsWell m'.buffer
        × (m'.connected ≡ false)
        × (m'.sent ≡ m.sent)
        × (map packet m'.buffer.rows ≡ map packet m.buffer.rows ++ packet_of p ∷ [])
        × (length m'.buffer.rows ≡ length m.buffer.rows + 1)
  unfolding publish packet payload_text
  publish-away p m w away space =
      let text = payload_text dumps p.payload in
      let m' : MqttManager F = record m {
        buffer = push dumps p.now p.topic (raw text) p.qos p.retain m.buffer;
      } in
      let not_full : leb max_rows (length m.buffer.rows) ≡ false = ground arith in
      let rows =
        rw not_full at (push_lem dumps p.now p.topic (raw text) p.qos p.retain m.buffer w) in
      rw away (
        push-IsWell dumps p.now p.topic (raw text) p.qos p.retain m.buffer w,
        refl,
        refl,
        ap (map packet) rows ∙ map-append packet m.buffer.rows _,
        ap length rows ∙ length-append m.buffer.rows _,
      )

  -- As long as the buffer has room for them, the messages published while the broker is away stand
  -- in it in order, and the client is given nothing.
  pub publish_all-away :
      (ps : List (Post F P)) (m : MqttManager F)
      → IsWell m.buffer
      → m.connected ≡ false
      → length m.buffer.rows + length ps ≤ max_rows
      → let m' = publish_all ps m in
        IsWell m'.buffer
        × (m'.sent ≡ m.sent)
        × (map packet m'.buffer.rows ≡ map packet m.buffer.rows ++ map packet_of ps)
  publish_all-away [] m w away space = (w, refl, sym (append_nil (map packet m.buffer.rows)))
  publish_all-away (p ∷ ps) m w away space =
      let (w', away', sent, rows, count) = publish-away p m w away (omega arith) in
      let m' = (publish dumps p.now p.topic p.payload p.qos p.retain m).1 in
      let (w2, sent', rows') = publish_all-away ps m' w' away' (omega (arith, count)) in
      (
        w2,
        sent' ∙ sent,
        rows'
            ∙ (ap (λ l. l ++ map packet_of ps) rows
                ∙ append_assoc (map packet m.buffer.rows) (packet_of p ∷ []) (map packet_of ps)),
      )
