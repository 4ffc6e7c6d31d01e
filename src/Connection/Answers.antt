-- ===== src/Connection/Answers.antt =====
-- What `dispatch_packet` of src/connection.rs answers to a client, and what it tells the broker.
use blitz_broker.Common.{
  ℕ, ◌≡◌, refl, ap, ◌∙◌, inl, inr, Bool, true, false, Option, none, some, List, [], ◌∷◌, ◌++◌, map,
  ◌==◌, if◌then◌else◌, ==_iff, Bool-cases, nat_eq, list_eq,
}
use blitz_broker.Protocol.Packet.{
  Str, MqttPacket, connect, conn_ack, subscribe, sub_ack, unsubscribe, unsub_ack, publish, pub_ack,
  ping_req, ping_resp, disconnect, accepted,
}
use blitz_broker.Protocol.WellFormed.{HasIdFor, IsFromClient}
use blitz_broker.Broker.{
  ConnectionId, QueueHandle, BrokerMessage, register_client, subscribe_to, unsubscribe_from,
  publish_from, packet_event,
}
use blitz_broker.Connection.{
  close_outbound, Effect, to_broker, to_client, dispatch_packet, dispatch_subscriptions,
  dispatch_unsubscriptions, acknowledge,
}

-- The packets pushed to the client, and the messages sent to the broker, in order.
abbrev pub answers : List Effect → List MqttPacket
answers [] = []
answers (to_client (packet_event p) ∷ effects) = p ∷ answers effects
answers (effect ∷ effects) = answers effects

abbrev pub requests : List Effect → List BrokerMessage
requests [] = []
requests (to_broker msg ∷ effects) = msg ∷ requests effects
requests (effect ∷ effects) = requests effects

pub answers-append : (a b : List Effect) → answers (a ++ b) ≡ answers a ++ answers b
answers-append [] b = refl
answers-append (to_broker msg ∷ a) b = answers-append a b
answers-append (to_client (packet_event p) ∷ a) b = ap (◌∷◌ p) (answers-append a b)
answers-append (close_outbound ∷ a) b = answers-append a b

pub requests-append : (a b : List Effect) → requests (a ++ b) ≡ requests a ++ requests b
requests-append [] b = refl
requests-append (to_broker msg ∷ a) b = ap (◌∷◌ msg) (requests-append a b)
requests-append (to_client event ∷ a) b = requests-append a b
requests-append (close_outbound ∷ a) b = requests-append a b

-- The answer that the protocol asks for: one acknowledgement, with the identifier of the packet, for a
-- packet that has one; none for a publish at QoS 0.
abbrev pub answer_to : MqttPacket → List MqttPacket
answer_to (connect c) = conn_ack (record { session_present = false; return_code = accepted }) ∷ []
answer_to (subscribe s) =
    sub_ack
      (record { packet_id = s.packet_id; return_codes = map (λ subscription. 0) s.subscriptions })
    ∷ []
answer_to (unsubscribe u) = unsub_ack (record { packet_id = u.packet_id }) ∷ []
answer_to (publish p) = elim p.packet_id [
  | none ↦ []
  | some packet_id ↦ pub_ack (record { packet_id = packet_id }) ∷ []
]
answer_to ping_req = ping_resp ∷ []
answer_to packet = []

-- What a packet asks of the broker.
abbrev pub asked_by : ConnectionId → QueueHandle → MqttPacket → List BrokerMessage
asked_by id outbound (connect c) = register_client id c.client_id outbound ∷ []
asked_by id outbound (subscribe s) =
    map (λ subscription. subscribe_to id subscription.0) s.subscriptions
asked_by id outbound (unsubscribe u) = map (unsubscribe_from id) u.topic_filters
asked_by id outbound (publish p) = publish_from id p ∷ []
asked_by id outbound packet = []

abbrev pub stays_open : MqttPacket → Bool
stays_open disconnect = false
stays_open packet = true

subscriptions_lem :
    (id : ConnectionId) (subscriptions : List (Str × ℕ)) (last : MqttPacket)
    → (answers ((dispatch_subscriptions id subscriptions).0 ++ (to_client (packet_event last) ∷ []))
        ≡ last ∷ [])
      × (requests
            ((dispatch_subscriptions id subscriptions).0 ++ (to_client (packet_event last) ∷ []))
          ≡ map (λ subscription. subscribe_to id subscription.0) subscriptions)
      × ((dispatch_subscriptions id subscriptions).1 ≡ map (λ subscription. 0) subscriptions)
unfolding dispatch_subscriptions
subscriptions_lem id [] last = (refl, refl, refl)
subscriptions_lem id ((topic, qos) ∷ subscriptions) last =
    let (replied, asked, codes) = subscriptions_lem id subscriptions last in
    (replied, ap (◌∷◌ (subscribe_to id topic)) asked, ap (◌∷◌ 0) codes)

unsubscriptions_lem :
    (id : ConnectionId) (topic_filters : List Str) (last : MqttPacket)
    → (answers (dispatch_unsubscriptions id topic_filters ++ (to_client (packet_event last) ∷ []))
        ≡ last ∷ [])
      × (requests
            (dispatch_unsubscriptions id topic_filters ++ (to_client (packet_event last) ∷ []))
          ≡ map (unsubscribe_from id) topic_filters)
unfolding dispatch_unsubscriptions
unsubscriptions_lem id [] last = (refl, refl)
unsubscriptions_lem id (topic ∷ topic_filters) last =
    let (replied, asked) = unsubscriptions_lem id topic_filters last in
    (replied, ap (◌∷◌ (unsubscribe_from id topic)) asked)

-- The PUBACK of a publish, in front of the message to the broker.
publish_lem :
    (qos : ℕ) (packet_id : Option ℕ) (msg : BrokerMessage)
    → HasIdFor qos packet_id
    → (answers ((if qos == 1 then acknowledge packet_id else []) ++ (to_broker msg ∷ []))
        ≡ elim packet_id as (λ _. List MqttPacket) [
          | none ↦ []
          | some one ↦ pub_ack (record { packet_id = one }) ∷ []
        ])
      × (requests ((if qos == 1 then acknowledge packet_id else []) ++ (to_broker msg ∷ []))
          ≡ msg ∷ [])
publish_lem qos none msg h = elim (Bool-cases (qos == 1)) [
  | inl acked ↦ rw acked (refl, refl)
  | inr quiet ↦ rw quiet (refl, refl)
]
publish_lem qos (some one) msg h = rw ((==_iff qos 1).1 h.0) (refl, refl)

-- A packet that a client may send gets the answer that the protocol asks for, in particular a publish a
-- PUBACK with its identifier exactly if it has one; the broker is sent what the packet asks of it, one
-- message for each filter, in their order; and the connection stays open after all but a DISCONNECT.
pub dispatch_answers :
    (id : ConnectionId) (outbound : QueueHandle) (p : MqttPacket)
    → IsFromClient p
    → (answers (dispatch_packet id outbound p).0 ≡ answer_to p)
      × (requests (dispatch_packet id outbound p).0 ≡ asked_by id outbound p)
      × ((dispatch_packet id outbound p).1 ≡ stays_open p)
unfolding dispatch_packet
dispatch_answers id outbound (connect c) h = (refl, refl, refl)
dispatch_answers id outbound (subscribe s) h =
    let (replied, asked, codes) = subscriptions_lem id s.subscriptions _ in
    (replied ∙ rw codes refl, asked, refl)
dispatch_answers id outbound (unsubscribe u) h =
    let (replied, asked) = unsubscriptions_lem id u.topic_filters _ in (replied, asked, refl)
dispatch_answers id outbound (publish p) h =
    let has_id : HasIdFor p.qos p.packet_id = h.4 in
    let (replied, asked) = publish_lem p.qos p.packet_id (publish_from id p) has_id in
    (replied, asked, refl)
dispatch_answers id outbound (pub_ack a) h = (refl, refl, refl)
dispatch_answers id outbound ping_req h = (refl, refl, refl)
dispatch_answers id outbound disconnect h = (refl, refl, refl)
dispatch_answers id outbound (conn_ack a) h = absurd h
dispatch_answers id outbound (sub_ack a) h = absurd h
dispatch_answers id outbound (unsub_ack a) h = absurd h
dispatch_answers id outbound ping_resp h = absurd h
