-- ===== src/Client/Journey.antt =====
-- A message of one client of src/bin/blitzclient.rs, through a shard of src/broker.rs, to another.
use blitz_broker.Common.{
  Bool, false, ap, sym, ◌∙◌, ◌||◌, none, if◌then◌else◌, map, ℕ, ◌≡◌, refl, inl, inr, true, some,
  List, [], ◌∷◌, ◌++◌, ◌==◌, ==_iff, Bool-cases, nat_eq, list_beq, list_eq,
}
use blitz_broker.HashMap.{lookup, insert, or_default}
use blitz_broker.Outcome.{ok}
use blitz_broker.Protocol.Packet.{Str, PublishPacket, publish}
use blitz_broker.Protocol.Topic.{topic_matches_filter}
use blitz_broker.Broker.{
  FanOut, OutboundEvent, ConnectionId, QueueHandle, BrokerMessage, packet_event, disconnect_client,
  Shard, ClientState, is_wildcard_filter, add_subscriber, replay_retained, matching_retained,
  handle, handle_subscribe, handle_publish, handle_disconnect, fan_out, notify, notify_exact,
  notify_others, notify_wildcard, run_broker, new_shard,
}
use blitz_broker.Broker.Reach.{plain_cases}
use blitz_broker.Connection.{writer_loop}
use blitz_broker.Client.Run
use blitz_broker.Client.Lossy.{from_utf8_lossy-is_utf8}
use blitz_broker.Protocol.Utf8.{is_utf8}
use blitz_broker.Client.Understood.{publish_packet}
use blitz_broker.Client.Sessions.{linked, answers_to, pub_packets, pub_id}
use blitz_broker.Client.Listening.{IsDelivered, sub_packets, sub_bytes, run_sub_session}
use blitz_broker.Client.Conversation.{asked_by_each}

-- The shard with one subscriber to one filter, and another client.
abbrev shared : ConnectionId → ConnectionId → QueueHandle → QueueHandle → Str → Str → Str → Shard
shared i j q r name other filter = record {
  clients =
      (i, record { client_id = name; outbound = q })
      ∷ (j, record { client_id = other; outbound = r })
      ∷ [];
  topics = (filter, i ∷ []) ∷ [];
  retained = [];
}

module _ (i j : ConnectionId) (q r : QueueHandle) (name other filter : Str)
    (p : PublishPacket) where
  abbrev nobody : FanOut
  nobody = record { notified = []; sent = [] }

  abbrev the_subscriber : FanOut
  the_subscriber = record { notified = i ∷ []; sent = (q, packet_event (publish p)) ∷ [] }

  itself : (i == i) ≡ true
  itself = (==_iff i i).1 refl

  exact_one :
      (spelled : Bool)
      → notify_exact
          (shared i j q r name other filter).clients
          p
          (or_default (if spelled then some (i ∷ []) else none))
          nobody
        ≡ (if spelled then the_subscriber else nobody)
  unfolding notify_exact notify lookup or_default
  exact_one true = rw itself refl
  exact_one false = refl

  wildcard_one :
      (wild spelled : Bool)
      → is_wildcard_filter filter ≡ wild
      → topic_matches_filter p.topic filter ≡ true
      → (wild || spelled) ≡ true
      → notify_wildcard
          (shared i j q r name other filter).clients
          p
          ((filter, i ∷ []) ∷ [])
          (if spelled then the_subscriber else nobody)
        ≡ the_subscriber
  unfolding notify_wildcard notify_others notify lookup
  wildcard_one true true wild matching h = rw (wild, matching, itself) refl
  wildcard_one true false wild matching h = rw (wild, matching, itself) refl
  wildcard_one false true wild matching h = rw wild refl
  wildcard_one false false wild matching h = cc

  spelled_or_wild :
      (wild : Bool)
      → is_wildcard_filter filter ≡ wild
      → topic_matches_filter p.topic filter ≡ true
      → (wild || list_beq filter p.topic) ≡ true
  spelled_or_wild true wild matching = refl
  spelled_or_wild false plain matching = sym (plain_cases p.topic filter plain) ∙ matching

  fan_out_one :
      topic_matches_filter p.topic filter ≡ true
      → fan_out p (shared i j q r name other filter) ≡ the_subscriber
  unfolding fan_out lookup
  fan_out_one matching =
      let spelled = list_beq filter p.topic in
      let wild = is_wildcard_filter filter in
      ap (notify_wildcard (shared i j q r name other filter).clients p ((filter, i ∷ []) ∷ []))
        (exact_one spelled)
      ∙ wildcard_one wild spelled refl matching (spelled_or_wild wild refl matching)

subscribed_alone :
    (i : ConnectionId) (filter : Str) (client : ClientState)
    → replay_retained filter [] (some client) ≡ []
unfolding replay_retained matching_retained lookup
subscribed_alone i filter client = elim (Bool-cases (is_wildcard_filter filter)) [
  | inl wild ↦ rw wild refl
  | inr plain ↦ rw plain refl
]

-- What a subscriber and then a publisher ask of the broker.
abbrev pub asked :
    ConnectionId
    → ConnectionId
    → QueueHandle
    → QueueHandle
    → Str
    → Str
    → Str
    → Str
    → Str
    → ℕ
    → List BrokerMessage
asked i j q r sub_process pub_process filter topic message qos =
    asked_by_each i q (sub_packets sub_process filter)
    ++ (asked_by_each j r (pub_packets pub_process topic message qos) ++ (disconnect_client j ∷ []))

one_delivery :
    (i j : ConnectionId) (q r : QueueHandle) (sub_process pub_process filter topic message : Str)
    (qos : ℕ)
    → (i == j) ≡ false
    → topic_matches_filter topic filter ≡ true
    → (run_broker (asked i j q r sub_process pub_process filter topic message qos) new_shard).1
      ≡ (q, packet_event (publish (publish_packet topic message qos (pub_id qos)))) ∷ []
unfolding run_broker handle handle_subscribe handle_publish handle_disconnect new_shard insert
    lookup add_subscriber or_default
one_delivery i j q r sub_process pub_process filter topic message qos apart matching =
    let client : ClientState = record { client_id = Run.client_id_of sub_process; outbound = q } in
    let sent =
      ap (λ f. f.sent)
        (fan_out_one i j q r (Run.client_id_of sub_process) (Run.client_id_of pub_process) filter
          (publish_packet topic message qos (pub_id qos)) matching) in
    let itself' : (i == i) ≡ true = (==_iff i i).1 refl in
    rw (itself', apart, subscribed_alone i filter client, sent) refl

-- On a shard where a client `i` has run `run_sub` on a filter, and another, `j`, then runs `run_pub` at QoS
-- 0 or 1 on a topic that the filter matches, the shard pushes the message to the first client alone, and
-- once; and if the message is text, on the broker's answers with that push behind them, `run_sub` prints the topic and the message.
pub published_is_printed :
    (i j : ConnectionId) (q r : QueueHandle) (sub_process pub_process filter topic message : Str)
    (qos : ℕ)
    → (i == j) ≡ false
    → IsDelivered (publish_packet topic message qos (pub_id qos))
    → is_utf8 message ≡ true
    → topic_matches_filter topic filter ≡ true
    → (events : List OutboundEvent) × ((run_broker
          (asked i j q r sub_process pub_process filter topic message qos)
          new_shard).1
        ≡ map (λ event. (q, event)) events)
      × (Run.run_sub sub_process filter (
            linked
              (writer_loop
                (map packet_event (answers_to (sub_packets sub_process filter)) ++ events))
              []
              [])
          ≡ (linked [] (sub_bytes sub_process filter) ((topic, message) ∷ []), ok tt))
published_is_printed i j q r sub_process pub_process filter topic message qos apart delivered text
      matching =
    let p = publish_packet topic message qos (pub_id qos) in
    (
      packet_event (publish p) ∷ [],
      one_delivery i j q r sub_process pub_process filter topic message qos apart matching,
      run_sub_session sub_process filter (p ∷ []) (delivered, tt)
          ∙ ap (λ line. (linked [] (sub_bytes sub_process filter) ((topic, line) ∷ []), ok tt))
              (from_utf8_lossy-is_utf8 message text),
    )
