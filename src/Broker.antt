-- ===== src/Broker.antt =====
-- src/broker.rs, one shard: the state of `run_broker`, and one turn of its loop per message. A queue
-- handle is a number; a push onto it is a `Delivery`, and the queue's own behaviour is in Queue.
pub mod Subscribers
pub mod Reach
pub mod Invariant
pub mod Once
pub mod Spec
pub mod Replay
pub mod Shards
use blitz_broker.Common.{
  ℕ, ◌+◌, ◌%◌, ◌^◌, Bool, true, not, ◌||◌, Option, none, some, List, [], ◌∷◌, ◌++◌, map, ◌==◌,
  if◌then◌else◌, nat_eq, list_beq, contains, list_eq,
}
use blitz_broker.HashMap.{HashMap, lookup, insert, remove, or_default}
use blitz_broker.Protocol.Packet.{Str, PublishPacket, MqttPacket, publish}
use blitz_broker.Protocol.Topic.{plus, hash, topic_matches_filter}

unfoldable pub is_wildcard_filter : Str → Bool
is_wildcard_filter filter = contains filter plus || contains filter hash

abbrev pub default_client_queue_capacity : ℕ
default_client_queue_capacity = 128

abbrev pub num_broker_shards : ℕ
num_broker_shards = 4

abbrev pub ConnectionId : Type 0
ConnectionId = ℕ

-- `fetch_add` on an `AtomicU64`: the id handed out, and the counter after it.
unfoldable next_connection_id : ℕ → ConnectionId × ℕ
next_connection_id counter = (counter, (counter + 1) % 2 ^ 64)

abbrev pub QueueHandle : Type 0
QueueHandle = ℕ

pub data BrokerMessage : Type 0 where
  register_client : ConnectionId → Str → QueueHandle → BrokerMessage
  subscribe_to unsubscribe_from : ConnectionId → Str → BrokerMessage
  publish_from : ConnectionId → PublishPacket → BrokerMessage
  disconnect_client : ConnectionId → BrokerMessage

pub data OutboundEvent : Type 0 where
  packet_event : MqttPacket → OutboundEvent

pub record ClientState : Type 0 where
  pub client_id : Str
  pub outbound : QueueHandle

-- The locals of `run_broker`.
pub record Shard : Type 0 where
  pub clients : HashMap ConnectionId ClientState
  pub topics : HashMap Str (List ConnectionId)
  pub retained : HashMap Str PublishPacket

unfoldable pub new_shard : Shard
new_shard = record { clients = []; topics = []; retained = [] }

-- One `outbound.push(..)`.
abbrev pub Delivery : Type 0
Delivery = QueueHandle × OutboundEvent

abbrev pub Clients : Type 0
Clients = HashMap ConnectionId ClientState

-- `if !subs.contains(&id) { subs.push(id) }`
unfoldable pub add_subscriber : ConnectionId → List ConnectionId → List ConnectionId
add_subscriber id subs = if contains subs id then subs else subs ++ (id ∷ [])

-- `subs.retain(|&sid| sid != id)`
unfoldable pub drop_subscriber : ConnectionId → List ConnectionId → List ConnectionId
drop_subscriber id [] = []
drop_subscriber id (sid ∷ subs) =
    let rest = drop_subscriber id subs in if sid == id then rest else sid ∷ rest

-- The values of the retained map whose topic the wildcard filter matches.
unfoldable pub matching_retained : Str → HashMap Str PublishPacket → List PublishPacket
matching_retained filter [] = []
matching_retained filter ((key, p) ∷ m) =
    let rest = matching_retained filter m in
    if topic_matches_filter p.topic filter then p ∷ rest else rest

-- `pkt.retain = true`, and the push of the packet.
abbrev pub replay : QueueHandle → PublishPacket → Delivery
replay handle p = (handle, packet_event (publish (record p { retain = true })))

abbrev pub replay_exact : QueueHandle → Option PublishPacket → List Delivery
replay_exact handle none = []
replay_exact handle (some p) = replay handle p ∷ []

unfoldable pub replay_retained :
    Str → HashMap Str PublishPacket → Option ClientState → List Delivery
replay_retained topic retained none = []
replay_retained topic retained (some client) =
    if is_wildcard_filter topic
    then map (replay client.outbound) (matching_retained topic retained)
    else replay_exact client.outbound (lookup topic retained)

unfoldable pub handle_subscribe : ConnectionId → Str → Shard → Shard × List Delivery
handle_subscribe id topic s = (
  record s {
    topics = insert topic (add_subscriber id (or_default (lookup topic s.topics))) s.topics;
  },
  replay_retained topic s.retained (lookup id s.clients),
)

abbrev pub unsubscribe_entry :
    ConnectionId
    → Str
    → HashMap Str (List ConnectionId)
    → Option (List ConnectionId)
    → HashMap Str (List ConnectionId)
unsubscribe_entry id topic topics none = topics
unsubscribe_entry id topic topics (some subs) = insert topic (drop_subscriber id subs) topics

unfoldable pub handle_unsubscribe : ConnectionId → Str → Shard → Shard
handle_unsubscribe id topic s = record s {
  topics = unsubscribe_entry id topic s.topics (lookup topic s.topics);
}

unfoldable pub update_retained :
    PublishPacket → HashMap Str PublishPacket → HashMap Str PublishPacket
update_retained p retained =
    if p.retain
    then (if list_beq p.payload [] then remove p.topic retained else insert p.topic p retained)
    else retained

-- `notified`, and the pushes so far.
pub record FanOut : Type 0 where
  pub notified : List ConnectionId
  pub sent : List Delivery

-- `if let Some(client) = clients.get(&sid) { push; notified.push(sid) }`
unfoldable pub notify : PublishPacket → ConnectionId → Option ClientState → FanOut → FanOut
notify p sid none f = f
notify p sid (some client) f = record {
  notified = f.notified ++ (sid ∷ []);
  sent = f.sent ++ ((client.outbound, packet_event (publish p)) ∷ []);
}

-- The loop of the exact-match path.
unfoldable pub notify_exact : Clients → PublishPacket → List ConnectionId → FanOut → FanOut
notify_exact clients p [] f = f
notify_exact clients p (sid ∷ subs) f =
    notify_exact clients p subs (notify p sid (lookup sid clients) f)

-- The inner loop of the wildcard pass.
unfoldable pub notify_others : Clients → PublishPacket → List ConnectionId → FanOut → FanOut
notify_others clients p [] f = f
notify_others clients p (sid ∷ subs) f =
    notify_others clients p subs
      (if contains f.notified sid then f else notify p sid (lookup sid clients) f)

-- The wildcard pass.
unfoldable pub notify_wildcard :
    Clients → PublishPacket → HashMap Str (List ConnectionId) → FanOut → FanOut
notify_wildcard clients p [] f = f
notify_wildcard clients p ((filter, subs) ∷ topics) f = notify_wildcard clients p topics (
    if not (is_wildcard_filter filter)
    then f
    else if not (topic_matches_filter p.topic filter)
    then f
    else notify_others clients p subs f)

unfoldable pub fan_out : PublishPacket → Shard → FanOut
fan_out p s = notify_wildcard s.clients p s.topics (
    notify_exact s.clients p (or_default (lookup p.topic s.topics))
      (record { notified = []; sent = [] }))

unfoldable pub handle_publish : PublishPacket → Shard → Shard × List Delivery
handle_publish p s = (record s { retained = update_retained p s.retained }, (fan_out p s).sent)

abbrev pub drop_everywhere :
    ConnectionId → HashMap Str (List ConnectionId) → HashMap Str (List ConnectionId)
drop_everywhere id [] = []
drop_everywhere id ((filter, subs) ∷ topics) =
    (filter, drop_subscriber id subs) ∷ drop_everywhere id topics

unfoldable pub handle_disconnect : ConnectionId → Shard → Shard
handle_disconnect id s = record s {
  clients = remove id s.clients;
  topics = drop_everywhere id s.topics;
}

-- One turn of the loop of `run_broker`: the state after it, and its pushes in order.
unfoldable pub handle : BrokerMessage → Shard → Shard × List Delivery
handle (register_client id client_id outbound) s = (
  record s {
    clients = insert id (record { client_id = client_id; outbound = outbound }) s.clients;
  },
  [],
)
handle (subscribe_to id topic) s = handle_subscribe id topic s
handle (unsubscribe_from id topic) s = (handle_unsubscribe id topic s, [])
handle (publish_from id p) s = handle_publish p s
handle (disconnect_client id) s = (handle_disconnect id s, [])

-- `run_broker` on the messages that its channel yields.
unfoldable pub run_broker : List BrokerMessage → Shard → Shard × List Delivery
run_broker [] s = (s, [])
run_broker (msg ∷ messages) s =
    let (s', sent) = handle msg s in
    let (final, more) = run_broker messages s' in (final, sent ++ more)
