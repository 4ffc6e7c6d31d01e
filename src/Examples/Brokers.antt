-- ===== src/Examples/Brokers.antt =====
-- The shards of src/broker.rs with two clients: one subscribes to a topic and to a filter that matches it,
-- the other to the filter.
use blitz_broker.Common.{
  ◌++◌, if◌then◌else◌, ◌==◌, ℕ, ◌≡◌, refl, true, ◌&&◌, none, List, [], ◌∷◌, arith, length, nat_eq,
  contains, list_eq,
}
use blitz_broker.HashMap.{HashMap, lookup, Unique}
use blitz_broker.Protocol.Packet.{Str, PublishPacket}
use blitz_broker.Protocol.Topic.{plus, topic_matches_filter}
use blitz_broker.Broker.{
  ConnectionId, BrokerMessage, register_client, subscribe_to, publish_from, disconnect_client,
  ClientState, Shard, new_shard, is_wildcard_filter, handle, run_broker,
}
use blitz_broker.Broker.Subscribers.{NoRepeat}
use blitz_broker.Broker.Reach.{is_subscribed, is_registered, push_each}
use blitz_broker.Broker.Once.{publish_reaches_once}
use blitz_broker.Broker.Invariant.{IsShard, new_shard-IsShard, run_broker-IsShard}
use blitz_broker.Broker.Spec.{view, view_run, view-run_broker}
use blitz_broker.Broker.Replay.{replay_each, subscribe_replays}
use blitz_broker.Broker.Shards.{shard_for_topic, Channel, send, result_of, open_channels}
use blitz_broker.Broker.Shards.Transparent.{
  concerns, select, part, part-run_broker, owner_publishes,
}
use blitz_broker.Broker.Shards.Senders.{Bus, run_sends, start_sends, sent_to, arrived}
use blitz_broker.Broker.Shards.Senders.Order.{senders_keep_order}
use blitz_broker.Broker.Shards.Queues.{receive, any_open, send-receive}
use blitz_broker.Broker.Shards.Queues.Runs.{queued_messages}
use blitz_broker.Broker.Shards.Whole.{on_topics, sharded_broker_pushes}

abbrev topic : Str
topic = b'a' ∷ b'/' ∷ b'b' ∷ []

abbrev filter : Str
filter = b'a' ∷ b'/' ∷ plus ∷ []

abbrev reading : PublishPacket
reading = record { topic = topic; payload = 21 ∷ []; qos = 0; retain = true; packet_id = none }

abbrev messages : List BrokerMessage
messages =
    register_client 1 (b'x' ∷ []) 10
    ∷ register_client 2 (b'y' ∷ []) 20
    ∷ subscribe_to 1 topic
    ∷ subscribe_to 1 filter
    ∷ subscribe_to 2 filter
    ∷ publish_from 2 reading
    ∷ []

abbrev busy : Shard
busy = (run_broker messages new_shard).0

busy-IsShard : IsShard busy
busy-IsShard = run_broker-IsShard messages new_shard new_shard-IsShard

run_broker-IsShard_example : IsShard (run_broker messages new_shard).0
run_broker-IsShard_example = run_broker-IsShard messages new_shard new_shard-IsShard

publish_reaches_once_example :
    (ids : List ConnectionId) × NoRepeat ids
    × ((id : ConnectionId)
        → contains ids id ≡ (is_subscribed topic id busy.topics && is_registered id busy.clients))
    × ((handle (publish_from 2 reading) busy).1 ≡ push_each reading busy.clients ids)
publish_reaches_once_example = publish_reaches_once 2 reading busy busy-IsShard

subscribe_replays_example :
    (m : HashMap Str PublishPacket) × Unique m
    × ((t : Str)
        → lookup t m ≡ (if topic_matches_filter t filter then lookup t busy.retained else none))
    × ((handle (subscribe_to 2 filter) busy).1 ≡ replay_each 20 m)
unfolding run_broker handle lookup blitz_broker.Broker.handle_publish
    blitz_broker.Broker.handle_subscribe blitz_broker.HashMap.insert new_shard
subscribe_replays_example =
    subscribe_replays 2 filter (record { client_id = b'y' ∷ []; outbound = 20 }) busy busy-IsShard
      refl

view-run_broker_example :
    view (run_broker messages new_shard).0 ≡ view_run messages (view new_shard)
view-run_broker_example = view-run_broker messages new_shard

-- A hash function for the tests.
abbrev count_bytes : Str → ℕ
count_bytes s = length s

send-receive_example : send count_bytes (subscribe_to 1 topic) (open_channels 4) ≡ (
  receive
      (λ i. concerns count_bytes 4 i (subscribe_to 1 topic))
      (subscribe_to 1 topic)
      (open_channels 4),
  result_of (any_open (λ i. concerns count_bytes 4 i (subscribe_to 1 topic)) (open_channels 4)),
)
unfolding open_channels
send-receive_example =
    send-receive count_bytes (subscribe_to 1 topic) (open_channels 4) (omega arith)

part-run_broker_example :
    (run_broker (select (concerns count_bytes 4 3) messages) (part count_bytes 4 3 new_shard)).0
    ≡ part count_bytes 4 3 (run_broker messages new_shard).0
part-run_broker_example = part-run_broker count_bytes 4 3 messages new_shard

owner_publishes_example :
    (handle
      (publish_from 2 reading)
      (run_broker (select (concerns count_bytes 4 3) messages) new_shard).0).1
    ≡ (handle (publish_from 2 reading) (run_broker messages new_shard).0).1
unfolding blitz_broker.Broker.Shards.shard_for_topic
owner_publishes_example = owner_publishes count_bytes 4 3 messages 2 reading refl

-- The channel of shard 3 of 4 once the messages are sent.
abbrev at_owner : Channel
at_owner = record { is_open = true; messages = select (concerns count_bytes 4 3) messages }

sharded_broker_pushes_example :
    (run_broker at_owner.messages new_shard).1
    ≡ on_topics (λ t. shard_for_topic count_bytes t 4 == 3) (run_broker messages new_shard).1
sharded_broker_pushes_example =
    sharded_broker_pushes count_bytes 4 3 messages at_owner (omega arith)
      (queued_messages count_bytes 4 3 messages (omega arith))

abbrev calls : ℕ → List BrokerMessage
calls thread = if thread == 0 then messages else subscribe_to 3 filter ∷ publish_from 3 reading ∷ []

abbrev in_turn : List ℕ
in_turn = 0 ∷ 1 ∷ 1 ∷ 0 ∷ 0 ∷ 1 ∷ []

abbrev shared_bus : Bus
shared_bus = run_sends in_turn (start_sends (λ s. 7) 2 calls)

senders_keep_order_example :
    arrived 1 1 shared_bus.log ++ sent_to 1 (shared_bus.to_send 1)
    ≡ select (concerns (λ s. 7) 2 1) (subscribe_to 3 filter ∷ publish_from 3 reading ∷ [])
senders_keep_order_example = senders_keep_order (λ s. 7) 2 1 1 calls in_turn (omega arith)
