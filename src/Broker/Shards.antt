-- ===== src/Broker/Shards.antt =====
-- src/broker.rs, the sharded broker: the shard that owns a topic, and `ShardedBroker::send`. The hash
-- function of the standard library is a parameter; nothing is assumed of it but that it is a function.
pub mod Queues
pub mod Senders
pub mod Transparent
pub mod Whole
use blitz_broker.Common.{
  ◌&&◌, ℕ, zero, suc, ◌%◌, Bool, true, false, List, [], ◌∷◌, ◌++◌, leb, ◌==◌, if◌then◌else◌, length,
  nat_eq, list_eq,
}
use blitz_broker.Outcome.{◌>>=◌, Outcome, ok, err, panic}
use blitz_broker.Protocol.Packet.{Str}
use blitz_broker.Broker.{
  is_wildcard_filter, BrokerMessage, register_client, subscribe_to, unsubscribe_from, publish_from,
  disconnect_client,
}

-- A channel of `mpsc`: whether its receiver still is, and what was sent to it, in order.
pub record Channel : Type 0 where
  pub is_open : Bool
  pub messages : List BrokerMessage

-- `Sender::send`: the channel after it, and whether it is `Ok`.
unfoldable pub send_one : BrokerMessage → Channel → Channel × Bool
send_one msg c =
    if c.is_open then (record c { messages = c.messages ++ (msg ∷ []) }, true) else (c, false)

-- `if any_ok { Ok(()) } else { Err(()) }`, and `map_err(|_| ())`
abbrev pub result_of : Bool → Outcome (Unit {0}) (Unit {0})
result_of true = ok tt
result_of false = err tt

-- `self.shard_txs[shard].send(msg)`; an index out of range panics.
unfoldable pub send_single :
    ℕ → BrokerMessage → List Channel → List Channel × Outcome (Unit {0}) (Unit {0})
send_single shard msg [] = ([], panic)
send_single zero msg (c ∷ channels) =
    let (c', sent) = send_one msg c in (c' ∷ channels, result_of sent)
send_single (suc shard) msg (c ∷ channels) =
    let (channels', result) = send_single shard msg channels in (c ∷ channels', result)

-- The loops of the broadcast.
unfoldable pub send_each : BrokerMessage → Bool → List Channel → List Channel × Bool
send_each msg any_ok [] = ([], any_ok)
send_each msg any_ok (c ∷ channels) =
    let (c', sent) = send_one msg c in
    let (channels', result) = send_each msg (if sent then true else any_ok) channels in
    (c' ∷ channels', result)

unfoldable pub send_broadcast :
    BrokerMessage → List Channel → List Channel × Outcome (Unit {0}) (Unit {0})
send_broadcast (publish_from from p) channels = (channels, panic)
send_broadcast msg channels =
    let (channels', any_ok) = send_each msg false channels in (channels', result_of any_ok)

pub data Routing : Type 0 where
  single_shard : ℕ → Routing
  broadcast : Routing

module _ (hasher : Str → ℕ) where
  unfoldable pub shard_for_topic : Str → ℕ → ℕ
  shard_for_topic topic num_shards = if num_shards == 0 then 0 else hasher topic % num_shards

  unfoldable pub routing : ℕ → BrokerMessage → Routing
  routing n (subscribe_to id topic) =
      if is_wildcard_filter topic then broadcast else single_shard (shard_for_topic topic n)
  routing n (unsubscribe_from id topic) =
      if is_wildcard_filter topic then broadcast else single_shard (shard_for_topic topic n)
  routing n (publish_from from p) = single_shard (shard_for_topic p.topic n)
  routing n (register_client id client_id outbound) = broadcast
  routing n (disconnect_client id) = broadcast

  abbrev send_by :
      Routing → BrokerMessage → List Channel → List Channel × Outcome (Unit {0}) (Unit {0})
  send_by (single_shard shard) msg channels = send_single shard msg channels
  send_by broadcast msg channels = send_broadcast msg channels

  -- `ShardedBroker::send`
  unfoldable pub send : BrokerMessage → List Channel → List Channel × Outcome (Unit {0}) (Unit {0})
  send msg channels = send_by (routing (length channels) msg) msg channels

unfoldable pub open_channels : ℕ → List Channel
open_channels zero = []
open_channels (suc n) = record { is_open = true; messages = [] } ∷ open_channels n

-- The loop, from shard `i` on; `starts` says whether the system starts the thread of a shard.
unfoldable pub start_shards : (ℕ → Bool) → ℕ → ℕ → Outcome (Unit {0}) (List Channel)
start_shards starts i zero = ok []
start_shards starts i (suc left) =
    if starts i
    then (start_shards starts (suc i) left >>= λ channels.
        ok (record { is_open = true; messages = [] } ∷ channels))
    else panic

-- The channels of the shards it starts. It panics at 0, where `Vec::with_capacity` is not given the room, as
-- `reserves` says, and where a thread does not start.
unfoldable pub spawn_sharded_broker :
    (ℕ → Bool) → (ℕ → Bool) → ℕ → Outcome (Unit {0}) (List Channel)
spawn_sharded_broker reserves starts num_shards =
    if leb 1 num_shards && reserves num_shards then start_shards starts 0 num_shards else panic
