-- ===== src/Broker/Shards/Whole.antt =====
-- The shards of src/broker.rs together: of what a single broker would push, each pushes what is on its
-- topics.
use blitz_broker.Common.{
  ℕ, ◌<◌, ◌≡◌, refl, sym, ap, ◌∙◌, inl, inr, Bool, true, false, Option, none, some, List, [], ◌∷◌,
  ◌++◌, map, arith, if◌then◌else◌, Bool-cases, Option-cases, get_elem?, All, nat_eq, list_eq,
}
use blitz_broker.HashMap.{HashMap, lookup, All-lookup}
use blitz_broker.HashMap.Filter.{filter_keys, lookup-filter_keys}
use blitz_broker.Protocol.Packet.{Str, PublishPacket, publish}
use blitz_broker.Broker.{
  handle_subscribe, register_client, subscribe_to, unsubscribe_from, disconnect_client, new_shard,
  is_wildcard_filter, publish_from, ClientState, handle_publish, run_broker, BrokerMessage,
  replay_retained, Shard, handle, ConnectionId, QueueHandle, packet_event, Delivery, replay,
  replay_exact, matching_retained, Clients,
}
use blitz_broker.Broker.Invariant.{new_shard-IsShard, handle-IsShard, IsShard, IsRetained}
use blitz_broker.Broker.Reach.{push_each}
use blitz_broker.Broker.Shards.{open_channels, Channel}
use blitz_broker.Broker.Shards.Queues.Runs.{queued_messages, send_run}
use blitz_broker.Broker.Shards.Transparent.{
  part-new_shard, part-handle, fan_out-part, part, concerns, holds, owns, select,
}
use blitz_broker.Broker.Once.{publish_reaches_once}

-- Whether a push is that of a publish on a topic that passes the test.
abbrev is_on : (Str → Bool) → Delivery → Bool
is_on test (outbound, packet_event (publish p)) = test p.topic
is_on test (outbound, event) = false

abbrev pub on_topics : (Str → Bool) → List Delivery → List Delivery
on_topics test [] = []
on_topics test (d ∷ sent) =
    let rest = on_topics test sent in if is_on test d then d ∷ rest else rest

on_topics-append :
    (test : Str → Bool) (sent more : List Delivery)
    → on_topics test (sent ++ more) ≡ on_topics test sent ++ on_topics test more
on_topics-append test [] more = refl
on_topics-append test (d ∷ sent) more = elim (Bool-cases (is_on test d)) [
  | inl on ↦ rw on (ap (◌∷◌ d) (on_topics-append test sent more))
  | inr off ↦ rw off (on_topics-append test sent more)
]

on_topics-push_each :
    (test : Str → Bool) (p : PublishPacket) (clients : Clients) (ids : List ConnectionId)
    → on_topics test (push_each p clients ids)
      ≡ (if test p.topic then push_each p clients ids else [])
on_topics-push_each test p clients [] = ground arith
on_topics-push_each test p clients (id ∷ ids) =
    let rest = on_topics-push_each test p clients ids in
    elim (Option-cases (lookup id clients)) [
      | inl absent ↦ rw absent rest
      | inr (client, found) ↦ elim (Bool-cases (test p.topic)) [
        | inl on ↦
            rw (found, on) (ap (◌∷◌ (client.outbound, packet_event (publish p))) (rw on at rest))
        | inr off ↦ rw (found, off) (rw off at rest)
      ]
    ]

on_topics-replay_all :
    (test : Str → Bool) (outbound : QueueHandle) (filter : Str) (m : HashMap Str PublishPacket)
    → All IsRetained m
    → on_topics test (map (replay outbound) (matching_retained filter m))
      ≡ map (replay outbound) (matching_retained filter (filter_keys test m))
unfolding matching_retained filter_keys
on_topics-replay_all test outbound filter [] h = refl
on_topics-replay_all test outbound filter ((key, p) ∷ m) h =
    let rest = on_topics-replay_all test outbound filter m h.1 in
    let same : p.topic ≡ key = h.0.0 in ground (arith, rest, same)

on_topics-replay_exact :
    (test : Str → Bool) (outbound : QueueHandle) (filter : Str) (m : HashMap Str PublishPacket)
    → All IsRetained m
    → on_topics test (replay_exact outbound (lookup filter m))
      ≡ replay_exact outbound (lookup filter (filter_keys test m))
on_topics-replay_exact test outbound filter m h =
    let kept = lookup-filter_keys test filter m in
    elim (Option-cases (lookup filter m)) [
      | inl absent ↦ rw (kept, absent) (ground arith)
      | inr (p, found) ↦
          let same : p.topic ≡ filter = (All-lookup IsRetained filter p m found h).0 in
          rw (kept, found, same) (ground arith)
    ]

module _ (hasher : Str → ℕ) (n i : ℕ) where
  handle-part :
      (from : ConnectionId) (p : PublishPacket) (s : Shard)
      → owns hasher n i p.topic ≡ true
      → (handle (publish_from from p) s).1 ≡ (handle (publish_from from p) (part hasher n i s)).1
  unfolding handle handle_publish
  handle-part from p s own = rw (fan_out-part hasher n i p s own) refl

  on_topics-publish :
      (from : ConnectionId) (p : PublishPacket) (s : Shard)
      → IsShard s
      → on_topics (owns hasher n i) (handle (publish_from from p) s).1 ≡ (
          if owns hasher n i p.topic
          then (handle (publish_from from p) (part hasher n i s)).1
          else [])
  on_topics-publish from p s v =
      let (ids, once, reached, pushes) = publish_reaches_once from p s v in
      ap (on_topics (owns hasher n i)) pushes
      ∙ on_topics-push_each (owns hasher n i) p s.clients ids
      ∙ elim (Bool-cases (owns hasher n i p.topic)) [
        | inl own ↦ rw own (sym pushes ∙ handle-part from p s own)
        | inr other ↦ rw other refl
      ]

  on_topics-replay_retained :
      (filter : Str) (s : Shard) (client : Option ClientState)
      → IsShard s
      → on_topics (owns hasher n i) (replay_retained filter s.retained client) ≡ (
          if holds hasher n i filter
          then replay_retained filter (filter_keys (owns hasher n i) s.retained) client
          else [])
  unfolding replay_retained
  on_topics-replay_retained filter s none v = ground arith
  on_topics-replay_retained filter s (some client) v =
      elim (Bool-cases (is_wildcard_filter filter)) [
        | inl wild ↦
            rw wild
              (on_topics-replay_all (owns hasher n i) client.outbound filter s.retained v.kept)
        | inr plain ↦
            let kept = lookup-filter_keys (owns hasher n i) filter s.retained in
            rw plain (
              on_topics-replay_exact (owns hasher n i) client.outbound filter s.retained v.kept
              ∙ elim (Bool-cases (owns hasher n i filter)) [
                | inl own ↦ rw own refl
                | inr other ↦ rw (kept, other) refl
              ])
      ]

  on_topics-handle :
      (msg : BrokerMessage) (s : Shard)
      → IsShard s
      → on_topics (owns hasher n i) (handle msg s).1
        ≡ (if concerns hasher n i msg then (handle msg (part hasher n i s)).1 else [])
  on_topics-handle (register_client id client_id outbound) s v = unfold handle in refl
  on_topics-handle (subscribe_to id filter) s v =
      unfold handle in
      unfold handle_subscribe in
      unfold part in on_topics-replay_retained filter s (lookup id s.clients) v
  on_topics-handle (unsubscribe_from id filter) s v = unfold handle in ground arith
  on_topics-handle (publish_from from p) s v = on_topics-publish from p s v
  on_topics-handle (disconnect_client id) s v = unfold handle in refl

  on_topics-run_broker :
      (messages : List BrokerMessage) (s : Shard)
      → IsShard s
      → (run_broker (select (concerns hasher n i) messages) (part hasher n i s)).1
        ≡ on_topics (owns hasher n i) (run_broker messages s).1
  unfolding run_broker
  on_topics-run_broker [] s v = refl
  on_topics-run_broker (msg ∷ messages) s v =
      let next = (handle msg s).0 in
      let now = on_topics-handle msg s v in
      let state = part-handle hasher n i msg s in
      let rest = on_topics-run_broker messages next (handle-IsShard msg s v) in
      let pieces =
        on_topics-append (owns hasher n i) (handle msg s).1 (run_broker messages next).1 in
      elim (Bool-cases (concerns hasher n i msg)) [
        | inl mine ↦
            let same : part hasher n i next ≡ (handle msg (part hasher n i s)).0 =
              rw mine at state in
            let sent : on_topics (owns hasher n i) (handle msg s).1
                ≡ (handle msg (part hasher n i s)).1 =
              rw mine at now in
            rw (mine, sym same, sym sent, pieces, rest) refl
        | inr other ↦
            let same : part hasher n i next ≡ part hasher n i s = rw other at state in
            let sent : on_topics (owns hasher n i) (handle msg s).1 ≡ [] = rw other at now in
            rw (other, sym same, pieces, sent, rest) refl
      ]

-- Whatever is sent to a new sharded broker: shard `i`, on what `send` leaves in its channel, pushes those
-- of the pushes of a single broker that are on the topics that it owns, and in the same order, the entries
-- of a map being in the order of their insertion.
pub sharded_broker_pushes :
    (hasher : Str → ℕ) (n i : ℕ) (messages : List BrokerMessage) (channel : Channel)
    → i < n
    → get_elem? (send_run hasher messages (open_channels n)) i ≡ some channel
    → (run_broker channel.messages new_shard).1
      ≡ on_topics (owns hasher n i) (run_broker messages new_shard).1
sharded_broker_pushes hasher n i messages channel h found =
    let queued = queued_messages hasher n i messages h in
    let held : channel.messages ≡ select (concerns hasher n i) messages = cc in
    rw held (
      ap (λ s. (run_broker (select (concerns hasher n i) messages) s).1)
        (sym (part-new_shard hasher n i))
      ∙ on_topics-run_broker hasher n i messages new_shard new_shard-IsShard)
