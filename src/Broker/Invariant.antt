-- ===== src/Broker/Invariant.antt =====
-- The invariant of a shard of src/broker.rs: what `run_broker` keeps true of its three maps.
use blitz_broker.Common.{
  ◌≡◌, refl, inl, inr, true, false, none, List, [], ◌∷◌, Bool-cases, Option-cases, All, nat_eq,
  list_beq, list_eq,
}
use blitz_broker.HashMap.{
  HashMap, lookup, or_default, Unique, insert-Unique, remove-Unique, All-insert, All-remove,
  All-lookup,
}
use blitz_broker.Protocol.Packet.{Str, PublishPacket}
use blitz_broker.Broker.{
  ConnectionId, BrokerMessage, register_client, subscribe_to, unsubscribe_from, publish_from,
  disconnect_client, Shard, new_shard, drop_everywhere, update_retained, handle_subscribe,
  handle_unsubscribe, handle_publish, handle_disconnect, handle, run_broker,
}
use blitz_broker.Broker.Subscribers.{NoRepeat, add_subscriber-NoRepeat, drop_subscriber-NoRepeat}

-- The subscribers of a filter.
abbrev pub IsEntry : Str × List ConnectionId → Type 0
IsEntry (filter, subs) = NoRepeat subs

-- A retained packet is kept under its own topic, is marked, and has a payload.
abbrev pub IsRetained : Str × PublishPacket → Type 0
IsRetained (key, p) = (p.topic ≡ key) × (p.retain ≡ true) × (list_beq p.payload [] ≡ false)

pub record IsShard (s : Shard) : Type 0 where
  pub clients_unique : Unique s.clients
  pub topics_unique : Unique s.topics
  pub retained_unique : Unique s.retained
  pub entries : All IsEntry s.topics
  pub kept : All IsRetained s.retained

pub new_shard-IsShard : IsShard new_shard
unfolding new_shard
new_shard-IsShard = record {
  clients_unique = tt;
  topics_unique = tt;
  retained_unique = tt;
  entries = tt;
  kept = tt;
}

pub or_default-NoRepeat :
    (topic : Str) (topics : HashMap Str (List ConnectionId))
    → All IsEntry topics
    → NoRepeat (or_default (lookup topic topics))
unfolding or_default
or_default-NoRepeat topic topics h = elim (Option-cases (lookup topic topics)) [
  | inl absent ↦ rw absent tt
  | inr (subs, found) ↦ rw found (All-lookup IsEntry topic subs topics found h)
]

handle_subscribe-IsShard :
    (id : ConnectionId) (topic : Str) (s : Shard)
    → IsShard s
    → IsShard (handle_subscribe id topic s).0
unfolding handle_subscribe
handle_subscribe-IsShard id topic s v = record {
  clients_unique = v.clients_unique;
  topics_unique = insert-Unique topic _ s.topics v.topics_unique;
  retained_unique = v.retained_unique;
  entries =
      All-insert IsEntry topic _ s.topics
        (add_subscriber-NoRepeat id _ (or_default-NoRepeat topic s.topics v.entries)) v.entries;
  kept = v.kept;
}

handle_unsubscribe-IsShard :
    (id : ConnectionId) (topic : Str) (s : Shard)
    → IsShard s
    → IsShard (handle_unsubscribe id topic s)
unfolding handle_unsubscribe
handle_unsubscribe-IsShard id topic s v = elim (Option-cases (lookup topic s.topics)) [
  | inl absent ↦ rw absent v
  | inr (subs, found) ↦ rw found (record {
    clients_unique = v.clients_unique;
    topics_unique = insert-Unique topic _ s.topics v.topics_unique;
    retained_unique = v.retained_unique;
    entries =
        All-insert IsEntry topic _ s.topics
          (drop_subscriber-NoRepeat id subs
            (All-lookup IsEntry topic subs s.topics found v.entries))
          v.entries;
    kept = v.kept;
  })
]

update_retained-Unique :
    (p : PublishPacket) (m : HashMap Str PublishPacket) → Unique m → Unique (update_retained p m)
unfolding update_retained
update_retained-Unique p m u = elim (Bool-cases p.retain) [
  | inl kept ↦ elim (Bool-cases (list_beq p.payload [])) [
    | inl clears ↦ rw (kept, clears) (remove-Unique p.topic m u)
    | inr stores ↦ rw (kept, stores) (insert-Unique p.topic _ m u)
  ]
  | inr live ↦ rw live u
]

update_retained-IsRetained :
    (p : PublishPacket) (m : HashMap Str PublishPacket)
    → All IsRetained m
    → All IsRetained (update_retained p m)
unfolding update_retained
update_retained-IsRetained p m h = elim (Bool-cases p.retain) [
  | inl kept ↦ elim (Bool-cases (list_beq p.payload [])) [
    | inl clears ↦ rw (kept, clears) (All-remove IsRetained p.topic m h)
    | inr stores ↦ rw (kept, stores) (All-insert IsRetained p.topic _ m (refl, refl, stores) h)
  ]
  | inr live ↦ rw live h
]

handle_publish-IsShard :
    (p : PublishPacket) (s : Shard) → IsShard s → IsShard (handle_publish p s).0
unfolding handle_publish
handle_publish-IsShard p s v = record {
  clients_unique = v.clients_unique;
  topics_unique = v.topics_unique;
  retained_unique = update_retained-Unique p s.retained v.retained_unique;
  entries = v.entries;
  kept = update_retained-IsRetained p s.retained v.kept;
}

lookup-drop_everywhere :
    (id : ConnectionId) (topic : Str) (topics : HashMap Str (List ConnectionId))
    → lookup topic topics ≡ none
    → lookup topic (drop_everywhere id topics) ≡ none
unfolding lookup
lookup-drop_everywhere id topic [] h = refl
lookup-drop_everywhere id topic ((filter, subs) ∷ topics) h =
    elim (Bool-cases (list_beq filter topic)) [
      | inl same ↦ absurd (cc (rw same at h))
      | inr other ↦ rw other (lookup-drop_everywhere id topic topics (rw other at h))
    ]

drop_everywhere-Unique :
    (id : ConnectionId) (topics : HashMap Str (List ConnectionId))
    → Unique topics
    → Unique (drop_everywhere id topics)
drop_everywhere-Unique id [] u = tt
drop_everywhere-Unique id ((filter, subs) ∷ topics) u =
    (lookup-drop_everywhere id filter topics u.0, drop_everywhere-Unique id topics u.1)

drop_everywhere-IsEntry :
    (id : ConnectionId) (topics : HashMap Str (List ConnectionId))
    → All IsEntry topics
    → All IsEntry (drop_everywhere id topics)
drop_everywhere-IsEntry id [] h = tt
drop_everywhere-IsEntry id ((filter, subs) ∷ topics) h =
    (drop_subscriber-NoRepeat id subs h.0, drop_everywhere-IsEntry id topics h.1)

handle_disconnect-IsShard :
    (id : ConnectionId) (s : Shard) → IsShard s → IsShard (handle_disconnect id s)
unfolding handle_disconnect
handle_disconnect-IsShard id s v = record {
  clients_unique = remove-Unique id s.clients v.clients_unique;
  topics_unique = drop_everywhere-Unique id s.topics v.topics_unique;
  retained_unique = v.retained_unique;
  entries = drop_everywhere-IsEntry id s.topics v.entries;
  kept = v.kept;
}

-- Every message keeps the invariant of the shard: no map holds a key twice, no filter holds a subscriber
-- twice, and each retained packet is kept under its own topic, marked retained, with a payload.
pub handle-IsShard : (msg : BrokerMessage) (s : Shard) → IsShard s → IsShard (handle msg s).0
unfolding handle
handle-IsShard (register_client id client_id outbound) s v = record {
  clients_unique = insert-Unique id _ s.clients v.clients_unique;
  topics_unique = v.topics_unique;
  retained_unique = v.retained_unique;
  entries = v.entries;
  kept = v.kept;
}
handle-IsShard (subscribe_to id topic) s v = handle_subscribe-IsShard id topic s v
handle-IsShard (unsubscribe_from id topic) s v = handle_unsubscribe-IsShard id topic s v
handle-IsShard (publish_from id p) s v = handle_publish-IsShard p s v
handle-IsShard (disconnect_client id) s v = handle_disconnect-IsShard id s v

-- A broker that starts empty has the invariant after any messages.
pub run_broker-IsShard :
    (messages : List BrokerMessage) (s : Shard) → IsShard s → IsShard (run_broker messages s).0
unfolding run_broker
run_broker-IsShard [] s v = v
run_broker-IsShard (msg ∷ messages) s v =
    run_broker-IsShard messages (handle msg s).0 (handle-IsShard msg s v)
