-- ===== src/Broker/Replay.antt =====
-- What a subscriber gets at once in src/broker.rs: the retained packets that match its filter.
use blitz_broker.Common.{
  ◌≡◌, refl, sym, ap, ◌∙◌, inl, inr, Bool, true, false, none, some, List, [], ◌∷◌, map,
  if◌then◌else◌, Bool-cases, All, nat_eq, list_beq, list_beq_iff, list_eq,
}
use blitz_broker.HashMap.{HashMap, lookup, Unique}
use blitz_broker.HashMap.Filter.{filter_keys, lookup-filter_keys, filter_keys-Unique}
use blitz_broker.Protocol.Packet.{Str, PublishPacket}
use blitz_broker.Protocol.Topic.{topic_matches_filter}
use blitz_broker.Broker.{
  is_wildcard_filter, QueueHandle, ConnectionId, ClientState, Shard, Delivery, matching_retained,
  replay, replay_exact, replay_retained, handle_subscribe, handle, subscribe_to,
}
use blitz_broker.Broker.Invariant.{IsShard, IsRetained}
use blitz_broker.Broker.Reach.{plain_cases}
use blitz_broker.Protocol.Topic.Matching.{topic_matches_itself}

-- A replay of each entry of a map of retained packets.
abbrev pub replay_each : QueueHandle → HashMap Str PublishPacket → List Delivery
replay_each handle [] = []
replay_each handle ((topic, p) ∷ m) = replay handle p ∷ replay_each handle m

abbrev matched_by : Str → Str → Bool
matched_by filter topic = topic_matches_filter topic filter

wildcard-replay_each :
    (handle : QueueHandle) (filter : Str) (m : HashMap Str PublishPacket)
    → All IsRetained m
    → map (replay handle) (matching_retained filter m)
      ≡ replay_each handle (filter_keys (matched_by filter) m)
unfolding matching_retained filter_keys
wildcard-replay_each handle filter [] h = refl
wildcard-replay_each handle filter ((topic, p) ∷ m) h =
    let rest = wildcard-replay_each handle filter m h.1 in
    elim (Bool-cases (topic_matches_filter topic filter)) [
      | inl matching ↦
          let found : topic_matches_filter p.topic filter ≡ true = rw h.0.0 matching in
          rw (found, matching) (ap (◌∷◌ (replay handle p)) rest)
      | inr apart ↦
          let missed : topic_matches_filter p.topic filter ≡ false = rw h.0.0 apart in
          rw (missed, apart) rest
    ]

plain_apart :
    (topic filter : Str)
    → is_wildcard_filter filter ≡ false
    → list_beq topic filter ≡ false
    → topic_matches_filter topic filter ≡ false
plain_apart topic filter plain other = elim (Bool-cases (list_beq filter topic)) [
  | inl same ↦
      absurd (
        cc (rw other at ((list_beq_iff topic filter).1 (sym ((list_beq_iff filter topic).0 same)))))
  | inr apart ↦ plain_cases topic filter plain ∙ apart
]

plain-absent :
    (handle : QueueHandle) (filter : Str) (m : HashMap Str PublishPacket)
    → is_wildcard_filter filter ≡ false
    → lookup filter m ≡ none
    → replay_each handle (filter_keys (matched_by filter) m) ≡ []
unfolding lookup filter_keys
plain-absent handle filter [] plain absent = refl
plain-absent handle filter ((topic, p) ∷ m) plain absent =
    elim (Bool-cases (list_beq topic filter)) [
      | inl same ↦ absurd (cc (rw same at absent))
      | inr other ↦
          rw (plain_apart topic filter plain other)
            (plain-absent handle filter m plain (rw other at absent))
    ]

exact-replay_each :
    (handle : QueueHandle) (filter : Str) (m : HashMap Str PublishPacket)
    → is_wildcard_filter filter ≡ false
    → Unique m
    → replay_exact handle (lookup filter m) ≡ replay_each handle (filter_keys (matched_by filter) m)
unfolding lookup filter_keys
exact-replay_each handle filter [] plain u = refl
exact-replay_each handle filter ((topic, p) ∷ m) plain u =
    elim (Bool-cases (list_beq topic filter)) [
      | inl same ↦
          let e : topic ≡ filter = (list_beq_iff topic filter).0 same in
          let alone : lookup filter m ≡ none = rw e at u.0 in
          let matching : topic_matches_filter topic filter ≡ true =
            rw e (topic_matches_itself filter) in
          rw (same, matching)
            (ap (◌∷◌ (replay handle p)) (sym (plain-absent handle filter m plain alone)))
      | inr other ↦
          rw (other, plain_apart topic filter plain other)
            (exact-replay_each handle filter m plain u.1)
    ]

-- A registered client that subscribes gets at once, marked as retained, the packet kept for each topic
-- that its filter matches, once, and nothing else, whether its filter has wildcards or is looked up.
pub subscribe_replays :
    (id : ConnectionId) (filter : Str) (client : ClientState) (s : Shard)
    → IsShard s
    → lookup id s.clients ≡ some client
    → (m : HashMap Str PublishPacket) × Unique m
      × ((topic : Str)
          → lookup topic m
            ≡ (if topic_matches_filter topic filter then lookup topic s.retained else none))
      × ((handle (subscribe_to id filter) s).1 ≡ replay_each client.outbound m)
unfolding handle handle_subscribe replay_retained
subscribe_replays id filter client s v found = (
  filter_keys (matched_by filter) s.retained,
  filter_keys-Unique (matched_by filter) s.retained v.retained_unique,
  (λ topic. lookup-filter_keys (matched_by filter) topic s.retained),
  rw found (elim (Bool-cases (is_wildcard_filter filter)) [
    | inl wild ↦ rw wild (wildcard-replay_each client.outbound filter s.retained v.kept)
    | inr plain ↦
        rw plain (exact-replay_each client.outbound filter s.retained plain v.retained_unique)
  ]),
)
