-- ===== src/Broker/Reach.antt =====
-- The fan-out of a publish in src/broker.rs, over one shard: which connections it reaches.
use blitz_broker.Common.{
  list_beq, list_beq_iff, sym, if◌then◌else◌, ◌≡◌, refl, ap, ◌∙◌, inl, inr, Bool, true, false, ◌&&◌,
  ◌||◌, Option, none, some, List, [], ◌∷◌, ◌++◌, append_assoc, arith, ◌==◌, ==_iff, Bool-cases,
  nat_eq, contains, list_eq,
}
use blitz_broker.HashMap.{HashMap, lookup, or_default, Unique}
use blitz_broker.Protocol.Packet.{Str, PublishPacket, publish}
use blitz_broker.Protocol.Topic.{plus, hash, topic_matches_filter}
use blitz_broker.Broker.{
  is_wildcard_filter, ConnectionId, packet_event, ClientState, Delivery, Clients, FanOut, notify,
  notify_exact, notify_others, notify_wildcard,
}
use blitz_broker.Broker.Subscribers.{contains-append}
use blitz_broker.Protocol.Topic.Matching.{topic_matches_itself, plain_filter_matches}

abbrev is_some {ℓ} : {A : Type ℓ} → Option A → Bool
is_some none = false
is_some (some a) = true

abbrev pub is_registered : ConnectionId → Clients → Bool
is_registered id clients = is_some (lookup id clients)

-- Whether some filter that matches the topic has the connection among its subscribers.
abbrev pub is_subscribed : Str → ConnectionId → HashMap Str (List ConnectionId) → Bool
is_subscribed topic id [] = false
is_subscribed topic id ((filter, subs) ∷ topics) =
    topic_matches_filter topic filter && contains subs id || is_subscribed topic id topics

abbrev push_to : PublishPacket → Option ClientState → List Delivery
push_to p none = []
push_to p (some client) = (client.outbound, packet_event (publish p)) ∷ []

-- The packet, once for each of the connections, in order.
abbrev pub push_each : PublishPacket → Clients → List ConnectionId → List Delivery
push_each p clients [] = []
push_each p clients (id ∷ ids) = push_to p (lookup id clients) ++ push_each p clients ids

pub push_each-append :
    (p : PublishPacket) (clients : Clients) (ids more : List ConnectionId)
    → push_each p clients (ids ++ more) ≡ push_each p clients ids ++ push_each p clients more
push_each-append p clients [] more = refl
push_each-append p clients (id ∷ ids) more =
    rw (push_each-append p clients ids more, append_assoc) refl

-- Those of the subscriptions that the wildcard pass looks at.
abbrev by_wildcard : Str → ConnectionId → HashMap Str (List ConnectionId) → Bool
by_wildcard topic id [] = false
by_wildcard topic id ((filter, subs) ∷ topics) =
    is_wildcard_filter filter && topic_matches_filter topic filter && contains subs id
    || by_wildcard topic id topics

pub contains-notify :
    (p : PublishPacket) (sid id : ConnectionId) (found : Option ClientState) (f : FanOut)
    → contains (notify p sid found f).notified id
      ≡ (contains f.notified id || sid == id && is_some found)
unfolding notify
contains-notify p sid id none f = ground arith
contains-notify p sid id (some client) f =
    rw (contains-append f.notified (sid ∷ []) id) (ground arith)

same_registered :
    (clients : Clients) (sid id : ConnectionId)
    → (sid == id && is_registered sid clients) ≡ (sid == id && is_registered id clients)
same_registered clients sid id = elim (Bool-cases (sid == id)) [
  | inl same ↦ let e : sid ≡ id = (==_iff sid id).0 same in rw e refl
  | inr other ↦ rw other refl
]

-- What one more subscriber adds to a loop that ends with the formula of the loops below.
one_more :
    (clients : Clients) (sid id : ConnectionId) (before after : Bool)
    → (before || sid == id && is_registered sid clients || after && is_registered id clients)
      ≡ (before || (sid == id || after) && is_registered id clients)
one_more clients sid id before after = rw (same_registered clients sid id) (ground arith)

pub contains-notify_exact :
    (clients : Clients) (p : PublishPacket) (id : ConnectionId) (subs : List ConnectionId)
    (f : FanOut)
    → contains (notify_exact clients p subs f).notified id
      ≡ (contains f.notified id || contains subs id && is_registered id clients)
unfolding notify_exact
contains-notify_exact clients p id [] f = ground arith
contains-notify_exact clients p id (sid ∷ subs) f =
    contains-notify_exact clients p id subs (notify p sid (lookup sid clients) f)
    ∙ ap (λ b. b || contains subs id && is_registered id clients)
        (contains-notify p sid id (lookup sid clients) f)
    ∙ one_more clients sid id (contains f.notified id) (contains subs id)

already :
    (notified : List ConnectionId) (sid id : ConnectionId) (after registered : Bool)
    → contains notified sid ≡ true
    → (contains notified id || after && registered)
      ≡ (contains notified id || (sid == id || after) && registered)
already notified sid id after registered held = elim (Bool-cases (sid == id)) [
  | inl same ↦
      let e : sid ≡ id = (==_iff sid id).0 same in
      let there : contains notified id ≡ true = rw e at held in rw there refl
  | inr other ↦ rw other refl
]

contains-notify_others :
    (clients : Clients) (p : PublishPacket) (id : ConnectionId) (subs : List ConnectionId)
    (f : FanOut)
    → contains (notify_others clients p subs f).notified id
      ≡ (contains f.notified id || contains subs id && is_registered id clients)
unfolding notify_others
contains-notify_others clients p id [] f = ground arith
contains-notify_others clients p id (sid ∷ subs) f =
    let new_one = notify p sid (lookup sid clients) f in
    elim (Bool-cases (contains f.notified sid)) [
      | inl held ↦
          ap (λ b. contains (notify_others clients p subs (if b then f else new_one)).notified id)
            held
          ∙ contains-notify_others clients p id subs f
          ∙ already f.notified sid id (contains subs id) _ held
      | inr new ↦
          ap (λ b. contains (notify_others clients p subs (if b then f else new_one)).notified id)
            new
          ∙ contains-notify_others clients p id subs new_one
          ∙ ap (λ b. b || contains subs id && is_registered id clients)
              (contains-notify p sid id (lookup sid clients) f)
          ∙ one_more clients sid id (contains f.notified id) (contains subs id)
    ]

pub contains-notify_wildcard :
    (clients : Clients) (p : PublishPacket) (id : ConnectionId)
    (topics : HashMap Str (List ConnectionId)) (f : FanOut)
    → contains (notify_wildcard clients p topics f).notified id
      ≡ (contains f.notified id || by_wildcard p.topic id topics && is_registered id clients)
unfolding notify_wildcard
contains-notify_wildcard clients p id [] f = ground arith
contains-notify_wildcard clients p id ((filter, subs) ∷ topics) f =
    contains-notify_wildcard clients p id topics _ ∙ elim (Bool-cases (is_wildcard_filter filter)) [
      | inl wild ↦ elim (Bool-cases (topic_matches_filter p.topic filter)) [
        | inl matching ↦
            rw (wild, matching, contains-notify_others clients p id subs f) (ground arith)
        | inr apart ↦ rw (wild, apart) refl
      ]
      | inr plain ↦ rw plain refl
    ]

-- A filter with no wildcard character matches the topic that it spells.
pub plain_cases :
    (topic filter : Str)
    → is_wildcard_filter filter ≡ false
    → topic_matches_filter topic filter ≡ list_beq filter topic
unfolding is_wildcard_filter
plain_cases topic filter plain =
    let no_plus : contains filter plus ≡ false = ground arith in
    let no_hash : contains filter hash ≡ false = ground arith in
    let rule = plain_filter_matches topic filter no_plus no_hash in
    elim (Bool-cases (list_beq filter topic)) [
      | inl same ↦ rw same (rule.1 (sym ((list_beq_iff filter topic).0 same)))
      | inr other ↦ elim (Bool-cases (topic_matches_filter topic filter)) [
        | inl matching ↦
            absurd (cc (rw (other) at ((list_beq_iff filter topic).1 (sym (rule.0 matching)))))
        | inr apart ↦ rw (other, apart) refl
      ]
    ]

-- The two paths together look at every filter that matches.
pub two_paths :
    (topic : Str) (id : ConnectionId) (topics : HashMap Str (List ConnectionId))
    → Unique topics
    → (contains (or_default (lookup topic topics)) id || by_wildcard topic id topics)
      ≡ is_subscribed topic id topics
unfolding lookup or_default
two_paths topic id [] u = refl
two_paths topic id ((filter, subs) ∷ topics) u =
    let rest = two_paths topic id topics u.1 in
    elim (Bool-cases (list_beq filter topic)) [
      | inl same ↦
          let e : filter ≡ topic = (list_beq_iff filter topic).0 same in
          let alone : lookup topic topics ≡ none = rw e at u.0 in
          let matching : topic_matches_filter topic filter ≡ true =
            rw e (topic_matches_itself topic) in
          let rest_alone : by_wildcard topic id topics ≡ is_subscribed topic id topics =
            rw alone at rest in
          rw (same, matching, rest_alone) (ground arith)
      | inr other ↦ elim (Bool-cases (is_wildcard_filter filter)) [
        | inl wild ↦ rw (other, wild, sym rest) (ground arith)
        | inr plain ↦ rw (other, plain, plain_cases topic filter plain, other) rest
      ]
    ]
