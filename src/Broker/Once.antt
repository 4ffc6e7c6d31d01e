-- ===== src/Broker/Once.antt =====
-- A publish in src/broker.rs reaches each subscriber once.
use blitz_broker.Common.{
  ◌≡◌, refl, sym, ◌∙◌, inl, inr, true, false, ◌&&◌, List, [], ◌∷◌, arith, ◌==◌, ==_iff, Bool-cases,
  Option-cases, nat_eq, contains, list_eq,
}
use blitz_broker.Protocol.Topic.{topic_matches_filter}
use blitz_broker.HashMap.{HashMap, lookup, or_default}
use blitz_broker.Protocol.Packet.{Str, PublishPacket}
use blitz_broker.Broker.{
  is_wildcard_filter, ConnectionId, Shard, Clients, FanOut, notify, notify_exact, notify_others,
  notify_wildcard, fan_out, handle, handle_publish, publish_from,
}
use blitz_broker.Broker.Subscribers.{NoRepeat, append-NoRepeat}
use blitz_broker.Broker.Invariant.{IsShard, or_default-NoRepeat}
use blitz_broker.Broker.Reach.{
  is_registered, is_subscribed, push_each, push_each-append, contains-notify, contains-notify_exact,
  contains-notify_wildcard, two_paths,
}

-- What has been pushed is the packet, once to each that was notified.
record IsFair (clients : Clients) (p : PublishPacket) (f : FanOut) : Type 0 where
  once : NoRepeat f.notified
  pushed : f.sent ≡ push_each p clients f.notified

notify-IsFair :
    (clients : Clients) (p : PublishPacket) (sid : ConnectionId) (f : FanOut)
    → contains f.notified sid ≡ false
    → IsFair clients p f
    → IsFair clients p (notify p sid (lookup sid clients) f)
unfolding notify
notify-IsFair clients p sid f new v = elim (Option-cases (lookup sid clients)) [
  | inl absent ↦ rw absent v
  | inr (client, found) ↦
      let shown = push_each-append p clients f.notified (sid ∷ []) in
      rw found (record {
        once = append-NoRepeat f.notified sid v.once new;
        pushed = rw (shown, v.pushed, found) refl;
      })
]

differ :
    (sid id : ConnectionId) (subs : List ConnectionId)
    → contains subs sid ≡ false
    → contains subs id ≡ true
    → sid == id ≡ false
differ sid id subs unlisted listed = elim (Bool-cases (sid == id)) [
  | inl same ↦ let e : sid ≡ id = (==_iff sid id).0 same in absurd (cc (rw (e, listed) at unlisted))
  | inr other ↦ other
]

notify_exact-IsFair :
    (clients : Clients) (p : PublishPacket) (subs : List ConnectionId) (f : FanOut)
    → NoRepeat subs
    → ((id : ConnectionId) → contains subs id ≡ true → contains f.notified id ≡ false)
    → IsFair clients p f
    → IsFair clients p (notify_exact clients p subs f)
unfolding notify_exact
notify_exact-IsFair clients p [] f h apart v = v
notify_exact-IsFair clients p (sid ∷ subs) f h apart v =
    notify_exact-IsFair clients p subs (notify p sid (lookup sid clients) f) h.1
      (λ id listed.
        contains-notify p sid id (lookup sid clients) f
        ∙ rw (apart id (ground (arith, listed)), differ sid id subs h.0 listed) refl)
      (notify-IsFair clients p sid f (apart sid (rw ((==_iff sid sid).1 refl) refl)) v)

notify_others-IsFair :
    (clients : Clients) (p : PublishPacket) (subs : List ConnectionId) (f : FanOut)
    → IsFair clients p f
    → IsFair clients p (notify_others clients p subs f)
unfolding notify_others
notify_others-IsFair clients p [] f v = v
notify_others-IsFair clients p (sid ∷ subs) f v =
    notify_others-IsFair clients p subs _ (elim (Bool-cases (contains f.notified sid)) [
      | inl held ↦ rw held v
      | inr new ↦ rw new (notify-IsFair clients p sid f new v)
    ])

notify_wildcard-IsFair :
    (clients : Clients) (p : PublishPacket) (topics : HashMap Str (List ConnectionId)) (f : FanOut)
    → IsFair clients p f
    → IsFair clients p (notify_wildcard clients p topics f)
unfolding notify_wildcard
notify_wildcard-IsFair clients p [] f v = v
notify_wildcard-IsFair clients p ((filter, subs) ∷ topics) f v =
    notify_wildcard-IsFair clients p topics _ (elim (Bool-cases (is_wildcard_filter filter)) [
      | inl wild ↦ elim (Bool-cases (topic_matches_filter p.topic filter)) [
        | inl matching ↦ rw (wild, matching) (notify_others-IsFair clients p subs f v)
        | inr apart ↦ rw (wild, apart) v
      ]
      | inr plain ↦ rw plain v
    ])

fan_out-IsFair : (p : PublishPacket) (s : Shard) → IsShard s → IsFair s.clients p (fan_out p s)
unfolding fan_out
fan_out-IsFair p s v = notify_wildcard-IsFair s.clients p s.topics _ (
    notify_exact-IsFair s.clients p (or_default (lookup p.topic s.topics)) _
      (or_default-NoRepeat p.topic s.topics v.entries) (λ id listed. refl)
      (record { once = tt; pushed = refl }))

contains-fan_out :
    (p : PublishPacket) (s : Shard) (id : ConnectionId)
    → IsShard s
    → contains (fan_out p s).notified id
      ≡ (is_subscribed p.topic id s.topics && is_registered id s.clients)
unfolding fan_out
contains-fan_out p s id v =
    contains-notify_wildcard s.clients p id s.topics _
    ∙ rw
        (
          contains-notify_exact s.clients p id (or_default (lookup p.topic s.topics)) _,
          sym (two_paths p.topic id s.topics v.topics_unique),
        )
        (ground arith)

-- On a shard with the invariant, the pushes of a publish are the packet itself, once to each connection of
-- a list without repetition; the list holds a connection exactly if that is registered and subscribed to
-- some filter, exact or with wildcards, that matches the topic of the packet.
pub publish_reaches_once :
    (from : ConnectionId) (p : PublishPacket) (s : Shard)
    → IsShard s
    → (ids : List ConnectionId) × NoRepeat ids
      × ((id : ConnectionId)
          → contains ids id ≡ (is_subscribed p.topic id s.topics && is_registered id s.clients))
      × ((handle (publish_from from p) s).1 ≡ push_each p s.clients ids)
unfolding handle handle_publish
publish_reaches_once from p s v =
    let fair = fan_out-IsFair p s v in
    ((fan_out p s).notified, fair.once, (λ id. contains-fan_out p s id v), fair.pushed)
