-- ===== src/Broker/Spec.antt =====
-- What a shard of src/broker.rs promises, with no maps and no lists: who is connected, who subscribes to
-- which filter, and which packet is retained for which topic, as functions.
use blitz_broker.Common.{
  ℕ, ◌≡◌, refl, sym, ap, ◌∙◌, inl, inr, Bool, not, ◌&&◌, ◌||◌, Option, none, some, List, [], ◌∷◌,
  arith, ◌==◌, if◌then◌else◌, Bool-cases, Option-cases, nat_eq, list_beq, list_beq_iff, contains,
  list_eq,
}
use blitz_broker.HashMap.{HashMap, lookup, insert, or_default, lookup-insert, lookup-remove}
use blitz_broker.Protocol.Packet.{Str, PublishPacket}
use blitz_broker.Broker.{
  unsubscribe_entry, ConnectionId, ClientState, BrokerMessage, register_client, subscribe_to,
  unsubscribe_from, publish_from, disconnect_client, Shard, add_subscriber, drop_everywhere,
  update_retained, handle_subscribe, handle_unsubscribe, handle_publish, handle_disconnect, handle,
  run_broker,
}
use blitz_broker.Broker.Subscribers.{contains-add_subscriber, contains-drop_subscriber}

pub record View : Type 0 where
  pub connected : ConnectionId → Option ClientState
  pub subscribed : Str → ConnectionId → Bool
  pub stored : Str → Option PublishPacket

unfoldable pub view : Shard → View
view s = record {
  connected = λ id. lookup id s.clients;
  subscribed = λ filter id. contains (or_default (lookup filter s.topics)) id;
  stored = λ topic. lookup topic s.retained;
}

-- One message, on the view.
unfoldable pub view_step : BrokerMessage → View → View
view_step (register_client id client_id outbound) v = record v {
  connected = λ other.
      if id == other
      then some (record { client_id = client_id; outbound = outbound })
      else v.connected other;
}
view_step (subscribe_to id filter) v = record v {
  subscribed = λ other sid. v.subscribed other sid || list_beq filter other && id == sid;
}
view_step (unsubscribe_from id filter) v = record v {
  subscribed = λ other sid. v.subscribed other sid && not (list_beq filter other && id == sid);
}
view_step (publish_from from p) v = record v {
  stored = λ topic.
      if p.retain && list_beq p.topic topic
      then (if list_beq p.payload [] then none else some p)
      else v.stored topic;
}
view_step (disconnect_client id) v = record v {
  connected = λ other. if id == other then none else v.connected other;
  subscribed = λ filter sid. v.subscribed filter sid && not (id == sid);
}

unfoldable pub view_run : List BrokerMessage → View → View
view_run [] v = v
view_run (msg ∷ messages) v = view_run messages (view_step msg v)

record Same (v w : View) : Type 0 where
  connected_same : (id : ConnectionId) → v.connected id ≡ w.connected id
  subscribed_same :
      (filter : Str) (id : ConnectionId) → v.subscribed filter id ≡ w.subscribed filter id
  stored_same : (topic : Str) → v.stored topic ≡ w.stored topic

Same-path : {v w : View} → Same v w → v ≡ w
Same-path h = λ i. record {
  connected = λ id. h.connected_same id i;
  subscribed = λ filter id. h.subscribed_same filter id i;
  stored = λ topic. h.stored_same topic i;
}

subscribers-add :
    (id : ConnectionId) (filter other : Str) (sid : ConnectionId)
    (topics : HashMap Str (List ConnectionId))
    → contains
        (or_default (
          lookup other
            (insert filter (add_subscriber id (or_default (lookup filter topics))) topics)))
        sid
      ≡ (contains (or_default (lookup other topics)) sid || list_beq filter other && id == sid)
unfolding or_default
subscribers-add id filter other sid topics = elim (Bool-cases (list_beq filter other)) [
  | inl same ↦
      let e : filter ≡ other = (list_beq_iff filter other).0 same in
      rw (lookup-insert filter other _ topics, same, e) (contains-add_subscriber id sid _)
  | inr apart ↦ rw (lookup-insert filter other _ topics, apart) (ground arith)
]

subscribers-drop :
    (id : ConnectionId) (filter other : Str) (sid : ConnectionId)
    (topics : HashMap Str (List ConnectionId))
    → contains
        (or_default (lookup other (unsubscribe_entry id filter topics (lookup filter topics))))
        sid
      ≡ (contains (or_default (lookup other topics)) sid
          && not (list_beq filter other && id == sid))
unfolding or_default
subscribers-drop id filter other sid topics = elim (Bool-cases (list_beq filter other)) [
  | inl same ↦
      let e : filter ≡ other = (list_beq_iff filter other).0 same in
      elim (Option-cases (lookup filter topics)) [
        | inl absent ↦ rw absent (rw (sym e, absent) refl)
        | inr (subs, found) ↦ rw found (
            rw (lookup-insert filter other _ topics, same, sym e, found)
              (contains-drop_subscriber id sid subs))
      ]
  | inr apart ↦ elim (Option-cases (lookup filter topics)) [
    | inl absent ↦ rw (absent, apart) (ground arith)
    | inr (subs, found) ↦ rw found (rw (lookup-insert filter other _ topics, apart) (ground arith))
  ]
]

subscribers-drop_everywhere :
    (id : ConnectionId) (filter : Str) (sid : ConnectionId)
    (topics : HashMap Str (List ConnectionId))
    → contains (or_default (lookup filter (drop_everywhere id topics))) sid
      ≡ (contains (or_default (lookup filter topics)) sid && not (id == sid))
unfolding or_default lookup
subscribers-drop_everywhere id filter sid [] = refl
subscribers-drop_everywhere id filter sid ((other, subs) ∷ topics) =
    elim (Bool-cases (list_beq other filter)) [
      | inl same ↦ rw same (contains-drop_subscriber id sid subs)
      | inr apart ↦ rw apart (subscribers-drop_everywhere id filter sid topics)
    ]

stored-update :
    (p : PublishPacket) (topic : Str) (m : HashMap Str PublishPacket)
    → lookup topic (update_retained p m) ≡ (
        if p.retain && list_beq p.topic topic
        then (if list_beq p.payload [] then none else some p)
        else lookup topic m)
unfolding update_retained
stored-update p topic m = elim (Bool-cases p.retain) [
  | inl kept ↦ elim (Bool-cases (list_beq p.payload [])) [
    | inl clears ↦ rw (kept, clears) (lookup-remove p.topic topic m)
    | inr stores ↦ rw (kept, stores) (lookup-insert p.topic topic _ m)
  ]
  | inr live ↦ rw live refl
]

subscribe-Same :
    (id : ConnectionId) (filter : Str) (s : Shard)
    → Same (view (handle_subscribe id filter s).0) (view_step (subscribe_to id filter) (view s))
unfolding view view_step handle_subscribe
subscribe-Same id filter s = record {
  connected_same = λ other. refl;
  subscribed_same = λ other sid. subscribers-add id filter other sid s.topics;
  stored_same = λ topic. refl;
}

unsubscribe-Same :
    (id : ConnectionId) (filter : Str) (s : Shard)
    → Same (view (handle_unsubscribe id filter s)) (view_step (unsubscribe_from id filter) (view s))
unfolding view view_step handle_unsubscribe
unsubscribe-Same id filter s = record {
  connected_same = λ other. refl;
  subscribed_same = λ other sid. subscribers-drop id filter other sid s.topics;
  stored_same = λ topic. refl;
}

publish-Same :
    (from : ConnectionId) (p : PublishPacket) (s : Shard)
    → Same (view (handle_publish p s).0) (view_step (publish_from from p) (view s))
unfolding view view_step handle_publish update_retained
publish-Same from p s = record {
  connected_same = λ other. refl;
  subscribed_same = λ other sid. refl;
  stored_same = λ topic. stored-update p topic s.retained;
}

disconnect-Same :
    (id : ConnectionId) (s : Shard)
    → Same (view (handle_disconnect id s)) (view_step (disconnect_client id) (view s))
unfolding view view_step handle_disconnect
disconnect-Same id s = record {
  connected_same = λ other. lookup-remove id other s.clients;
  subscribed_same = λ other sid. subscribers-drop_everywhere id other sid s.topics;
  stored_same = λ topic. refl;
}

register-Same :
    (id : ConnectionId) (client_id : Str) (outbound : ℕ) (s : Shard)
    → Same
        (view (handle (register_client id client_id outbound) s).0)
        (view_step (register_client id client_id outbound) (view s))
unfolding view view_step handle
register-Same id client_id outbound s = record {
  connected_same = λ other. lookup-insert id other _ s.clients;
  subscribed_same = λ other sid. refl;
  stored_same = λ topic. refl;
}

-- One message changes the maps of a shard as the specification says: who is connected, who subscribes to
-- which filter, and which packet is retained, each after a message as a function of the same before it.
view-handle : (msg : BrokerMessage) (s : Shard) → view (handle msg s).0 ≡ view_step msg (view s)
unfolding handle
view-handle (register_client id client_id outbound) s =
    Same-path (register-Same id client_id outbound s)
view-handle (subscribe_to id filter) s = Same-path (subscribe-Same id filter s)
view-handle (unsubscribe_from id filter) s = Same-path (unsubscribe-Same id filter s)
view-handle (publish_from from p) s = Same-path (publish-Same from p s)
view-handle (disconnect_client id) s = Same-path (disconnect-Same id s)

-- Any sequence of messages leaves a shard with the view that the specification computes from its first.
pub view-run_broker :
    (messages : List BrokerMessage) (s : Shard)
    → view (run_broker messages s).0 ≡ view_run messages (view s)
unfolding run_broker view_run
view-run_broker [] s = refl
view-run_broker (msg ∷ messages) s =
    view-run_broker messages (handle msg s).0 ∙ ap (view_run messages) (view-handle msg s)
