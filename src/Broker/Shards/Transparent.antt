-- ===== src/Broker/Shards/Transparent.antt =====
-- The shards of src/broker.rs together do what one broker would: each holds its part of the single
-- broker's state, and the owner of a topic pushes what the single broker would push.
use blitz_broker.Common.{
  ℕ, ◌≡◌, refl, sym, ap, ◌∙◌, inl, inr, Bool, true, false, ◌||◌, Option, none, some, List, [], ◌∷◌,
  arith, ◌==◌, if◌then◌else◌, Bool-cases, Option-cases, nat_eq, list_beq, list_eq,
}
use blitz_broker.HashMap.{HashMap, lookup, insert, or_default}
use blitz_broker.HashMap.Filter.{
  filter_keys-remove_other, filter_keys, lookup-filter_keys, filter_keys-insert, filter_keys-remove,
}
use blitz_broker.Protocol.Packet.{Str, PublishPacket}
use blitz_broker.Broker.{
  ClientState, replay_retained, is_wildcard_filter, ConnectionId, Clients, BrokerMessage,
  register_client, subscribe_to, unsubscribe_from, publish_from, disconnect_client, Shard,
  new_shard, FanOut, unsubscribe_entry, drop_everywhere, drop_subscriber, add_subscriber,
  update_retained, handle_subscribe, handle_unsubscribe, handle_publish, handle_disconnect, handle,
  run_broker, notify_wildcard, fan_out,
}
use blitz_broker.Broker.Shards.{shard_for_topic}

-- The messages that pass a test.
abbrev pub select : (BrokerMessage → Bool) → List BrokerMessage → List BrokerMessage
select p [] = []
select p (msg ∷ messages) = let rest = select p messages in if p msg then msg ∷ rest else rest

module _ (hasher : Str → ℕ) (n i : ℕ) where
  abbrev pub owns : Str → Bool
  owns topic = shard_for_topic hasher topic n == i

  abbrev pub holds : Str → Bool
  holds filter = is_wildcard_filter filter || owns filter

  -- Whether the message concerns shard `i` of `n`.
  abbrev pub concerns : BrokerMessage → Bool
  concerns (subscribe_to id filter) = holds filter
  concerns (unsubscribe_from id filter) = holds filter
  concerns (publish_from from p) = owns p.topic
  concerns (register_client id client_id outbound) = true
  concerns (disconnect_client id) = true

  -- The part of the single broker's state that shard `i` keeps: every client, the filters with wildcards
  -- and those that it owns, and the retained packets of the topics that it owns.
  unfoldable pub part : Shard → Shard
  part s = record {
    clients = s.clients;
    topics = filter_keys holds s.topics;
    retained = filter_keys owns s.retained;
  }

  held_lookup :
      (filter : Str) (m : HashMap Str (List ConnectionId))
      → holds filter ≡ true
      → lookup filter (filter_keys holds m) ≡ lookup filter m
  held_lookup filter m h = lookup-filter_keys holds filter m ∙ rw h refl

  topics-subscribe :
      (id : ConnectionId) (filter : Str) (m : HashMap Str (List ConnectionId))
      → filter_keys holds (insert filter (add_subscriber id (or_default (lookup filter m))) m) ≡ (
          if holds filter
          then insert filter
              (add_subscriber id (or_default (lookup filter (filter_keys holds m))))
              (filter_keys holds m)
          else filter_keys holds m)
  topics-subscribe id filter m =
      filter_keys-insert holds filter _ m ∙ elim (Bool-cases (holds filter)) [
        | inl held ↦ rw (held, held_lookup filter m held) refl
        | inr other ↦ rw other refl
      ]

  topics-unsubscribe :
      (id : ConnectionId) (filter : Str) (m : HashMap Str (List ConnectionId))
      → filter_keys holds (unsubscribe_entry id filter m (lookup filter m)) ≡ (
          if holds filter
          then unsubscribe_entry id filter
              (filter_keys holds m)
              (lookup filter (filter_keys holds m))
          else filter_keys holds m)
  topics-unsubscribe id filter m = elim (Option-cases (lookup filter m)) [
    | inl absent ↦ elim (Bool-cases (holds filter)) [
      | inl held ↦ rw (held, held_lookup filter m held, absent) refl
      | inr other ↦ rw (other, absent) refl
    ]
    | inr (subs, found) ↦ elim (Bool-cases (holds filter)) [
      | inl held ↦
          rw (held, held_lookup filter m held, found)
            (filter_keys-insert holds filter _ m ∙ rw held refl)
      | inr other ↦ rw (other, found) (filter_keys-insert holds filter _ m ∙ rw other refl)
    ]
  ]

  topics-disconnect :
      (id : ConnectionId) (m : HashMap Str (List ConnectionId))
      → filter_keys holds (drop_everywhere id m) ≡ drop_everywhere id (filter_keys holds m)
  unfolding filter_keys
  topics-disconnect id [] = refl
  topics-disconnect id ((filter, subs) ∷ m) = elim (Bool-cases (holds filter)) [
    | inl held ↦ rw held (ap (◌∷◌ (filter, drop_subscriber id subs)) (topics-disconnect id m))
    | inr other ↦ rw other (topics-disconnect id m)
  ]

  retained-publish :
      (p : PublishPacket) (m : HashMap Str PublishPacket)
      → filter_keys owns (update_retained p m)
        ≡ (if owns p.topic then update_retained p (filter_keys owns m) else filter_keys owns m)
  unfolding update_retained
  retained-publish p m = elim (Bool-cases p.retain) [
    | inl kept ↦ elim (Bool-cases (list_beq p.payload [])) [
      | inl clears ↦ elim (Bool-cases (owns p.topic)) [
        | inl own ↦ rw (own, kept, clears) (filter_keys-remove owns p.topic m)
        | inr other ↦ rw (other, kept, clears) (filter_keys-remove_other owns p.topic m other)
      ]
      | inr stores ↦ elim (Bool-cases (owns p.topic)) [
        | inl own ↦ rw (own, kept, stores) (filter_keys-insert owns p.topic _ m ∙ rw own refl)
        | inr other ↦ rw (other, kept, stores) (filter_keys-insert owns p.topic _ m ∙ rw other refl)
      ]
    ]
    | inr live ↦ elim (Bool-cases (owns p.topic)) [
      | inl own ↦ rw (own, live) refl
      | inr other ↦ rw (other, live) refl
    ]
  ]

  -- The wildcard pass looks at no filter that the shard does not hold.
  wildcard-part :
      (clients : Clients) (p : PublishPacket) (topics : HashMap Str (List ConnectionId))
      (f : FanOut)
      → notify_wildcard clients p (filter_keys holds topics) f ≡ notify_wildcard clients p topics f
  unfolding filter_keys notify_wildcard
  wildcard-part clients p [] f = refl
  wildcard-part clients p ((filter, subs) ∷ topics) f = elim (Bool-cases (holds filter)) [
    | inl held ↦ rw held (wildcard-part clients p topics _)
    | inr other ↦
        let plain : is_wildcard_filter filter ≡ false = ground arith in
        rw other (wildcard-part clients p topics f ∙ rw plain refl)
  ]

  pub fan_out-part :
      (p : PublishPacket) (s : Shard) → owns p.topic ≡ true → fan_out p (part s) ≡ fan_out p s
  unfolding fan_out part
  fan_out-part p s own =
      wildcard-part s.clients p s.topics _ ∙ rw (held_lookup p.topic s.topics (ground arith)) refl

  part-subscribe :
      (id : ConnectionId) (filter : Str) (s : Shard)
      → part (handle_subscribe id filter s).0
        ≡ (if holds filter then (handle_subscribe id filter (part s)).0 else part s)
  unfolding part handle_subscribe
  part-subscribe id filter s = elim (Bool-cases (holds filter)) [
    | inl held ↦ rw held (rw (topics-subscribe id filter s.topics, held) refl)
    | inr other ↦ rw other (rw (topics-subscribe id filter s.topics, other) refl)
  ]

  part-unsubscribe :
      (id : ConnectionId) (filter : Str) (s : Shard)
      → part (handle_unsubscribe id filter s)
        ≡ (if holds filter then handle_unsubscribe id filter (part s) else part s)
  unfolding part handle_unsubscribe
  part-unsubscribe id filter s = elim (Bool-cases (holds filter)) [
    | inl held ↦ rw held (rw (topics-unsubscribe id filter s.topics, held) refl)
    | inr other ↦ rw other (rw (topics-unsubscribe id filter s.topics, other) refl)
  ]

  part-publish :
      (p : PublishPacket) (s : Shard)
      → part (handle_publish p s).0
        ≡ (if owns p.topic then (handle_publish p (part s)).0 else part s)
  unfolding part handle_publish
  part-publish p s = elim (Bool-cases (owns p.topic)) [
    | inl own ↦ rw own (rw (retained-publish p s.retained, own) refl)
    | inr other ↦ rw other (rw (retained-publish p s.retained, other) refl)
  ]

  -- A message leaves shard `i` the part of what it leaves the single broker, if the shard gets the message
  -- whenever it concerns the shard, and only then.
  pub part-handle :
      (msg : BrokerMessage) (s : Shard)
      → part (handle msg s).0 ≡ (if concerns msg then (handle msg (part s)).0 else part s)
  unfolding handle
  part-handle (register_client id client_id outbound) s = unfold part in refl
  part-handle (subscribe_to id filter) s = part-subscribe id filter s
  part-handle (unsubscribe_from id filter) s = part-unsubscribe id filter s
  part-handle (publish_from from p) s = part-publish p s
  part-handle (disconnect_client id) s =
      unfold part in unfold handle_disconnect in rw (topics-disconnect id s.topics) refl

  -- A shard that holds its part of the single broker's state, and gets those of any messages that concern
  -- it, holds its part of what all the messages leave the single broker.
  pub part-run_broker :
      (messages : List BrokerMessage) (s : Shard)
      → (run_broker (select concerns messages) (part s)).0 ≡ part (run_broker messages s).0
  unfolding run_broker
  part-run_broker [] s = refl
  part-run_broker (msg ∷ messages) s = elim (Bool-cases (concerns msg)) [
    | inl mine ↦
        let step : part (handle msg s).0 ≡ (handle msg (part s)).0 =
          part-handle msg s ∙ rw mine refl in
        rw mine (
          ap (λ t. (run_broker (select concerns messages) t).0) (sym step)
          ∙ part-run_broker messages (handle msg s).0)
    | inr other ↦
        let step : part (handle msg s).0 ≡ part s = part-handle msg s ∙ rw other refl in
        rw other (
          ap (λ t. (run_broker (select concerns messages) t).0) (sym step)
          ∙ part-run_broker messages (handle msg s).0)
  ]

  pub part-new_shard : part new_shard ≡ new_shard
  unfolding part new_shard filter_keys
  part-new_shard = refl

  shard_state :
      (messages : List BrokerMessage)
      → (run_broker (select concerns messages) new_shard).0 ≡ part (run_broker messages new_shard).0
  shard_state messages =
      ap (λ s. (run_broker (select concerns messages) s).0) (sym part-new_shard)
      ∙ part-run_broker messages new_shard

  -- After any messages, shard `i`, which gets those that concern it, pushes for a publish on a topic that it
  -- owns what a single broker that gets all of them pushes, to the same connections; and in the same order,
  -- the entries of a map being in the order of their insertion.
  pub owner_publishes :
      (messages : List BrokerMessage) (from : ConnectionId) (p : PublishPacket)
      → owns p.topic ≡ true
      → (handle (publish_from from p) (run_broker (select concerns messages) new_shard).0).1
        ≡ (handle (publish_from from p) (run_broker messages new_shard).0).1
  unfolding handle handle_publish
  owner_publishes messages from p own =
      rw (shard_state messages, fan_out-part p (run_broker messages new_shard).0 own) refl

  replay-part :
      (filter : Str)
      → owns filter ≡ true
      → is_wildcard_filter filter ≡ false
      → (s : Shard) (client : Option ClientState)
      → replay_retained filter (filter_keys owns s.retained) client
        ≡ replay_retained filter s.retained client
  unfolding replay_retained
  replay-part filter own plain s none = refl
  replay-part filter own plain s (some client) =
      rw (plain, lookup-filter_keys owns filter s.retained, own) refl

  -- After any messages, shard `i` replays to a subscriber of a filter without wildcards that it owns what a
  -- single broker that gets all the messages replays.
  owner_replays :
      (messages : List BrokerMessage) (id : ConnectionId) (filter : Str)
      → owns filter ≡ true
      → is_wildcard_filter filter ≡ false
      → (handle (subscribe_to id filter) (run_broker (select concerns messages) new_shard).0).1
        ≡ (handle (subscribe_to id filter) (run_broker messages new_shard).0).1
  unfolding handle handle_subscribe part
  owner_replays messages id filter own plain =
      rw (shard_state messages) (replay-part filter own plain (run_broker messages new_shard).0 _)
