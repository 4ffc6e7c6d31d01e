-- ===== src/Broker/Shards/Senders.antt =====
-- `ShardedBroker::send` of src/broker.rs, called by the threads of several connections at once. A call is not
-- one step: a broadcast sends to one channel after another, and other threads may send in between. Every
-- channel is open.
pub mod Order
use blitz_broker.Common.{
  ℕ, zero, suc, ◌+◌, ◌≤◌, ◌<◌, ◌≡◌, refl, ap, ◌∙◌, ◌≢◌, inl, inr, false, ◌&&◌, List, [], ◌∷◌, ◌++◌,
  arith, ◌==◌, if◌then◌else◌, ==_iff, Bool-cases, nat_eq, list_eq,
}
use blitz_broker.Protocol.Packet.{Str}
use blitz_broker.Broker.{
  BrokerMessage, is_wildcard_filter, register_client, subscribe_to, unsubscribe_from, publish_from,
  disconnect_client,
}
use blitz_broker.Broker.Shards.{Routing, single_shard, broadcast, routing}
use blitz_broker.Broker.Shards.Transparent.{select, concerns}

-- One `Sender::send`: the index of the channel, and the message.
abbrev pub Sending : Type 0
Sending = ℕ × BrokerMessage

-- The loops of the broadcast, from one shard on.
unfoldable pub each_shard : ℕ → ℕ → BrokerMessage → List Sending
each_shard shard zero msg = []
each_shard shard (suc count) msg = (shard, msg) ∷ each_shard (suc shard) count msg

unfoldable pub sends_by : Routing → ℕ → BrokerMessage → List Sending
sends_by (single_shard shard) n msg = (shard, msg) ∷ []
sends_by broadcast n msg = each_shard 0 n msg

-- The single sends of a thread that calls `send` with one message after another, on `n` shards.
unfoldable pub sends_of : (Str → ℕ) → ℕ → List BrokerMessage → List Sending
sends_of hasher n [] = []
sends_of hasher n (msg ∷ messages) =
    sends_by (routing hasher n msg) n msg ++ sends_of hasher n messages

-- What each thread has yet to send, and what was sent so far, by which thread, in the order of the sends.
pub record Bus : Type 0 where
  pub to_send : ℕ → List Sending
  pub log : List (ℕ × Sending)

abbrev pub send_first : ℕ → List Sending → Bus → Bus
send_first thread [] bus = bus
send_first thread (sending ∷ rest) bus = record {
  to_send = λ other. if thread == other then rest else bus.to_send other;
  log = bus.log ++ ((thread, sending) ∷ []);
}

-- Threads make their next sends in some order; one that has none left does nothing.
unfoldable pub run_sends : List ℕ → Bus → Bus
run_sends [] bus = bus
run_sends (thread ∷ threads) bus = run_sends threads (send_first thread (bus.to_send thread) bus)

abbrev pub start_sends : (Str → ℕ) → ℕ → (ℕ → List BrokerMessage) → Bus
start_sends hasher n messages = record {
  to_send = λ thread. sends_of hasher n (messages thread);
  log = [];
}

-- The messages for a shard among some sends.
abbrev pub sent_to : ℕ → List Sending → List BrokerMessage
sent_to shard [] = []
sent_to shard ((k, msg) ∷ sendings) =
    let rest = sent_to shard sendings in if k == shard then msg ∷ rest else rest

-- The messages of one thread in the channel of a shard, in their order there.
abbrev pub arrived : ℕ → ℕ → List (ℕ × Sending) → List BrokerMessage
arrived shard thread [] = []
arrived shard thread ((from, (k, msg)) ∷ log) =
    let rest = arrived shard thread log in if from == thread && k == shard then msg ∷ rest else rest

sent_to-append :
    (shard : ℕ) (a b : List Sending) → sent_to shard (a ++ b) ≡ sent_to shard a ++ sent_to shard b
sent_to-append shard [] b = refl
sent_to-append shard ((k, msg) ∷ a) b = elim (Bool-cases (k == shard)) [
  | inl here ↦ rw here (ap (λ rest. msg ∷ rest) (sent_to-append shard a b))
  | inr other ↦ rw other (sent_to-append shard a b)
]

pub arrived-append :
    (shard thread : ℕ) (a b : List (ℕ × Sending))
    → arrived shard thread (a ++ b) ≡ arrived shard thread a ++ arrived shard thread b
arrived-append shard thread [] b = refl
arrived-append shard thread ((from, (k, msg)) ∷ a) b =
    elim (Bool-cases (from == thread && k == shard)) [
      | inl here ↦ rw here (ap (λ rest. msg ∷ rest) (arrived-append shard thread a b))
      | inr other ↦ rw other (arrived-append shard thread a b)
    ]

each_shard-later :
    (shard from count : ℕ) (msg : BrokerMessage)
    → shard < from
    → sent_to shard (each_shard from count msg) ≡ []
unfolding each_shard
each_shard-later shard from zero msg h = refl
each_shard-later shard from (suc count) msg h =
    let other : (from == shard) ≡ false = ground (arith, ==_iff from shard) in
    rw other (each_shard-later shard (suc from) count msg (omega arith))

each_shard-once :
    (shard from count : ℕ) (msg : BrokerMessage)
    → from ≤ shard
    → shard < from + count
    → sent_to shard (each_shard from count msg) ≡ msg ∷ []
unfolding each_shard
each_shard-once shard from zero msg h k = absurd (omega arith)
each_shard-once shard from (suc count) msg h k = elim (Bool-cases (from == shard)) [
  | inl here ↦
      let same : from ≡ shard = (==_iff from shard).0 here in
      rw here (
        ap (λ rest. msg ∷ rest) (each_shard-later shard (suc from) count msg (omega (arith, same))))
  | inr other ↦
      let apart : from ≢ shard = λ e. cc (rw other at ((==_iff from shard).1 e)) in
      rw other (each_shard-once shard (suc from) count msg (ground (arith, apart)) (omega arith))
]

sent_to-sends_by :
    (hasher : Str → ℕ) (n shard : ℕ) (msg : BrokerMessage)
    → shard < n
    → sent_to shard (sends_by (routing hasher n msg) n msg)
      ≡ (if concerns hasher n shard msg then msg ∷ [] else [])
unfolding routing sends_by
sent_to-sends_by hasher n shard (register_client id name outbound) h =
    each_shard-once shard 0 n _ (omega arith) (omega arith)
sent_to-sends_by hasher n shard (disconnect_client id) h =
    each_shard-once shard 0 n _ (omega arith) (omega arith)
sent_to-sends_by hasher n shard (publish_from from p) h = refl
sent_to-sends_by hasher n shard (subscribe_to id filter) h =
    elim (Bool-cases (is_wildcard_filter filter)) [
      | inl wild ↦ rw wild (each_shard-once shard 0 n _ (omega arith) (omega arith))
      | inr plain ↦ rw plain refl
    ]
sent_to-sends_by hasher n shard (unsubscribe_from id filter) h =
    elim (Bool-cases (is_wildcard_filter filter)) [
      | inl wild ↦ rw wild (each_shard-once shard 0 n _ (omega arith) (omega arith))
      | inr plain ↦ rw plain refl
    ]

pub sent_to-sends_of :
    (hasher : Str → ℕ) (n shard : ℕ) (messages : List BrokerMessage)
    → shard < n
    → sent_to shard (sends_of hasher n messages) ≡ select (concerns hasher n shard) messages
unfolding sends_of
sent_to-sends_of hasher n shard [] h = refl
sent_to-sends_of hasher n shard (msg ∷ messages) h =
    sent_to-append shard (sends_by (routing hasher n msg) n msg) (sends_of hasher n messages)
    ∙ rw (sent_to-sends_by hasher n shard msg h, sent_to-sends_of hasher n shard messages h)
        (elim (Bool-cases (concerns hasher n shard msg)) [
          | inl mine ↦ rw mine refl
          | inr other ↦ rw other refl
        ])
