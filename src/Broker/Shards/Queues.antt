-- ===== src/Broker/Shards/Queues.antt =====
-- What `ShardedBroker::send` of src/broker.rs leaves in the channels of the shards, and what it answers.
pub mod Runs
use blitz_broker.Common.{
  ℕ, zero, suc, ◌<◌, ◌≡◌, refl, sym, ap, ◌∙◌, ◌↔◌, inl, inr, Bool, true, false, ◌&&◌, ◌||◌, List,
  [], ◌∷◌, arith, ◌==◌, if◌then◌else◌, ==_iff, Bool-cases, length, nat_eq, list_eq,
}
use blitz_broker.Protocol.Packet.{Str}
use blitz_broker.Broker.{
  is_wildcard_filter, BrokerMessage, register_client, subscribe_to, unsubscribe_from, publish_from,
  disconnect_client,
}
use blitz_broker.Broker.Shards.{
  send_broadcast, routing, send, shard_for_topic, Channel, send_one, result_of, send_single,
  send_each,
}
use blitz_broker.Broker.Shards.Transparent.{concerns}

-- The channels, of which those that pass the test, by their index, have been sent the message.
abbrev pub receive : (ℕ → Bool) → BrokerMessage → List Channel → List Channel
receive test msg [] = []
receive test msg (c ∷ channels) =
    (if test 0 then (send_one msg c).0 else c) ∷ receive (λ i. test (suc i)) msg channels

-- Whether one of those channels is open.
abbrev pub any_open : (ℕ → Bool) → List Channel → Bool
any_open test [] = false
any_open test (c ∷ channels) = test 0 && c.is_open || any_open (λ i. test (suc i)) channels

same_test : (k l i j : ℕ) → (k ≡ l) ↔ (i ≡ j) → (k == l) ≡ (i == j)
same_test k l i j h = elim (Bool-cases (k == l)) [
  | inl same ↦ rw same (sym ((==_iff i j).1 (h.0 ((==_iff k l).0 same))))
  | inr other ↦ elim (Bool-cases (i == j)) [
    | inl same ↦ rw same (sym (cc (rw ((==_iff k l).1 (h.1 ((==_iff i j).0 same))) at other)))
    | inr apart ↦ rw (other, apart) refl
  ]
]

not_first : (k : ℕ) → (suc k == 0) ≡ false
not_first k = elim (Bool-cases (suc k == 0)) [
  | inl same ↦ let e : suc k ≡ 0 = (==_iff (suc k) 0).0 same in absurd (omega arith)
  | inr other ↦ other
]

first_is_not : (i : ℕ) → (0 == suc i) ≡ false
first_is_not i = elim (Bool-cases (0 == suc i)) [
  | inl same ↦ let e : 0 ≡ suc i = (==_iff 0 (suc i)).0 same in absurd (omega arith)
  | inr other ↦ other
]

-- The tests of the channels behind the first.
behind_first : ◌≡◌ {A = ℕ → Bool} (λ i. 0 == suc i) (λ i. false)
behind_first = λ j i. first_is_not i j

behind : (k : ℕ) → ◌≡◌ {A = ℕ → Bool} (λ i. suc k == suc i) (λ i. k == i)
behind k = λ j i. same_test (suc k) (suc i) k i (omega arith, omega arith) j

receive_none :
    (msg : BrokerMessage) (channels : List Channel) → receive (λ i. false) msg channels ≡ channels
receive_none msg [] = refl
receive_none msg (c ∷ channels) = ap (◌∷◌ c) (receive_none msg channels)

any_open_none : (channels : List Channel) → any_open (λ i. false) channels ≡ false
any_open_none [] = refl
any_open_none (c ∷ channels) = any_open_none channels

send_one-sent : (msg : BrokerMessage) (c : Channel) → (send_one msg c).1 ≡ c.is_open
unfolding send_one
send_one-sent msg c = elim (Bool-cases c.is_open) [ inl up ↦ rw up refl | inr down ↦ rw down refl ]

send_single-receive :
    (k : ℕ) (msg : BrokerMessage) (channels : List Channel)
    → k < length channels
    → send_single k msg channels
      ≡ (receive (λ i. k == i) msg channels, result_of (any_open (λ i. k == i) channels))
unfolding send_single
send_single-receive k msg [] h = absurd (omega arith)
send_single-receive zero msg (c ∷ channels) h =
    ap (λ sent. ((send_one msg c).0 ∷ channels, result_of sent)) (send_one-sent msg c)
    ∙ sym (
        ap
          (λ test. (
            (send_one msg c).0 ∷ receive test msg channels,
            result_of (c.is_open || any_open test channels),
          ))
          behind_first
        ∙ rw (receive_none msg channels, any_open_none channels)
            (ap (λ b. ((send_one msg c).0 ∷ channels, result_of b)) (ground arith)))
send_single-receive (suc k) msg (c ∷ channels) h =
    ap (λ r. (c ∷ r.0, r.1)) (send_single-receive k msg channels (omega arith))
    ∙ sym (
        rw (not_first k) (
          ap (λ test. (c ∷ receive test msg channels, result_of (any_open test channels)))
            (behind k)))

send_each-receive :
    (msg : BrokerMessage) (any_ok : Bool) (channels : List Channel)
    → send_each msg any_ok channels
      ≡ (receive (λ i. true) msg channels, any_ok || any_open (λ i. true) channels)
unfolding send_each
send_each-receive msg any_ok [] =
    let same : any_ok ≡ (any_ok || false) = ground arith in ap (λ b. ([], b)) same
send_each-receive msg any_ok (c ∷ channels) =
    ap
      (λ sent. (
        (send_one msg c).0 ∷ (send_each msg (if sent then true else any_ok) channels).0,
        (send_each msg (if sent then true else any_ok) channels).1,
      ))
      (send_one-sent msg c)
    ∙ rw (send_each-receive msg (if c.is_open then true else any_ok) channels)
        (ap (λ b. ((send_one msg c).0 ∷ receive (λ i. true) msg channels, b)) (ground arith))

shard_in_range :
    (hasher : Str → ℕ) (topic : Str) (n : ℕ) → 0 < n → shard_for_topic hasher topic n < n
unfolding shard_for_topic
shard_in_range hasher topic n h = elim (Bool-cases (n == 0)) [
  | inl none_at_all ↦ let e : n ≡ 0 = (==_iff n 0).0 none_at_all in absurd (omega arith)
  | inr some_shards ↦ rw some_shards (native.Mathlib.Nat.mod-lt (hasher topic) h)
]

-- `send` on at least one channel does not panic: it leaves the message in every open channel whose shard
-- the message concerns and in no other, behind what was there, and is `Ok` exactly if there is such one.
pub send-receive :
    (hasher : Str → ℕ) (msg : BrokerMessage) (channels : List Channel)
    → 0 < length channels
    → send hasher msg channels ≡ (
      receive (λ i. concerns hasher (length channels) i msg) msg channels,
      result_of (any_open (λ i. concerns hasher (length channels) i msg) channels),
    )
unfolding send routing send_broadcast
send-receive hasher (register_client id client_id outbound) channels h =
    ap (λ r. (r.0, result_of r.1))
      (send_each-receive (register_client id client_id outbound) false channels)
send-receive hasher (disconnect_client id) channels h =
    ap (λ r. (r.0, result_of r.1)) (send_each-receive (disconnect_client id) false channels)
send-receive hasher (publish_from from p) channels h =
    send_single-receive (shard_for_topic hasher p.topic (length channels)) (publish_from from p)
      channels (shard_in_range hasher p.topic (length channels) h)
send-receive hasher (subscribe_to id filter) channels h =
    elim (Bool-cases (is_wildcard_filter filter)) [
      | inl wild ↦ rw wild (
          ap (λ r. (r.0, result_of r.1))
            (send_each-receive (subscribe_to id filter) false channels))
      | inr plain ↦ rw plain (
          send_single-receive (shard_for_topic hasher filter (length channels))
            (subscribe_to id filter) channels (shard_in_range hasher filter (length channels) h))
    ]
send-receive hasher (unsubscribe_from id filter) channels h =
    elim (Bool-cases (is_wildcard_filter filter)) [
      | inl wild ↦ rw wild (
          ap (λ r. (r.0, result_of r.1))
            (send_each-receive (unsubscribe_from id filter) false channels))
      | inr plain ↦ rw plain (
          send_single-receive (shard_for_topic hasher filter (length channels))
            (unsubscribe_from id filter) channels
            (shard_in_range hasher filter (length channels) h))
    ]
