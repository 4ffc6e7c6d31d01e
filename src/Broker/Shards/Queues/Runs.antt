-- ===== src/Broker/Shards/Queues/Runs.antt =====
-- The channels of the sharded broker of src/broker.rs after several calls of `send`.
use blitz_broker.Common.{
  ℕ, zero, suc, ◌<◌, ◌≡◌, refl, ap, ◌∙◌, inl, inr, Bool, true, some, List, [], ◌∷◌, ◌++◌,
  append-nil, append_assoc, arith, if◌then◌else◌, Bool-cases, length, get_elem?, nat_eq, list_eq,
}
use blitz_broker.Protocol.Packet.{Str}
use blitz_broker.Broker.{BrokerMessage}
use blitz_broker.Broker.Shards.{Channel, open_channels, send, send_one}
use blitz_broker.Broker.Shards.Transparent.{select, concerns}
use blitz_broker.Broker.Shards.Queues.{receive, send-receive}

length-receive :
    (test : ℕ → Bool) (msg : BrokerMessage) (channels : List Channel)
    → length (receive test msg channels) ≡ length channels
length-receive test msg [] = refl
length-receive test msg (c ∷ channels) =
    ap (λ k. suc k) (length-receive (λ i. test (suc i)) msg channels)

get_elem?-receive :
    (test : ℕ → Bool) (msg : BrokerMessage) (channels : List Channel) (i : ℕ) (c : Channel)
    → get_elem? channels i ≡ some c
    → get_elem? (receive test msg channels) i ≡ some (if test i then (send_one msg c).0 else c)
get_elem?-receive test msg [] i c h = absurd (cc)
get_elem?-receive test msg (d ∷ channels) zero c h = let same : d ≡ c = cc in rw same refl
get_elem?-receive test msg (d ∷ channels) (suc i) c h =
    get_elem?-receive (λ j. test (suc j)) msg channels i c h

-- One message after another.
unfoldable pub send_run : (Str → ℕ) → List BrokerMessage → List Channel → List Channel
send_run hasher [] channels = channels
send_run hasher (msg ∷ messages) channels = send_run hasher messages (send hasher msg channels).0

get_elem?-send_run :
    (hasher : Str → ℕ) (n i : ℕ) (messages : List BrokerMessage) (channels : List Channel)
    (before : List BrokerMessage)
    → 0 < n
    → length channels ≡ n
    → get_elem? channels i ≡ some (record { is_open = true; messages = before })
    → get_elem? (send_run hasher messages channels) i
      ≡ some (record { is_open = true; messages = before ++ select (concerns hasher n i) messages })
unfolding send_run send_one
get_elem?-send_run hasher n i [] channels before h size held = rw append-nil held
get_elem?-send_run hasher n i (msg ∷ messages) channels before h size held =
    let sent = ap (λ r. r.0) (send-receive hasher msg channels (omega (arith, size))) in
    let size' : length (send hasher msg channels).0 ≡ n =
      ap length sent ∙ length-receive _ msg channels ∙ size in
    let now = ap (λ cs. get_elem? cs i) sent ∙ get_elem?-receive _ msg channels i _ held in
    elim (Bool-cases (concerns hasher n i msg)) [
      | inl mine ↦
          let next : get_elem? (send hasher msg channels).0 i
              ≡ some (record { is_open = true; messages = before ++ (msg ∷ []) }) =
            rw (size, mine) at now in
          rw mine (
            get_elem?-send_run hasher n i messages _ (before ++ (msg ∷ [])) h size' next
            ∙ rw append_assoc refl)
      | inr other ↦
          let next : get_elem? (send hasher msg channels).0 i
              ≡ some (record { is_open = true; messages = before }) =
            rw (size, other) at now in
          rw other (get_elem?-send_run hasher n i messages _ before h size' next)
    ]

get_elem?-open_channels :
    (n i : ℕ)
    → i < n
    → get_elem? (open_channels n) i ≡ some (record { is_open = true; messages = [] })
unfolding open_channels
get_elem?-open_channels zero i h = absurd (omega arith)
get_elem?-open_channels (suc n) zero h = refl
get_elem?-open_channels (suc n) (suc i) h = get_elem?-open_channels n i (omega arith)

length-open_channels : (n : ℕ) → length (open_channels n) ≡ n
unfolding open_channels
length-open_channels zero = refl
length-open_channels (suc n) = ap (λ k. suc k) (length-open_channels n)

-- Shard `i` of a new sharded broker is sent, of any messages, those that concern it, in their order.
pub queued_messages :
    (hasher : Str → ℕ) (n i : ℕ) (messages : List BrokerMessage)
    → i < n
    → get_elem? (send_run hasher messages (open_channels n)) i
      ≡ some (record { is_open = true; messages = select (concerns hasher n i) messages })
queued_messages hasher n i messages h =
    get_elem?-send_run hasher n i messages (open_channels n) [] (omega arith)
      (length-open_channels n) (get_elem?-open_channels n i h)
