-- ===== src/Broker/Shards/Senders/Order.antt =====
-- What the channels of src/broker.rs hold when several threads send at once.
use blitz_broker.Common.{
  ℕ, ◌<◌, ◌≡◌, refl, sym, ap, ◌∙◌, inl, inr, List, [], ◌∷◌, ◌++◌, append-nil, append_assoc, ◌==◌,
  ==_iff, Bool-cases, nat_eq, list_eq,
}
use blitz_broker.Protocol.Packet.{Str}
use blitz_broker.Broker.{BrokerMessage}
use blitz_broker.Broker.Shards.Transparent.{select, concerns}
use blitz_broker.Broker.Shards.Senders.{
  Sending, Bus, send_first, run_sends, start_sends, sent_to, arrived, arrived-append,
  sent_to-sends_of,
}

-- The messages of a thread for a shard, those in the channel and those to come.
abbrev account : ℕ → ℕ → Bus → List BrokerMessage
account shard thread bus = arrived shard thread bus.log ++ sent_to shard (bus.to_send thread)

account-send_first :
    (shard thread sender : ℕ) (sendings : List Sending) (bus : Bus)
    → bus.to_send sender ≡ sendings
    → account shard thread (send_first sender sendings bus) ≡ account shard thread bus
account-send_first shard thread sender [] bus same = refl
account-send_first shard thread sender ((k, msg) ∷ rest) bus same =
    ap (λ front. front ++ sent_to shard ((send_first sender ((k, msg) ∷ rest) bus).to_send thread))
      (arrived-append shard thread bus.log ((sender, (k, msg)) ∷ []))
    ∙ elim (Bool-cases (sender == thread)) [
      | inl own ↦
          let it : sender ≡ thread = (==_iff sender thread).0 own in
          let head : bus.to_send thread ≡ (k, msg) ∷ rest = ap bus.to_send (sym it) ∙ same in
          elim (Bool-cases (k == shard)) [
            | inl here ↦
                rw
                  (
                    own,
                    here,
                    head,
                    append_assoc (arrived shard thread bus.log) (msg ∷ []) (sent_to shard rest),
                  )
                  (rw here refl)
            | inr apart ↦
                rw (own, apart, head, append-nil (arrived shard thread bus.log)) (rw apart refl)
          ]
      | inr other ↦ rw (other, append-nil (arrived shard thread bus.log)) refl
    ]

account-run_sends :
    (shard thread : ℕ) (threads : List ℕ) (bus : Bus)
    → account shard thread (run_sends threads bus) ≡ account shard thread bus
unfolding run_sends
account-run_sends shard thread [] bus = refl
account-run_sends shard thread (sender ∷ threads) bus =
    account-run_sends shard thread threads (send_first sender (bus.to_send sender) bus)
    ∙ account-send_first shard thread sender (bus.to_send sender) bus refl

-- In whatever order several threads make the single sends of their calls of `send`, those of the broadcasts
-- included: the messages of a thread in the channel of a shard, and then those that it has yet to send there,
-- are the ones of its messages that concern the shard, in the order of its calls, each once.
pub senders_keep_order :
    (hasher : Str → ℕ) (n shard thread : ℕ) (messages : ℕ → List BrokerMessage) (threads : List ℕ)
    → shard < n
    → arrived shard thread (run_sends threads (start_sends hasher n messages)).log
        ++ sent_to shard ((run_sends threads (start_sends hasher n messages)).to_send thread)
      ≡ select (concerns hasher n shard) (messages thread)
senders_keep_order hasher n shard thread messages threads h =
    account-run_sends shard thread threads (start_sends hasher n messages)
    ∙ sent_to-sends_of hasher n shard (messages thread) h
