-- ===== src/Benchmark/Batches.antt =====
-- src/bin/shard_benchmark.rs: the publisher's and the subscriber's thread of a channel, once both are
-- connected, in any order of their steps. The broker between them keeps the order and sends the subscriber
-- nothing else. It may lose a message where 128 others, the capacity of the subscriber's queue, are on their
-- way: sent, and neither received nor lost. The channel back holds one signal at most.
pub mod Flow
pub mod Bound
pub mod Progress
pub mod Ends
use blitz_broker.Common.{
  ℕ, zero, suc, ◌-◌, min, Bool, true, false, Option, none, some, List, [], ◌∷◌, ltb, if◌then◌else◌,
  nat_eq, list_eq, ◌+◌, ◌&&◌, leb,
}
use blitz_broker.Broker.{default_client_queue_capacity}

-- Where a thread is: with so many messages of its batch still to go, at its signal, or behind its loop.
pub data Turn : Type 0 where
  busy : ℕ → Turn
  at_signal finished : Turn

pub record Pair : Type 0 where
  pub sent : ℕ
  pub received : ℕ
  pub lost : ℕ
  pub signals : ℕ
  pub publisher : Turn
  pub subscriber : Turn

-- The flag says whether a message that is sent overflows the queue, if it can.
pub data Act : Type 0 where
  publisher_goes : Bool → Act
  subscriber_goes : Act

abbrev pub is_finished : Turn → Bool
is_finished finished = true
is_finished turn = false

-- The messages lost, once one more is sent.
abbrev pub lost_by : Bool → Pair → ℕ
lost_by full p =
    if full && leb default_client_queue_capacity (p.sent - (p.received + p.lost))
    then suc p.lost
    else p.lost

module _ (msgs batch_size : ℕ) where
  -- The head of a loop over batches, with `count` messages behind it.
  abbrev pub next_batch : ℕ → Turn
  next_batch count = if ltb count msgs then busy (min batch_size (msgs - count)) else finished

  -- The publisher; `rx.recv()` waits for a signal, unless the subscriber is gone.
  abbrev pub publisher_step : Bool → Turn → Pair → Option Pair
  publisher_step full (busy (suc left)) p =
      some (record p { sent = suc p.sent; lost = lost_by full p; publisher = busy left })
  publisher_step full (busy zero) p = some (record p { publisher = at_signal })
  publisher_step full at_signal p =
      if ltb 0 p.signals
      then some (record p { signals = p.signals - 1; publisher = next_batch p.sent })
      else if is_finished p.subscriber
      then some (record p { publisher = next_batch p.sent })
      else none
  publisher_step full finished p = none

  -- The subscriber; a message must be there to be received, and `tx.send(())` waits for room, unless the
  -- publisher is gone.
  abbrev pub subscriber_step : Turn → Pair → Option Pair
  subscriber_step (busy (suc left)) p =
      if ltb (p.received + p.lost) p.sent
      then some (record p { received = suc p.received; subscriber = busy left })
      else none
  subscriber_step (busy zero) p = some (record p { subscriber = at_signal })
  subscriber_step at_signal p =
      if is_finished p.publisher
      then some (record p { subscriber = next_batch p.received })
      else if ltb p.signals 1
      then some (record p { signals = suc p.signals; subscriber = next_batch p.received })
      else none
  subscriber_step finished p = none

  unfoldable pub step : Act → Pair → Option Pair
  step (publisher_goes full) p = publisher_step full p.publisher p
  step subscriber_goes p = subscriber_step p.subscriber p

  abbrev pub and_then : Option Pair → (Pair → Option Pair) → Option Pair
  and_then none f = none
  and_then (some p) f = f p

  unfoldable pub run : List Act → Pair → Option Pair
  run [] p = some p
  run (act ∷ acts) p = and_then (step act p) (run acts)

  abbrev pub start : Pair
  start = record {
    sent = 0;
    received = 0;
    lost = 0;
    signals = 0;
    publisher = next_batch 0;
    subscriber = next_batch 0;
  }
