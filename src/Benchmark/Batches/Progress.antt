-- ===== src/Benchmark/Batches/Progress.antt =====
-- The two threads of src/bin/shard_benchmark.rs go on until both are through.
use mathlib.Core.Path.{subst}
use blitz_broker.Common.{
  none, ◌≢◌, ℕ, zero, suc, ◌+◌, ◌≤◌, ◌<◌, ◌≡◌, refl, ap, ◌⊎◌, inl, inr, some, List, arith, ltb,
  lt→ltb, tests, Bool-cases, nat_eq, list_eq,
}
use blitz_broker.Benchmark.Batches.{
  default_client_queue_capacity, false, Turn, Pair, Act, busy, at_signal, finished, publisher_goes,
  subscriber_goes, step, run, start,
}
use blitz_broker.Benchmark.Batches.Flow.{
  upto, upto-le, upto_next, upto_mono, PublisherAt, SubscriberAt, IsPair,
}
use blitz_broker.Benchmark.Batches.Bound.{run-IsPair, start-IsPair}

module _ (msgs batch_size : ℕ) where
  -- Both threads are behind their loops, and every message was sent and received.
  abbrev pub IsThrough : Pair → Type 0
  IsThrough p =
      (p.publisher ≡ finished) × (p.subscriber ≡ finished) × (p.sent ≡ msgs) × (p.received ≡ msgs)

  abbrev pub GoesOn : Pair → Type 0
  GoesOn p = (act : Act) × (step msgs batch_size act p ≢ none)

  subscriber_reads :
      (left : ℕ) (p : Pair)
      → p.subscriber ≡ busy (suc left)
      → p.received + p.lost < p.sent
      → GoesOn p
  unfolding step
  subscriber_reads left p same there =
      (subscriber_goes, rw (same, lt→ltb (p.received + p.lost) p.sent there) (λ e. cc))

  waiting-GoesOn :
      (ts : Turn) (p : Pair)
      → p.publisher ≡ at_signal
      → p.subscriber ≡ ts
      → p.signals ≡ 0
      → IsPair msgs batch_size p
      → GoesOn p
  unfolding step
  waiting-GoesOn (busy (suc left)) p same same' none_there v =
      let at = subst (PublisherAt msgs batch_size v.a v.b p.sent p.signals) same v.publisher_at in
      let at' = subst (SubscriberAt msgs batch_size v.a p.received) same' v.subscriber_at in
      let together : v.b ≡ v.a = omega (arith, at.1, none_there) in
      let same_batch : upto msgs batch_size (suc v.b) ≡ upto msgs batch_size (suc v.a) =
        ap (λ n. upto msgs batch_size (suc n)) together in
      subscriber_reads left p same' (omega (arith, at.0, at', same_batch, v.none_lost))
  waiting-GoesOn (busy zero) p same same' none_there v = (subscriber_goes, rw same' (λ e. cc))
  waiting-GoesOn at_signal p same same' none_there v =
      (subscriber_goes, rw (same', same, none_there) (λ e. cc))
  waiting-GoesOn finished p same same' none_there v =
      (publisher_goes false, rw (same, none_there, same') (λ e. cc))

  IsThrough-or-GoesOn :
      (tp ts : Turn) (p : Pair)
      → p.publisher ≡ tp
      → p.subscriber ≡ ts
      → IsPair msgs batch_size p
      → IsThrough p ⊎ GoesOn p
  unfolding step
  IsThrough-or-GoesOn (busy (suc left)) ts p same same' v =
      inr (publisher_goes false, rw same (λ e. cc))
  IsThrough-or-GoesOn (busy zero) ts p same same' v = inr (publisher_goes false, rw same (λ e. cc))
  IsThrough-or-GoesOn at_signal ts p same same' v = elim (Bool-cases (ltb 0 p.signals)) [
    | inl there ↦ inr (publisher_goes false, rw (same, there) (λ e. cc))
    | inr none_there ↦ inr (waiting-GoesOn ts p same same' (omega tests) v)
  ]
  IsThrough-or-GoesOn finished (busy (suc left)) p same same' v =
      let at : p.sent ≡ msgs =
        subst (PublisherAt msgs batch_size v.a v.b p.sent p.signals) same v.publisher_at in
      let at' = subst (SubscriberAt msgs batch_size v.a p.received) same' v.subscriber_at in
      inr (
        subscriber_reads left p same'
          (omega (arith, at, at', upto-le msgs batch_size (suc v.a), v.none_lost)))
  IsThrough-or-GoesOn finished (busy zero) p same same' v =
      inr (subscriber_goes, rw same' (λ e. cc))
  IsThrough-or-GoesOn finished at_signal p same same' v =
      inr (subscriber_goes, rw (same', same) (λ e. cc))
  IsThrough-or-GoesOn finished finished p same same' v = inl (
    same,
    same',
    subst (PublisherAt msgs batch_size v.a v.b p.sent p.signals) same v.publisher_at,
    subst (SubscriberAt msgs batch_size v.a p.received) same' v.subscriber_at,
  )

  -- With a batch of 128 messages at most, the capacity of the subscriber's queue, and in any order of the
  -- steps of the two threads, no message is lost, at most one batch is on its way, and either both threads are
  -- through, with every message sent and received, or one of them can go on.
  pub batches_flow :
      (acts : List Act) (p : Pair)
      → batch_size ≤ default_client_queue_capacity
      → run msgs batch_size acts (start msgs batch_size) ≡ some p
      → (p.lost ≡ 0)
        × (p.received ≤ p.sent)
        × (p.sent ≤ p.received + batch_size)
        × (IsThrough p ⊎ GoesOn p)
  batches_flow acts p small e =
      let v =
        run-IsPair msgs batch_size acts (start msgs batch_size) p small
          (start-IsPair msgs batch_size) e in
      let close : upto msgs batch_size v.b ≤ upto msgs batch_size v.a =
        upto_mono msgs batch_size v.b v.a v.ahead in
      (
        v.none_lost,
        v.in_order,
        omega (arith, v.within, upto_next msgs batch_size v.b, close, v.caught_up),
        IsThrough-or-GoesOn p.publisher p.subscriber p refl refl v,
      )
