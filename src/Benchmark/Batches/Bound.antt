-- ===== src/Benchmark/Batches/Bound.antt =====
-- How far the publisher of src/bin/shard_benchmark.rs gets ahead of its subscriber, and that the two go on.
use mathlib.Core.Path.{subst}
use blitz_broker.Common.{
  ◌≤◌, ℕ, zero, suc, ◌+◌, ◌-◌, min, ◌≡◌, refl, ap, inl, inr, some, List, [], ◌∷◌, arith, ltb, tests,
  Bool-cases, Option-cases, nat_eq, list_eq,
}
use blitz_broker.Benchmark.Batches.{
  default_client_queue_capacity, Turn, Pair, Act, busy, at_signal, finished, publisher_goes,
  subscriber_goes, next_batch, is_finished, subscriber_step, step, run, start,
}
use blitz_broker.Benchmark.Batches.Flow.{
  upto, upto-le, PublisherAt, SubscriberAt, IsPair, finished_turn, publisher_step-IsPair,
}

module _ (msgs batch_size : ℕ) where
  subscriber_turns :
      (a received : ℕ)
      → received ≡ upto msgs batch_size (suc a)
      → SubscriberAt msgs batch_size (suc a) received (next_batch msgs batch_size received)
  unfolding upto
  subscriber_turns a received at = elim (Bool-cases (ltb received msgs)) [
    | inl more ↦ rw more (ap (λ n. n + min batch_size (msgs - n)) at)
    | inr through ↦ rw through (omega (tests, at, upto-le msgs batch_size (suc a)))
  ]

  signal_counted :
      (a b sent signals : ℕ) (turn : Turn)
      → PublisherAt msgs batch_size a b sent signals turn
      → PublisherAt msgs batch_size (suc a) b sent (suc signals) turn
  signal_counted a b sent signals (busy left) at = (at.0, omega (arith, at.1))
  signal_counted a b sent signals at_signal at = (at.0, omega (arith, at.1))
  signal_counted a b sent signals finished at = at

  subscriber_step-IsPair :
      (turn : Turn) (p p' : Pair)
      → p.subscriber ≡ turn
      → IsPair msgs batch_size p
      → subscriber_step msgs batch_size turn p ≡ some p'
      → IsPair msgs batch_size p'
  subscriber_step-IsPair (busy (suc left)) p p' same v e =
      let at = subst (SubscriberAt msgs batch_size v.a p.received) same v.subscriber_at in
      elim (Bool-cases (ltb (p.received + p.lost) p.sent)) [
        | inl there ↦
            let to : record p { received = suc p.received; subscriber = busy left } ≡ p' =
              cc (rw there at e) in
            subst (IsPair msgs batch_size) to (record {
              a = v.a;
              b = v.b;
              publisher_at = v.publisher_at;
              subscriber_at = omega (arith, at);
              within = v.within;
              caught_up = omega (arith, v.caught_up);
              ahead = v.ahead;
              in_order = omega tests;
              one_signal = v.one_signal;
              none_lost = v.none_lost;
            })
        | inr none_there ↦ absurd (cc (rw none_there at e))
      ]
  subscriber_step-IsPair (busy zero) p p' same v e =
      let at = subst (SubscriberAt msgs batch_size v.a p.received) same v.subscriber_at in
      let to : record p { subscriber = at_signal } ≡ p' = cc in
      subst (IsPair msgs batch_size) to (record {
        a = v.a;
        b = v.b;
        publisher_at = v.publisher_at;
        subscriber_at = omega (arith, at);
        within = v.within;
        caught_up = v.caught_up;
        ahead = v.ahead;
        in_order = v.in_order;
        one_signal = v.one_signal;
        none_lost = v.none_lost;
      })
  subscriber_step-IsPair at_signal p p' same v e =
      let at = subst (SubscriberAt msgs batch_size v.a p.received) same v.subscriber_at in
      elim (Bool-cases (is_finished p.publisher)) [
        | inl gone ↦
            let done = finished_turn msgs batch_size p.publisher gone in
            let all =
              subst (PublisherAt msgs batch_size v.a v.b p.sent p.signals) done v.publisher_at in
            let to : record p { subscriber = next_batch msgs batch_size p.received } ≡ p' =
              cc (rw gone at e) in
            subst (IsPair msgs batch_size) to (record {
              a = suc v.a;
              b = v.b;
              publisher_at = rw done all;
              subscriber_at = subscriber_turns v.a p.received at;
              within = v.within;
              caught_up = omega (arith, at);
              ahead = omega (arith, v.ahead);
              in_order = v.in_order;
              one_signal = v.one_signal;
              none_lost = v.none_lost;
            })
        | inr there ↦ elim (Bool-cases (ltb p.signals 1)) [
          | inl room ↦
              let to : record p {
                signals = suc p.signals;
                subscriber = next_batch msgs batch_size p.received;
              }
                  ≡ p' =
                cc (rw (there, room) at e) in
              subst (IsPair msgs batch_size) to (record {
                a = suc v.a;
                b = v.b;
                publisher_at = signal_counted v.a v.b p.sent p.signals p.publisher v.publisher_at;
                subscriber_at = subscriber_turns v.a p.received at;
                within = v.within;
                caught_up = omega (arith, at);
                ahead = omega (arith, v.ahead);
                in_order = v.in_order;
                one_signal = omega tests;
                none_lost = v.none_lost;
              })
          | inr full ↦ absurd (cc (rw (there, full) at e))
        ]
      ]
  subscriber_step-IsPair finished p p' same v e = absurd (cc)

  step-IsPair :
      (act : Act) (p p' : Pair)
      → batch_size ≤ default_client_queue_capacity
      → IsPair msgs batch_size p
      → step msgs batch_size act p ≡ some p'
      → IsPair msgs batch_size p'
  unfolding step
  step-IsPair (publisher_goes full) p p' small v e =
      publisher_step-IsPair msgs batch_size full p.publisher p p' small refl v e
  step-IsPair subscriber_goes p p' small v e = subscriber_step-IsPair p.subscriber p p' refl v e

  pub run-IsPair :
      (acts : List Act) (p p' : Pair)
      → batch_size ≤ default_client_queue_capacity
      → IsPair msgs batch_size p
      → run msgs batch_size acts p ≡ some p'
      → IsPair msgs batch_size p'
  unfolding run
  run-IsPair [] p p' small v e = subst (IsPair msgs batch_size) (cc) v
  run-IsPair (act ∷ acts) p p' small v e = elim (Option-cases (step msgs batch_size act p)) [
    | inl stuck ↦ absurd (cc (rw stuck at e))
    | inr (next, there) ↦
        run-IsPair acts next p' small (step-IsPair act p next small v there) (rw there at e)
  ]

  pub start-IsPair : IsPair msgs batch_size (start msgs batch_size)
  unfolding upto
  start-IsPair = elim (Bool-cases (ltb 0 msgs)) [
    | inl some_msgs ↦ rw some_msgs (record {
      a = 0;
      b = 0;
      publisher_at = (omega arith, omega arith);
      subscriber_at = omega arith;
      within = omega arith;
      caught_up = omega arith;
      ahead = omega arith;
      in_order = omega arith;
      one_signal = omega arith;
      none_lost = refl;
    })
    | inr no_msgs ↦ rw no_msgs (record {
      a = 0;
      b = 0;
      publisher_at = omega tests;
      subscriber_at = omega tests;
      within = omega arith;
      caught_up = omega arith;
      ahead = omega arith;
      in_order = omega arith;
      one_signal = omega arith;
      none_lost = refl;
    })
  ]
