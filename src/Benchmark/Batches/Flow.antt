-- ===== src/Benchmark/Batches/Flow.antt =====
-- The batches of src/bin/shard_benchmark.rs: how far its publisher is ahead, and that its threads go on.
use blitz_broker.Common.{
  lt→leb, refl, ap, min, le→ltb, ltb→lt, false, true, ◌<◌, Bool-cases, inl, inr, ltb, tests, some,
  ◌≡◌, ℕ, zero, suc, ◌+◌, ◌-◌, ◌≤◌, arith, nat_eq, list_eq,
}
use mathlib.Core.Path.{subst}
use blitz_broker.Benchmark.Batches.{
  leb, lost_by, default_client_queue_capacity, Bool, is_finished, at_signal, finished, next_batch,
  busy, publisher_step, Turn, Pair,
}

module _ (msgs batch_size : ℕ) where
  -- The messages of the first batches.
  unfoldable pub upto : ℕ → ℕ
  upto zero = 0
  upto (suc n) = upto n + min batch_size (msgs - upto n)

  pub upto-le : (n : ℕ) → upto n ≤ msgs
  unfolding upto
  upto-le zero = omega arith
  upto-le (suc n) = omega (arith, upto-le n)

  pub upto_next : (n : ℕ) → upto (suc n) ≤ upto n + batch_size
  unfolding upto
  upto_next n = omega arith

  pub upto_mono : (b a : ℕ) → b ≤ a → upto b ≤ upto a
  unfolding upto
  upto_mono b zero h = let same : b ≡ 0 = omega arith in rw same (omega arith)
  upto_mono b (suc a) h = elim (Bool-cases (ltb b (suc a))) [
    | inl earlier ↦ omega (tests, upto_mono b a (omega tests))
    | inr now ↦ let same : b ≡ suc a = omega tests in rw same (omega arith)
  ]

  -- The publisher in its batch behind `b` others, the subscriber in its batch behind `a` others.
  abbrev pub PublisherAt : ℕ → ℕ → ℕ → ℕ → Turn → Type 0
  PublisherAt a b sent signals (busy left) = (sent + left ≡ upto (suc b)) × (a ≡ b + signals)
  PublisherAt a b sent signals at_signal = (sent ≡ upto (suc b)) × (a ≡ b + signals)
  PublisherAt a b sent signals finished = sent ≡ msgs

  abbrev pub SubscriberAt : ℕ → ℕ → Turn → Type 0
  SubscriberAt a received (busy left) = received + left ≡ upto (suc a)
  SubscriberAt a received at_signal = received ≡ upto (suc a)
  SubscriberAt a received finished = received ≡ msgs

  pub record IsPair (p : Pair) : Type 0 where
    pub a : ℕ
    pub b : ℕ
    pub publisher_at : PublisherAt a b p.sent p.signals p.publisher
    pub subscriber_at : SubscriberAt a p.received p.subscriber
    pub within : p.sent ≤ upto (suc b)
    pub caught_up : upto a ≤ p.received
    pub ahead : b ≤ a
    pub in_order : p.received ≤ p.sent
    pub one_signal : p.signals ≤ 1
    pub none_lost : p.lost ≡ 0

  publisher_takes_signal :
      (p p' : Pair)
      → p.publisher ≡ at_signal
      → 0 < p.signals
      → IsPair p
      → record p { signals = p.signals - 1; publisher = next_batch msgs batch_size p.sent } ≡ p'
      → IsPair p'
  unfolding upto
  publisher_takes_signal p p' same there v to =
      let at = subst (PublisherAt v.a v.b p.sent p.signals) same v.publisher_at in
      elim (Bool-cases (ltb p.sent msgs)) [
        | inl more ↦
            let turn : next_batch msgs batch_size p.sent ≡ busy (min batch_size (msgs - p.sent)) =
              rw more refl in
            subst IsPair to (record {
              a = v.a;
              b = suc v.b;
              publisher_at =
                  rw turn
                    (ap (λ n. n + min batch_size (msgs - n)) at.0, omega (arith, at.1, there));
              subscriber_at = v.subscriber_at;
              within = omega (arith, at.0);
              caught_up = v.caught_up;
              ahead = omega (arith, at.1, there);
              in_order = v.in_order;
              one_signal = omega (arith, v.one_signal);
              none_lost = v.none_lost;
            })
        | inr through ↦
            let turn : next_batch msgs batch_size p.sent ≡ finished = rw through refl in
            subst IsPair to (record {
              a = v.a;
              b = v.b;
              publisher_at = rw turn (omega (tests, at.0, upto-le (suc v.b)));
              subscriber_at = v.subscriber_at;
              within = v.within;
              caught_up = v.caught_up;
              ahead = v.ahead;
              in_order = v.in_order;
              one_signal = omega (arith, v.one_signal);
              none_lost = v.none_lost;
            })
      ]

  publisher_left_alone :
      (p p' : Pair)
      → p.publisher ≡ at_signal
      → p.subscriber ≡ finished
      → IsPair p
      → record p { publisher = next_batch msgs batch_size p.sent } ≡ p'
      → IsPair p'
  publisher_left_alone p p' same gone v to =
      let at = subst (PublisherAt v.a v.b p.sent p.signals) same v.publisher_at in
      let all : p.received ≡ msgs = subst (SubscriberAt v.a p.received) gone v.subscriber_at in
      let through : ltb p.sent msgs ≡ false = le→ltb p.sent msgs (omega (arith, all, v.in_order)) in
      let turn : next_batch msgs batch_size p.sent ≡ finished = rw through refl in
      subst IsPair to (record {
        a = v.a;
        b = v.b;
        publisher_at = rw turn (omega (arith, all, v.in_order, at.0, upto-le (suc v.b)));
        subscriber_at = v.subscriber_at;
        within = v.within;
        caught_up = v.caught_up;
        ahead = v.ahead;
        in_order = v.in_order;
        one_signal = v.one_signal;
        none_lost = v.none_lost;
      })

  pub finished_turn : (turn : Turn) → is_finished turn ≡ true → turn ≡ finished
  finished_turn (busy left) e = absurd (cc)
  finished_turn at_signal e = absurd (cc)
  finished_turn finished e = refl

  -- A message that is sent finds room in the queue.
  room_to_send :
      (full : Bool) (left : ℕ) (p : Pair)
      → batch_size ≤ default_client_queue_capacity
      → p.publisher ≡ busy (suc left)
      → IsPair p
      → lost_by full p ≡ 0
  room_to_send full left p small same v =
      let at = subst (PublisherAt v.a v.b p.sent p.signals) same v.publisher_at in
      let behind = upto_mono v.b v.a v.ahead in
      let room : p.sent - (p.received + p.lost) < default_client_queue_capacity =
        omega (arith, at.0, upto_next v.b, behind, v.caught_up, small) in
      let fits : leb default_client_queue_capacity (p.sent - (p.received + p.lost)) ≡ false =
        lt→leb _ _ room in
      rw (fits, v.none_lost) (ground arith)

  pub publisher_step-IsPair :
      (full : Bool) (turn : Turn) (p p' : Pair)
      → batch_size ≤ default_client_queue_capacity
      → p.publisher ≡ turn
      → IsPair p
      → publisher_step msgs batch_size full turn p ≡ some p'
      → IsPair p'
  publisher_step-IsPair full (busy (suc left)) p p' small same v e =
      let at = subst (PublisherAt v.a v.b p.sent p.signals) same v.publisher_at in
      let to : record p { sent = suc p.sent; lost = lost_by full p; publisher = busy left } ≡ p' =
        cc in
      subst IsPair to (record {
        a = v.a;
        b = v.b;
        publisher_at = (omega (arith, at.0), at.1);
        subscriber_at = v.subscriber_at;
        within = omega (arith, at.0);
        caught_up = v.caught_up;
        ahead = v.ahead;
        in_order = omega (arith, v.in_order);
        one_signal = v.one_signal;
        none_lost = room_to_send full left p small same v;
      })
  publisher_step-IsPair full (busy zero) p p' small same v e =
      let at = subst (PublisherAt v.a v.b p.sent p.signals) same v.publisher_at in
      let to : record p { publisher = at_signal } ≡ p' = cc in
      subst IsPair to (record {
        a = v.a;
        b = v.b;
        publisher_at = (omega (arith, at.0), at.1);
        subscriber_at = v.subscriber_at;
        within = v.within;
        caught_up = v.caught_up;
        ahead = v.ahead;
        in_order = v.in_order;
        one_signal = v.one_signal;
        none_lost = v.none_lost;
      })
  publisher_step-IsPair full at_signal p p' small same v e = elim (Bool-cases (ltb 0 p.signals)) [
    | inl there ↦ publisher_takes_signal p p' same (ltb→lt 0 p.signals there) v (cc (rw there at e))
    | inr none_there ↦ elim (Bool-cases (is_finished p.subscriber)) [
      | inl gone ↦
          publisher_left_alone p p' same (finished_turn p.subscriber gone) v
            (cc (rw (none_there, gone) at e))
      | inr there ↦ absurd (cc (rw (none_there, there) at e))
    ]
  ]
  publisher_step-IsPair full finished p p' small same v e = absurd (cc)
