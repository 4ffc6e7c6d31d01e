-- ===== src/Benchmark/Batches/Ends.antt =====
-- The two threads of src/bin/shard_benchmark.rs come to an end, if a batch is not empty.
use mathlib.Core.Path.{subst}
use blitz_broker.Common.{
  ℕ, zero, suc, ◌+◌, ◌-◌, ◌*◌, ◌≤◌, ◌<◌, ◌≡◌, refl, ap, inl, inr, some, List, [], ◌∷◌, arith, ltb,
  tests, Bool-cases, Option-cases, length, nat_eq, list_eq,
}
use blitz_broker.Benchmark.Batches.{
  Bool, Turn, Pair, Act, busy, at_signal, finished, publisher_goes, subscriber_goes, next_batch,
  lost_by, is_finished, publisher_step, subscriber_step, step, run, start,
}

module _ (msgs batch_size : ℕ) where
  -- The steps that a thread can take at most, with `count` messages behind it.
  abbrev steps_left : ℕ → Turn → ℕ
  steps_left count (busy left) = 3 * (msgs - (count + left)) + (left + 2)
  steps_left count at_signal = 3 * (msgs - count) + 1
  steps_left count finished = 0

  abbrev all_left : Pair → ℕ
  all_left p = steps_left p.sent p.publisher + steps_left p.received p.subscriber

  next_batch_fewer :
      (count : ℕ)
      → 0 < batch_size
      → steps_left count (next_batch msgs batch_size count) < 3 * (msgs - count) + 1
  next_batch_fewer count some_batch = elim (Bool-cases (ltb count msgs)) [
    | inl more ↦ rw more (omega (tests, some_batch))
    | inr through ↦ rw through (omega tests)
  ]

  publisher_fewer :
      (full : Bool) (turn : Turn) (p p' : Pair)
      → 0 < batch_size
      → p.publisher ≡ turn
      → publisher_step msgs batch_size full turn p ≡ some p'
      → all_left p' < all_left p
  publisher_fewer full (busy (suc left)) p p' some_batch same e =
      let to : record p { sent = suc p.sent; lost = lost_by full p; publisher = busy left } ≡ p' =
        cc in
      subst (λ q. all_left q < all_left p) to (rw same (omega arith))
  publisher_fewer full (busy zero) p p' some_batch same e =
      let to : record p { publisher = at_signal } ≡ p' = cc in
      subst (λ q. all_left q < all_left p) to (rw same (omega arith))
  publisher_fewer full at_signal p p' some_batch same e = elim (Bool-cases (ltb 0 p.signals)) [
    | inl there ↦
        let to : record p { signals = p.signals - 1; publisher = next_batch msgs batch_size p.sent }
            ≡ p' =
          cc (rw there at e) in
        subst (λ q. all_left q < all_left p) to
          (rw same (omega (arith, next_batch_fewer p.sent some_batch)))
    | inr none_there ↦ elim (Bool-cases (is_finished p.subscriber)) [
      | inl gone ↦
          let to : record p { publisher = next_batch msgs batch_size p.sent } ≡ p' =
            cc (rw (none_there, gone) at e) in
          subst (λ q. all_left q < all_left p) to
            (rw same (omega (arith, next_batch_fewer p.sent some_batch)))
      | inr there ↦ absurd (cc (rw (none_there, there) at e))
    ]
  ]
  publisher_fewer full finished p p' some_batch same e = absurd (cc)

  subscriber_fewer :
      (turn : Turn) (p p' : Pair)
      → 0 < batch_size
      → p.subscriber ≡ turn
      → subscriber_step msgs batch_size turn p ≡ some p'
      → all_left p' < all_left p
  subscriber_fewer (busy (suc left)) p p' some_batch same e =
      elim (Bool-cases (ltb (p.received + p.lost) p.sent)) [
        | inl there ↦
            let to : record p { received = suc p.received; subscriber = busy left } ≡ p' =
              cc (rw there at e) in
            subst (λ q. all_left q < all_left p) to (rw same (omega arith))
        | inr none_there ↦ absurd (cc (rw none_there at e))
      ]
  subscriber_fewer (busy zero) p p' some_batch same e =
      let to : record p { subscriber = at_signal } ≡ p' = cc in
      subst (λ q. all_left q < all_left p) to (rw same (omega arith))
  subscriber_fewer at_signal p p' some_batch same e = elim (Bool-cases (is_finished p.publisher)) [
    | inl gone ↦
        let to : record p { subscriber = next_batch msgs batch_size p.received } ≡ p' =
          cc (rw gone at e) in
        subst (λ q. all_left q < all_left p) to
          (rw same (omega (arith, next_batch_fewer p.received some_batch)))
    | inr there ↦ elim (Bool-cases (ltb p.signals 1)) [
      | inl room ↦
          let to : record p {
            signals = suc p.signals;
            subscriber = next_batch msgs batch_size p.received;
          }
              ≡ p' =
            cc (rw (there, room) at e) in
          subst (λ q. all_left q < all_left p) to
            (rw same (omega (arith, next_batch_fewer p.received some_batch)))
      | inr full ↦ absurd (cc (rw (there, full) at e))
    ]
  ]
  subscriber_fewer finished p p' some_batch same e = absurd (cc)

  step_fewer :
      (act : Act) (p p' : Pair)
      → 0 < batch_size
      → step msgs batch_size act p ≡ some p'
      → all_left p' < all_left p
  unfolding step
  step_fewer (publisher_goes full) p p' some_batch e =
      publisher_fewer full p.publisher p p' some_batch refl e
  step_fewer subscriber_goes p p' some_batch e =
      subscriber_fewer p.subscriber p p' some_batch refl e

  run_fewer :
      (acts : List Act) (p p' : Pair)
      → 0 < batch_size
      → run msgs batch_size acts p ≡ some p'
      → length acts + all_left p' ≤ all_left p
  unfolding run
  run_fewer [] p p' some_batch e = let same : p ≡ p' = cc in omega (arith, ap all_left same)
  run_fewer (act ∷ acts) p p' some_batch e = elim (Option-cases (step msgs batch_size act p)) [
    | inl stuck ↦ absurd (cc (rw stuck at e))
    | inr (next, there) ↦
        let later = run_fewer acts next p' some_batch (rw there at e) in
        omega (arith, later, step_fewer act p next some_batch there)
  ]

  -- With a batch of one message or more, the two threads take at most six steps for each message, whatever
  -- their order and whatever is lost: neither loops for ever.
  pub batches_end :
      (acts : List Act) (p : Pair)
      → 0 < batch_size
      → run msgs batch_size acts (start msgs batch_size) ≡ some p
      → length acts ≤ 6 * msgs
  batches_end acts p some_batch e =
      let bound = run_fewer acts (start msgs batch_size) p some_batch e in
      omega (arith, bound, next_batch_fewer 0 some_batch)
