-- ===== src/Queue/Wakeup.antt =====
-- `pop_blocking` against `close` and `push` of src/queue.rs, at the grain of their locks: one consumer,
-- one thread that closes, and pushes. Between its test of `closed` and its wait the consumer holds the
-- lock of `items`, which `push` takes and `close` does not. Spurious wakeups are not modelled.
use blitz_broker.Common.{
  ap, ◌++◌, ◌+◌, map, length, arith, arith, ◌∙◌, map, ℕ, zero, suc, ◌≡◌, refl, Bool, true, false,
  Option, none, some, List, [], ◌∷◌, if◌then◌else◌, nat_eq, list_eq,
}
use blitz_broker.Queue.{Queue, push, close, push_all}

-- Where the consumer is: at the head of the loop, behind the test of `closed`, in the wait, or back.
pub data Consumer {ℓ} (A : Type ℓ) : Type ℓ where
  at_head about_to_wait waiting : Consumer A
  returned : Option A → Consumer A

pub data Closer : Type 0 where
  not_closing flag_set notified : Closer

-- `owed` counts the pushes whose `notify_one` is still to come.
pub record System {ℓ} (A : Type ℓ) : Type ℓ where
  pub queue : Queue A
  pub consumer : Consumer A
  pub closer : Closer
  pub owed : ℕ

pub data Action {ℓ} (A : Type ℓ) : Type ℓ where
  consume set_flag notify_all notify_one : Action A
  pushes : A → Action A

module _ {ℓ} {A : Type ℓ} where
  -- A notification reaches a consumer that waits, and is lost on any other.
  abbrev woken : Consumer A → Consumer A
  woken waiting = at_head
  woken c = c

  abbrev test_closed : Bool → Consumer A
  test_closed true = returned none
  test_closed false = about_to_wait

  take_front : List A → System A → System A
  take_front [] s = record s { consumer = test_closed s.queue.closed }
  take_front (a ∷ items) s = record s {
    queue = record (s.queue) { items = items };
    consumer = returned (some a);
  }

  consumer_step : Consumer A → System A → Option (System A)
  unfolding take_front
  consumer_step at_head s = some (take_front s.queue.items s)
  consumer_step about_to_wait s = some (record s { consumer = waiting })
  consumer_step waiting s = none
  consumer_step (returned o) s = none

  abbrev locked : Consumer A → Bool
  locked about_to_wait = true
  locked _ = false

  closer_flag : Closer → System A → Option (System A)
  closer_flag not_closing s = some (record s { queue = close s.queue; closer = flag_set })
  closer_flag _ s = none

  closer_notify : Closer → System A → Option (System A)
  closer_notify flag_set s = some (record s { consumer = woken s.consumer; closer = notified })
  closer_notify _ s = none

  notify_step : ℕ → System A → Option (System A)
  notify_step zero s = none
  notify_step (suc owed) s = some (record s { consumer = woken s.consumer; owed = owed })

  -- One step of one thread; `none` if that thread has none to make.
  pub step : Action A → System A → Option (System A)
  unfolding consumer_step closer_flag closer_notify notify_step
  step consume s = consumer_step s.consumer s
  step set_flag s = closer_flag s.closer s
  step notify_all s = closer_notify s.closer s
  step notify_one s = notify_step s.owed s
  step (pushes a) s =
      if locked s.consumer
      then none
      else some (record s { queue = (push a s.queue).0; owed = suc s.owed })

  pub run : List (Action A) → System A → Option (System A)
  run [] s = some s
  run (act ∷ acts) s = elim (step act s) [ none ↦ none | some t ↦ run acts t ]

  -- A consumer that begins a call.
  pub start : Queue A → System A
  start q = record { queue = q; consumer = at_head; closer = not_closing; owed = 0 }

  abbrev pub IsQuiet : Action A → Type 0
  IsQuiet (pushes a) = ⊥
  IsQuiet _ = Unit

  -- The queue is closed, the call of `close` is over, and the consumer waits.
  pub record IsLost (s : System A) : Type ℓ where
    pub closed : s.queue.closed ≡ true
    pub closing_over : s.closer ≡ notified
    pub still_waiting : s.consumer ≡ waiting
    pub nothing_owed : s.owed ≡ 0

  lost_stays : (s : System A) → IsLost s → (act : Action A) → IsQuiet act → step act s ≡ none
  unfolding step
  lost_stays s l consume h = rw (l.still_waiting) refl
  lost_stays s l set_flag h = rw (l.closing_over) refl
  lost_stays s l notify_all h = rw (l.closing_over) refl
  lost_stays s l notify_one h = rw (l.nothing_owed) refl
  lost_stays s l (pushes a) h = absurd h

  abbrev pub missed_schedule : List (Action A)
  missed_schedule = consume ∷ set_flag ∷ notify_all ∷ consume ∷ []

  -- On an empty open queue a consumer that has tested `closed` and not yet begun to wait misses the whole
  -- of `close`: it then waits, though the queue is closed, and without a further push neither it nor any
  -- other thread has a step to make.
  pub close_misses_consumer :
      (q : Queue A)
      → q.items ≡ []
      → q.closed ≡ false
      → (s : System A) × (run missed_schedule (start q) ≡ some s)
        × IsLost s
        × ((act : Action A) → IsQuiet act → step act s ≡ none)
  unfolding step run start close
  close_misses_consumer q empty open_queue =
      let s : System A = record {
        queue = close q;
        consumer = waiting;
        closer = notified;
        owed = 0;
      } in
      let lost : IsLost s = record {
        closed = refl;
        closing_over = refl;
        still_waiting = refl;
        nothing_owed = refl;
      } in
      (s, rw (empty, open_queue) refl, lost, lost_stays s lost)

  -- What `pop_blocking` finds in a closed queue.
  abbrev pub first : List A → Option A
  first [] = none
  first (a ∷ items) = some a

  -- Some pushes, with their notifications still to come.
  pushes_run :
      (more : List A) (rest : List (Action A)) (s : System A)
      → locked s.consumer ≡ false
      → run (map pushes more ++ rest) s
        ≡ run rest (record s { queue = push_all more s.queue; owed = length more + s.owed })
  unfolding run step push_all
  pushes_run [] rest s free =
      let counted : s.owed ≡ 0 + s.owed = omega arith in
      ap (λ owed. run rest (record s { owed = owed })) counted
  pushes_run (a ∷ more) rest s free =
      let counted : length more + suc s.owed ≡ suc (length more) + s.owed = omega arith in
      rw (run, free)
        (pushes_run more rest (record s { queue = (push a s.queue).0; owed = suc s.owed }) free
          ∙ ap
              (λ owed.
                run rest (record s { queue = push_all more (push a s.queue).0; owed = owed }))
              counted)

  closed_turn :
      (items : List A) (s : System A)
      → s.queue.items ≡ items
      → s.queue.closed ≡ true
      → (take_front items s).consumer ≡ returned (first items)
  unfolding take_front
  closed_turn [] s same closed = rw closed refl
  closed_turn (a ∷ items) s same closed = refl

  closed-push_all : (more : List A) (q : Queue A) → (push_all more q).closed ≡ q.closed
  unfolding push_all push
  closed-push_all [] q = refl
  closed-push_all (a ∷ more) q = closed-push_all more (push a q).0 ∙ ground arith

  -- A consumer that waits when `close` begins, and that nothing wakes before its notification, is woken by
  -- that: whatever is pushed between the two steps of `close`, its next turn returns the front of the queue,
  -- or `None` if it is empty.
  pub close_wakes_waiting :
      (s : System A) (more : List A)
      → s.consumer ≡ waiting
      → s.closer ≡ not_closing
      → (t : System A) × (run (set_flag ∷ (map pushes more ++ (notify_all ∷ consume ∷ []))) s
          ≡ some t)
        × (t.consumer ≡ returned (first (push_all more (close s.queue)).items))
  unfolding step run close
  close_wakes_waiting s more asleep before =
      let q = push_all more (close s.queue) in
      let woken_up : System A = record {
        queue = q;
        consumer = at_head;
        closer = notified;
        owed = length more + s.owed;
      } in
      let closed : q.closed ≡ true = closed-push_all more (close s.queue) in
      let pushed =
        pushes_run more (notify_all ∷ consume ∷ [])
          (record s { queue = close s.queue; closer = flag_set }) (rw asleep refl) in
      (
        take_front q.items woken_up,
        rw before (pushed ∙ rw asleep refl),
        closed_turn q.items woken_up refl closed,
      )
