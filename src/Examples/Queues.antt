-- ===== src/Examples/Queues.antt =====
-- The queue of src/queue.rs with concrete entries.
use blitz_broker.Common.{
  ◌++◌, map, List, ℕ, ◌≡◌, refl, false, none, some, [], ◌∷◌, arith, nat_eq, list_eq,
}
use blitz_broker.Queue.{close, Queue, push_all}
use blitz_broker.Queue.Order.{keep_last, IsBounded, items-push_all}
use blitz_broker.Queue.Wakeup.{
  first, pushes, System, Action, waiting, returned, not_closing, set_flag, notify_all, consume,
  step, run, start, IsQuiet, IsLost, missed_schedule, close_misses_consumer, close_wakes_waiting,
}

abbrev full : Queue ℕ
full = record { items = 1 ∷ 2 ∷ []; capacity = 2; closed = false }

full-IsBounded : IsBounded full
full-IsBounded = record { positive = omega arith; fits = omega arith }

items-push_all_example : (push_all (3 ∷ 4 ∷ []) full).items ≡ keep_last 2 (1 ∷ 2 ∷ 3 ∷ 4 ∷ [])
items-push_all_example = items-push_all (3 ∷ 4 ∷ []) full full-IsBounded

abbrev entries : List ℕ
entries = 1 ∷ 2 ∷ 3 ∷ []

abbrev empty : Queue ℕ
empty = record { items = []; capacity = 2; closed = false }

close_misses_consumer_example :
    (s : System ℕ) × (run missed_schedule (start empty) ≡ some s)
    × IsLost s
    × ((act : Action ℕ) → IsQuiet act → step act s ≡ none)
close_misses_consumer_example = close_misses_consumer empty refl refl

abbrev asleep : System ℕ
asleep = record { queue = empty; consumer = waiting; closer = not_closing; owed = 0 }

close_wakes_waiting_example :
    (t : System ℕ) × (run (set_flag ∷ (map pushes (1 ∷ []) ++ (notify_all ∷ consume ∷ []))) asleep
      ≡ some t)
    × (t.consumer ≡ returned (first (push_all (1 ∷ []) (close empty)).items))
close_wakes_waiting_example = close_wakes_waiting asleep (1 ∷ []) refl refl
