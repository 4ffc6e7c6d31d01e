-- ===== src/Connection/Threads/Delivery.antt =====
-- What the writer's thread of src/connection.rs has written, whatever the order in which the threads go on.
use mathlib.Core.Path.{subst}
use mathlib.Core.List.{Sublistᴰ}
use blitz_broker.Common.{
  ℕ, take, Option, ◌&&◌, ◌≤◌, ◌⊎◌, ◌<◌, ltb, ltb→lt, tests, Option-cases, [], Bool-cases, inl, inr,
  some, refl, ◌≡◌, List, ◌∷◌, ◌++◌, arith, length, nat_eq, list_eq,
}
use blitz_broker.Queue.{close, pop, new}
use blitz_broker.Queue.Order.{IsBounded-new}
use blitz_broker.Broker.{default_client_queue_capacity, OutboundEvent}
use blitz_broker.Connection.{Effect, to_broker, to_client, close_outbound, writer_loop}
use blitz_broker.Connection.Threads.{
  Act, reads, delivers, writes, step, run, start, do_effect, writer_step, reader_step, finished,
  writing, broken, Line, Writer, push_event, about_to_wait, waiting, wakes, wake_step, is_push,
  locks,
}
use blitz_broker.Connection.Threads.Flows.{
  Flows, push_event-Flows, popped-Flows, turned-Flows, woken-broken,
}

writer_step-Flows :
    (w : Writer) (fails : Option ℕ) (l l' : Line)
    → l.writer ≡ w
    → Flows l
    → writer_step w fails l ≡ some l'
    → Flows l'
unfolding pop
writer_step-Flows writing fails l l' same f e = popped-Flows fails l.queue.items l l' refl same f e
writer_step-Flows about_to_wait fails l l' same f e =
    let to : record l { writer = waiting } ≡ l' = cc in
    subst Flows to (turned-Flows l _ f refl refl refl refl (λ failed. cc))
writer_step-Flows waiting fails l l' same f e = absurd (cc)
writer_step-Flows finished fails l l' same f e = absurd (cc)
writer_step-Flows broken fails l l' same f e = absurd (cc)

wake_step-Flows :
    (w : Writer) (l l' : Line) → l.writer ≡ w → Flows l → wake_step w l ≡ some l' → Flows l'
wake_step-Flows writing l l' same f e = absurd (cc)
wake_step-Flows about_to_wait l l' same f e = absurd (cc)
wake_step-Flows waiting l l' same f e =
    let to : record l { writer = writing } ≡ l' = cc in
    subst Flows to (turned-Flows l _ f refl refl refl refl (λ failed. cc))
wake_step-Flows finished l l' same f e = absurd (cc)
wake_step-Flows broken l l' same f e = absurd (cc)

do_effect-Flows : (effect : Effect) (l : Line) → Flows l → Flows (do_effect effect l)
unfolding close
do_effect-Flows (to_broker msg) l f = turned-Flows l _ f refl refl refl refl (λ failed. failed)
do_effect-Flows (to_client event) l f = push_event-Flows event l f
do_effect-Flows close_outbound l f = turned-Flows l _ f refl refl refl refl (woken-broken l.writer)

reader_step-Flows :
    (effects : List Effect) (l l' : Line) → Flows l → reader_step effects l ≡ some l' → Flows l'
reader_step-Flows [] l l' f e = absurd (cc)
reader_step-Flows (effect ∷ effects) l l' f e =
    elim (Bool-cases (is_push effect && locks l.writer)) [
      | inl blocked ↦ absurd (cc (rw blocked at e))
      | inr free ↦
          let to : do_effect effect (record l { to_do = effects }) ≡ l' = cc (rw free at e) in
          subst Flows to (
            do_effect-Flows effect (record l { to_do = effects })
              (turned-Flows l _ f refl refl refl refl (λ failed. failed)))
    ]

step-Flows : (act : Act) (l l' : Line) → Flows l → step act l ≡ some l' → Flows l'
unfolding step
step-Flows reads l l' f e = reader_step-Flows l.to_do l l' f e
step-Flows wakes l l' f e = wake_step-Flows l.writer l l' refl f e
step-Flows (delivers event) l l' f e = elim (Bool-cases (locks l.writer)) [
  | inl blocked ↦ absurd (cc (rw blocked at e))
  | inr free ↦
      let to : push_event event l ≡ l' = cc (rw free at e) in
      subst Flows to (push_event-Flows event l f)
]
step-Flows (writes fails) l l' f e = writer_step-Flows l.writer fails l l' refl f e

-- A property that every step keeps is kept by a run.
pub run_keeps {ℓ} :
    (P : Line → Type ℓ)
    → ((act : Act) (l l' : Line) → P l → step act l ≡ some l' → P l')
    → (acts : List Act) (l l' : Line) → P l
    → run acts l ≡ some l'
    → P l'
unfolding run
run_keeps P keep [] l l' h e = subst P (cc) h
run_keeps P keep (act ∷ acts) l l' h e = elim (Option-cases (step act l)) [
  | inl stuck ↦ absurd (cc (rw stuck at e))
  | inr (next, there) ↦ run_keeps P keep acts next l' (keep act l next h there) (rw there at e)
]

start-Flows : (effects : List Effect) → Flows (start effects)
unfolding writer_loop new
start-Flows effects = record {
  sent = [];
  cut = [];
  torn = 0;
  as_written = refl;
  one_cut = omega arith;
  cut_last = inl refl;
  in_order = Sublistᴰ.slnil;
  all_there = λ few. refl;
  bounded = IsBounded-new default_client_queue_capacity (omega arith);
  capacity = refl;
}

-- In whatever order the threads of a connection go on, and whichever write fails, with whatever part of its
-- packet written: the bytes written are whole packets, and, if a write has failed, a first part of one more.
-- These are the packets of events that were pushed, in the order of the pushes and each once, before all that
-- the queue still holds. None is missing, unless more than 128 events were pushed.
pub run-delivers :
    (effects : List Effect) (acts : List Act) (l : Line)
    → run acts (start effects) ≡ some l
    → (sent : List OutboundEvent) × (cut : List OutboundEvent) × (torn : ℕ) × (l.wire
        ≡ writer_loop sent ++ take torn (writer_loop cut))
      × (length cut ≤ 1)
      × ((cut ≡ []) ⊎ (l.writer ≡ broken))
      × Sublistᴰ ((sent ++ cut) ++ l.queue.items) l.pushed
      × ((128 < length l.pushed) ⊎ ((sent ++ cut) ++ l.queue.items ≡ l.pushed))
run-delivers effects acts l e =
    let f = run_keeps Flows step-Flows acts (start effects) l (start-Flows effects) e in
    (
      f.sent,
      f.cut,
      f.torn,
      f.as_written,
      f.one_cut,
      f.cut_last,
      f.in_order,
      elim (Bool-cases (ltb 128 (length l.pushed))) [
        | inl many ↦ inl (ltb→lt 128 (length l.pushed) many)
        | inr few ↦ inr (f.all_there (omega tests))
      ],
    )
