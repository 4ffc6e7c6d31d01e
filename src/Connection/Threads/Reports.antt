-- ===== src/Connection/Threads/Reports.antt =====
-- What the reader of src/connection.rs has told the broker, and that it closes the queue.
use mathlib.Core.Path.{subst}
use blitz_broker.Common.{
  ℕ, take, Option, none, ◌&&◌, true, Bool-cases, ◌≡◌, refl, sym, ◌∙◌, ◌⊎◌, inl, inr, some, List, [],
  ◌∷◌, ◌++◌, append_assoc, arith, nat_eq, list_eq,
}
use blitz_broker.Protocol.Encode.{encode}
use blitz_broker.Connection.{Effect, to_broker, to_client, close_outbound}
use blitz_broker.Queue.{pop_front, pop, Queue, push, close}
use blitz_broker.Broker.{packet_event, OutboundEvent}
use blitz_broker.Connection.Threads.{
  wake_step, is_push, locks, about_to_wait, waiting, wakes, write_event, writer_step, Writer,
  writing, finished, broken, reads, delivers, writes, step, Act, push_event, do_effect, Line,
  reader_step,
}
use blitz_broker.Connection.Answers.{requests}

-- The reader's messages are those of its effects so far, and it has closed the queue, or will as its last act.
pub record Reports (effects : List Effect) (l : Line) : Type 0 where
  pub asked : l.heard ++ requests l.to_do ≡ requests effects
  pub closing :
      (l.queue.closed ≡ true) ⊎ ((front : List Effect) × (l.to_do ≡ front ++ (close_outbound ∷ [])))

closed-push : (event : OutboundEvent) (q : Queue OutboundEvent) → (push event q).0.closed ≡ q.closed
unfolding push
closed-push event q = ground arith

-- An effect that is not the last leaves the last to come.
next_closing :
    (effect : Effect) (effects front : List Effect)
    → effect ∷ effects ≡ front ++ (close_outbound ∷ [])
    → (effect ≡ close_outbound)
      ⊎ ((front' : List Effect) × (effects ≡ front' ++ (close_outbound ∷ [])))
next_closing effect effects [] e = inl (cc)
next_closing effect effects (first ∷ front) e = inr (front, cc)

do_effect-Reports :
    (all effects : List Effect) (effect : Effect) (l : Line)
    → l.to_do ≡ effect ∷ effects
    → Reports all l
    → Reports all (do_effect effect (record l { to_do = effects }))
unfolding close
do_effect-Reports all effects (to_broker msg) l same r = record {
  asked = append_assoc l.heard (msg ∷ []) (requests effects) ∙ rw same at r.asked;
  closing = elim r.closing [
    | inl closed ↦ inl closed
    | inr (front, last) ↦ elim (next_closing (to_broker msg) effects front (sym same ∙ last)) [
      | inl now ↦ absurd (cc)
      | inr later ↦ inr later
    ]
  ];
}
do_effect-Reports all effects (to_client event) l same r = record {
  asked = rw same at r.asked;
  closing = elim r.closing [
    | inl closed ↦ inl (closed-push event l.queue ∙ closed)
    | inr (front, last) ↦ elim (next_closing (to_client event) effects front (sym same ∙ last)) [
      | inl now ↦ absurd (cc)
      | inr later ↦ inr later
    ]
  ];
}
do_effect-Reports all effects close_outbound l same r = record {
  asked = rw same at r.asked;
  closing = inl refl;
}

reader_step-Reports :
    (all effects : List Effect) (l l' : Line)
    → l.to_do ≡ effects
    → Reports all l
    → reader_step effects l ≡ some l'
    → Reports all l'
reader_step-Reports all [] l l' same r e = absurd (cc)
reader_step-Reports all (effect ∷ effects) l l' same r e =
    elim (Bool-cases (is_push effect && locks l.writer)) [
      | inl blocked ↦ absurd (cc (rw blocked at e))
      | inr free ↦
          let to : do_effect effect (record l { to_do = effects }) ≡ l' = cc (rw free at e) in
          subst (Reports all) to (do_effect-Reports all effects effect l same r)
    ]

write_event-Reports :
    (all : List Effect) (fails : Option ℕ) (items : List OutboundEvent) (l l' : Line)
    → Reports all l
    → write_event fails
        (pop_front items l.queue).0
        (record l { queue = (pop_front items l.queue).1 })
      ≡ some l'
    → Reports all l'
unfolding pop_front
write_event-Reports all fails [] l l' r e = elim (Bool-cases l.queue.closed) [
  | inl closed ↦
      let to : record l { queue = l.queue; writer = finished } ≡ l' = cc (rw closed at e) in
      subst (Reports all) to (record { asked = r.asked; closing = r.closing })
  | inr open_yet ↦
      let to : record l { queue = l.queue; writer = about_to_wait } ≡ l' = cc (rw open_yet at e) in
      subst (Reports all) to (record { asked = r.asked; closing = r.closing })
]
write_event-Reports all (some n) (packet_event p ∷ rest) l l' r e =
    let to : record l {
      queue = record (l.queue) { items = rest };
      writer = broken;
      wire = l.wire ++ take n (encode p);
    }
        ≡ l' =
      cc in
    subst (Reports all) to (record { asked = r.asked; closing = r.closing })
write_event-Reports all none (packet_event p ∷ rest) l l' r e =
    let to : record l { queue = record (l.queue) { items = rest }; wire = l.wire ++ encode p }
        ≡ l' =
      cc in
    subst (Reports all) to (record { asked = r.asked; closing = r.closing })

writer_step-Reports :
    (all : List Effect) (w : Writer) (fails : Option ℕ) (l l' : Line)
    → Reports all l
    → writer_step w fails l ≡ some l'
    → Reports all l'
unfolding pop
writer_step-Reports all writing fails l l' r e =
    write_event-Reports all fails l.queue.items l l' r e
writer_step-Reports all about_to_wait fails l l' r e =
    let to : record l { writer = waiting } ≡ l' = cc in
    subst (Reports all) to (record { asked = r.asked; closing = r.closing })
writer_step-Reports all waiting fails l l' r e = absurd (cc)
writer_step-Reports all finished fails l l' r e = absurd (cc)
writer_step-Reports all broken fails l l' r e = absurd (cc)

wake_step-Reports :
    (all : List Effect) (w : Writer) (l l' : Line)
    → Reports all l
    → wake_step w l ≡ some l'
    → Reports all l'
wake_step-Reports all writing l l' r e = absurd (cc)
wake_step-Reports all about_to_wait l l' r e = absurd (cc)
wake_step-Reports all waiting l l' r e =
    let to : record l { writer = writing } ≡ l' = cc in
    subst (Reports all) to (record { asked = r.asked; closing = r.closing })
wake_step-Reports all finished l l' r e = absurd (cc)
wake_step-Reports all broken l l' r e = absurd (cc)

pub step-Reports :
    (all : List Effect) (act : Act) (l l' : Line)
    → Reports all l
    → step act l ≡ some l'
    → Reports all l'
unfolding step
step-Reports all reads l l' r e = reader_step-Reports all l.to_do l l' refl r e
step-Reports all wakes l l' r e = wake_step-Reports all l.writer l l' r e
step-Reports all (delivers event) l l' r e =
    let to : push_event event l ≡ l' = elim (Bool-cases (locks l.writer)) [
      | inl blocked ↦ absurd (cc (rw blocked at e))
      | inr free ↦ cc (rw free at e)
    ] in
    let closing =
      elim r.closing
        as (λ _.
          ((push event l.queue).0.closed ≡ true)
          ⊎ ((front : List Effect) × (l.to_do ≡ front ++ (close_outbound ∷ [])))) [
            | inl closed ↦ inl (closed-push event l.queue ∙ closed)
            | inr later ↦ inr later
          ] in
    subst (Reports all) to (record { asked = r.asked; closing = closing })
step-Reports all (writes fails) l l' r e = writer_step-Reports all l.writer fails l l' r e
