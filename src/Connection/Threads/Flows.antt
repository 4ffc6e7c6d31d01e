-- ===== src/Connection/Threads/Flows.antt =====
-- Which events the writer of src/connection.rs has written, one event and one turn at a time.
use mathlib.Core.Path.{subst}
use mathlib.Core.List.{Sublistᴰ}
use mathlib.Core.List.Sublistᴰ
use blitz_broker.Common.{
  zero, suc, ℕ, take, Option, none, ◌⊎◌, append-nil, [], Bool-cases, inl, inr, some, ap, sym, ◌∙◌,
  refl, length-append, ◌+◌, ◌≤◌, ◌≡◌, List, ◌∷◌, ◌++◌, append_assoc, arith, length, nat_eq, list_eq,
}
use blitz_broker.Queue.{pop_front}
use blitz_broker.Protocol.Encode.{encode}
use blitz_broker.Protocol.Packet.{MqttPacket}
use blitz_broker.Queue.Order.{capacity-push, IsBounded, push-IsBounded, push_report}
use blitz_broker.Broker.{default_client_queue_capacity, packet_event, OutboundEvent}
use blitz_broker.Connection.{writer_loop}
use blitz_broker.Connection.Threads.{
  write_event, finished, writing, broken, Line, push_event, Writer, woken, about_to_wait, waiting,
}

-- The bytes written are those of the events `sent`, and some first ones of the event whose write failed, if
-- there is one. These, with the events in the queue, are events that were pushed, in the order of the pushes;
-- all of them, if the queue never was full.
pub record Flows (l : Line) : Type 0 where
  pub sent : List OutboundEvent
  pub cut : List OutboundEvent
  pub torn : ℕ
  pub as_written : l.wire ≡ writer_loop sent ++ take torn (writer_loop cut)
  pub one_cut : length cut ≤ 1
  pub cut_last : (cut ≡ []) ⊎ (l.writer ≡ broken)
  pub in_order : Sublistᴰ ((sent ++ cut) ++ l.queue.items) l.pushed
  pub all_there :
      length l.pushed ≤ default_client_queue_capacity → (sent ++ cut) ++ l.queue.items ≡ l.pushed
  pub bounded : IsBounded l.queue
  pub capacity : l.queue.capacity ≡ default_client_queue_capacity

-- A change of the queue's flag, of the writer, if no write has failed, and of what the reader has to do.
pub turned-Flows :
    (l l' : Line)
    → Flows l
    → l'.wire ≡ l.wire
    → l'.queue.items ≡ l.queue.items
    → l'.queue.capacity ≡ l.queue.capacity
    → l'.pushed ≡ l.pushed
    → (l.writer ≡ broken → l'.writer ≡ broken)
    → Flows l'
turned-Flows l l' f wire items capacity pushed writer = record {
  sent = f.sent;
  cut = f.cut;
  torn = f.torn;
  as_written = wire ∙ f.as_written;
  one_cut = f.one_cut;
  cut_last = elim f.cut_last [ inl whole ↦ inl whole | inr failed ↦ inr (writer failed) ];
  in_order = rw (items, pushed) f.in_order;
  all_there = rw (items, pushed) f.all_there;
  bounded = record {
    positive = rw capacity f.bounded.positive;
    fits = rw (capacity, items) f.bounded.fits;
  };
  capacity = capacity ∙ f.capacity;
}

pub woken-broken : (w : Writer) → w ≡ broken → woken w ≡ broken
woken-broken writing e = absurd (cc)
woken-broken about_to_wait e = absurd (cc)
woken-broken waiting e = absurd (cc)
woken-broken finished e = absurd (cc)
woken-broken broken e = refl

pub push_event-Flows : (event : OutboundEvent) (l : Line) → Flows l → Flows (push_event event l)
push_event-Flows event l f = record {
  sent = f.sent;
  cut = f.cut;
  torn = f.torn;
  as_written = f.as_written;
  one_cut = f.one_cut;
  cut_last = elim f.cut_last [
    | inl whole ↦ inl whole
    | inr failed ↦ inr (woken-broken l.writer failed)
  ];
  in_order = elim (push_report event l.queue f.bounded) [
    | inl (room, (_, behind)) ↦
        rw (behind, ← append_assoc (f.sent ++ f.cut) l.queue.items (event ∷ []))
          (Sublistᴰ.append f.in_order (Sublistᴰ.refl (event ∷ [])))
    | inr (full, (oldest, rest, _, front, behind)) ↦
        let kept : Sublistᴰ ((f.sent ++ f.cut) ++ rest) l.pushed =
          Sublistᴰ.trans
            (Sublistᴰ.append (Sublistᴰ.refl (f.sent ++ f.cut))
              (Sublistᴰ.cons {a = oldest} (Sublistᴰ.refl rest)))
            (rw front at f.in_order) in
        rw (behind, ← append_assoc (f.sent ++ f.cut) rest (event ∷ []))
          (Sublistᴰ.append kept (Sublistᴰ.refl (event ∷ [])))
  ];
  all_there = λ few.
      let fewer : length l.pushed + 1 ≤ default_client_queue_capacity =
        omega (arith, few, length-append l.pushed (event ∷ [])) in
      let all = f.all_there (omega (arith, fewer)) in
      elim (push_report event l.queue f.bounded) [
        | inl (room, (_, behind)) ↦
            rw (behind, ← append_assoc (f.sent ++ f.cut) l.queue.items (event ∷ []))
              (ap (λ events. events ++ (event ∷ [])) all)
        | inr (full, _) ↦ absurd (
            omega (
              arith,
              fewer,
              full,
              f.capacity,
              length-append (f.sent ++ f.cut) l.queue.items,
              ap length all,
            ))
      ];
  bounded = push-IsBounded event l.queue f.bounded;
  capacity = capacity-push event l.queue ∙ f.capacity;
}

writer_loop-append :
    (a b : List OutboundEvent) → writer_loop (a ++ b) ≡ writer_loop a ++ writer_loop b
unfolding writer_loop
writer_loop-append [] b = refl
writer_loop-append (packet_event p ∷ a) b =
    rw (writer_loop-append a b) (sym (append_assoc (encode p) (writer_loop a) (writer_loop b)))

-- At the head of its loop no write of the writer has failed.
no_cut : (l : Line) → l.writer ≡ writing → (f : Flows l) → f.cut ≡ []
no_cut l at_work f = elim f.cut_last [ inl whole ↦ whole | inr failed ↦ absurd (cc) ]

take-nil : (n : ℕ) → take {A = ℕ} n [] ≡ []
take-nil zero = refl
take-nil (suc n) = refl

module _ (l : Line) (p : MqttPacket) (rest : List OutboundEvent) where
  abbrev the_event : List OutboundEvent
  the_event = packet_event p ∷ []

  taken :
      (f : Flows l)
      → l.writer ≡ writing
      → l.queue.items ≡ packet_event p ∷ rest
      → (f.sent ++ the_event) ++ rest ≡ (f.sent ++ f.cut) ++ l.queue.items
  taken f at_work same =
      append_assoc f.sent the_event rest
      ∙ rw (no_cut l at_work f, append-nil) (ap (λ items. f.sent ++ items) (sym same))

  wire_before : (f : Flows l) → l.writer ≡ writing → l.wire ≡ writer_loop f.sent
  unfolding writer_loop
  wire_before f at_work =
      f.as_written
      ∙ ap (λ cut. writer_loop f.sent ++ take f.torn (writer_loop cut)) (no_cut l at_work f)
      ∙ rw take-nil (append-nil (writer_loop f.sent))

  failed-Flows :
      (n : ℕ)
      → Flows l
      → l.writer ≡ writing
      → l.queue.items ≡ packet_event p ∷ rest
      → Flows (record l {
        queue = record (l.queue) { items = rest };
        writer = broken;
        wire = l.wire ++ take n (encode p);
      })
  unfolding writer_loop
  failed-Flows n f at_work same =
      let shift = taken f at_work same in
      record {
        sent = f.sent;
        cut = the_event;
        torn = n;
        as_written = rw (wire_before f at_work, append-nil) refl;
        one_cut = omega arith;
        cut_last = inr refl;
        in_order = rw shift f.in_order;
        all_there = λ few. shift ∙ f.all_there few;
        bounded = record {
          positive = f.bounded.positive;
          fits = omega (arith, f.bounded.fits, ap length same);
        };
        capacity = f.capacity;
      }

  written-Flows :
      Flows l
      → l.writer ≡ writing
      → l.queue.items ≡ packet_event p ∷ rest
      → Flows (record l { queue = record (l.queue) { items = rest }; wire = l.wire ++ encode p })
  unfolding writer_loop
  written-Flows f at_work same =
      let shift : ((f.sent ++ the_event) ++ []) ++ rest ≡ (f.sent ++ f.cut) ++ l.queue.items =
        ap (λ events. events ++ rest) (append-nil (f.sent ++ the_event)) ∙ taken f at_work same in
      record {
        sent = f.sent ++ the_event;
        cut = [];
        torn = 0;
        as_written =
            rw (writer_loop-append f.sent the_event, wire_before f at_work, append-nil, append-nil)
              refl;
        one_cut = omega arith;
        cut_last = inl refl;
        in_order = rw shift f.in_order;
        all_there = λ few. shift ∙ f.all_there few;
        bounded = record {
          positive = f.bounded.positive;
          fits = omega (arith, f.bounded.fits, ap length same);
        };
        capacity = f.capacity;
      }

pub popped-Flows :
    (fails : Option ℕ) (items : List OutboundEvent) (l l' : Line)
    → l.queue.items ≡ items
    → l.writer ≡ writing
    → Flows l
    → write_event fails
        (pop_front items l.queue).0
        (record l { queue = (pop_front items l.queue).1 })
      ≡ some l'
    → Flows l'
unfolding pop_front
popped-Flows fails [] l l' same at_work f e = elim (Bool-cases l.queue.closed) [
  | inl closed ↦
      let to : record l { queue = l.queue; writer = finished } ≡ l' = cc (rw closed at e) in
      subst Flows to (turned-Flows l _ f refl refl refl refl (λ failed. cc))
  | inr open_yet ↦
      let to : record l { queue = l.queue; writer = about_to_wait } ≡ l' = cc (rw open_yet at e) in
      subst Flows to (turned-Flows l _ f refl refl refl refl (λ failed. cc))
]
popped-Flows (some n) (packet_event p ∷ rest) l l' same at_work f e =
    let to : record l {
      queue = record (l.queue) { items = rest };
      writer = broken;
      wire = l.wire ++ take n (encode p);
    }
        ≡ l' =
      cc in
    subst Flows to (failed-Flows l p rest n f at_work same)
popped-Flows none (packet_event p ∷ rest) l l' same at_work f e =
    let to : record l { queue = record (l.queue) { items = rest }; wire = l.wire ++ encode p }
        ≡ l' =
      cc in
    subst Flows to (written-Flows l p rest f at_work same)
