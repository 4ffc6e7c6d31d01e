-- ===== src/Connection/Threads.antt =====
-- src/connection.rs: `handle_connection`, the threads of one connection. The reader's effects happen one by
-- one; between them a shard may push an event, and the writer may pop one and write it. A pass of the loop of
-- `pop_blocking` and the wait behind it are two steps, between which the writer holds the lock of the entries,
-- which a push takes and a close does not. A push and a close wake a writer that waits, and so may nothing at
-- all; a writer that is about to wait misses a close.
pub mod Flows
pub mod Reports
pub mod Delivery
pub mod Ending
use blitz_broker.Common.{
  ℕ, Bool, true, false, Option, none, some, List, [], ◌∷◌, ◌++◌, if◌then◌else◌, ◌&&◌, take, nat_eq,
  list_eq,
}
use blitz_broker.Outcome.{Outcome, ok, ◌>>=◌}
use blitz_broker.Error.{ProtocolError}
use blitz_broker.Protocol.Encode.{encode}
use blitz_broker.Queue.{Queue, Popped, item, ended, waits, new, push, pop, close}
use blitz_broker.Broker.{
  ConnectionId, QueueHandle, BrokerMessage, OutboundEvent, packet_event,
  default_client_queue_capacity,
}
use blitz_broker.Connection.{Effect, to_broker, to_client, close_outbound, reader_loop}

-- The writer's thread: at the head of its loop; in `pop_blocking`, with the queue found empty and open, or in
-- the wait; or behind its loop, at the end of the queue or at a write that failed.
pub data Writer : Type 0 where
  writing about_to_wait waiting finished broken : Writer

-- `to_do` are the effects that the reader has yet to have; `heard` is what it has sent to the broker, in
-- order; `wire` are the bytes written; `pushed` are all the events that were pushed so far, in order.
pub record Line : Type 0 where
  pub to_do : List Effect
  pub heard : List BrokerMessage
  pub queue : Queue OutboundEvent
  pub pushed : List OutboundEvent
  pub writer : Writer
  pub wire : List ℕ

-- What happens next: the reader goes on, a shard pushes an event, a wait ends for nothing, or the writer goes
-- on, where `some n` says that its write fails, once `n` bytes are written.
pub data Act : Type 0 where
  reads wakes : Act
  delivers : OutboundEvent → Act
  writes : Option ℕ → Act

-- A notification.
abbrev pub woken : Writer → Writer
woken waiting = writing
woken w = w

-- Whether the writer holds the lock of the entries between two steps.
abbrev pub locks : Writer → Bool
locks about_to_wait = true
locks w = false

abbrev pub push_event : OutboundEvent → Line → Line
push_event event l = record l {
  queue = (push event l.queue).0;
  pushed = l.pushed ++ (event ∷ []);
  writer = woken l.writer;
}

abbrev pub is_push : Effect → Bool
is_push (to_client event) = true
is_push effect = false

abbrev pub do_effect : Effect → Line → Line
do_effect (to_broker msg) l = record l { heard = l.heard ++ (msg ∷ []) }
do_effect (to_client event) l = push_event event l
do_effect close_outbound l = record l { queue = close l.queue; writer = woken l.writer }

abbrev pub reader_step : List Effect → Line → Option Line
reader_step [] l = none
reader_step (effect ∷ effects) l =
    if is_push effect && locks l.writer
    then none
    else some (do_effect effect (record l { to_do = effects }))

-- A turn of `writer_loop`, on the result of `pop_blocking`.
abbrev pub write_event : Option ℕ → Popped OutboundEvent → Line → Option Line
write_event (some n) (item (packet_event p)) l =
    some (record l { writer = broken; wire = l.wire ++ take n (encode p) })
write_event none (item (packet_event p)) l = some (record l { wire = l.wire ++ encode p })
write_event fails ended l = some (record l { writer = finished })
write_event fails waits l = some (record l { writer = about_to_wait })

abbrev pub writer_step : Writer → Option ℕ → Line → Option Line
writer_step writing fails l =
    write_event fails (pop l.queue).0 (record l { queue = (pop l.queue).1 })
writer_step about_to_wait fails l = some (record l { writer = waiting })
writer_step writer fails l = none

abbrev pub wake_step : Writer → Line → Option Line
wake_step waiting l = some (record l { writer = writing })
wake_step writer l = none

-- One step of one thread; `none` if that thread has none to make.
unfoldable pub step : Act → Line → Option Line
step reads l = reader_step l.to_do l
step wakes l = wake_step l.writer l
step (delivers event) l = if locks l.writer then none else some (push_event event l)
step (writes fails) l = writer_step l.writer fails l

abbrev pub and_then : Option Line → (Line → Option Line) → Option Line
and_then none f = none
and_then (some l) f = f l

unfoldable pub run : List Act → Line → Option Line
run [] l = some l
run (act ∷ acts) l = and_then (step act l) (run acts)

abbrev pub start : List Effect → Line
start effects = record {
  to_do = effects;
  heard = [];
  queue = new default_client_queue_capacity;
  pushed = [];
  writer = writing;
  wire = [];
}

-- The threads at their start; none, if the socket could not be cloned. `outbound` names the queue.
unfoldable pub handle_connection :
    Bool → ConnectionId → QueueHandle → List (List ℕ) → Outcome ProtocolError (Option Line)
handle_connection cloned id outbound chunks =
    if cloned
    then (reader_loop id outbound [] chunks >>= λ effects. ok (some (start effects)))
    else ok none
