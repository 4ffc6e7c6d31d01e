-- ===== src/Examples/Threads.antt =====
-- The threads of a connection of src/connection.rs, on a PINGREQ and a DISCONNECT.
use blitz_broker.Common.{
  ℕ, ◌≤◌, take, none, ◌<◌, ◌≡◌, refl, ◌⊎◌, true, some, List, [], ◌∷◌, ◌++◌, length, nat_eq, list_eq,
}
use mathlib.Core.List.{Sublistᴰ}
use blitz_broker.Protocol.Packet.{ping_resp}
use blitz_broker.Protocol.Encode.{encode, encode_fixed_header_only}
use blitz_broker.Connection.{Effect, push_packet, tear_down, writer_loop}
use blitz_broker.Broker.{OutboundEvent, packet_event, disconnect_client}
use blitz_broker.Connection.Threads.{Line, Act, reads, writes, broken, waiting, run, start}
use blitz_broker.Connection.Threads.Delivery.{run-delivers}

abbrev effects : List Effect
effects = push_packet ping_resp ∷ tear_down 1

abbrev order : List Act
order = reads ∷ reads ∷ reads ∷ []

abbrev pushed : List OutboundEvent
pushed = packet_event ping_resp ∷ []

abbrev through : Line
through = record (start []) {
  heard = disconnect_client 1 ∷ [];
  queue = record { items = pushed; capacity = 128; closed = true };
  pushed = pushed;
}

ran : run order (start effects) ≡ some through
unfolding run blitz_broker.Connection.Threads.step blitz_broker.Queue.push blitz_broker.Queue.new
    blitz_broker.Queue.close
ran = refl

run-delivers_example :
    (sent : List OutboundEvent) × (cut : List OutboundEvent) × (torn : ℕ) × (through.wire
      ≡ writer_loop sent ++ take torn (writer_loop cut))
    × (length cut ≤ 1)
    × ((cut ≡ []) ⊎ (through.writer ≡ broken))
    × Sublistᴰ ((sent ++ cut) ++ through.queue.items) through.pushed
    × ((128 < length through.pushed) ⊎ ((sent ++ cut) ++ through.queue.items ≡ through.pushed))
run-delivers_example = run-delivers effects order through ran

-- A writer that found the queue empty, and is about to wait, misses the close, and then waits for good.
missed :
    run (writes none ∷ reads ∷ reads ∷ writes none ∷ []) (start (tear_down 1))
    ≡ some (record (start []) {
      heard = disconnect_client 1 ∷ [];
      queue = record { items = []; capacity = 128; closed = true };
      writer = waiting;
    })
unfolding run blitz_broker.Connection.Threads.step blitz_broker.Queue.pop
    blitz_broker.Queue.pop_front blitz_broker.Queue.new blitz_broker.Queue.close
missed = refl

-- A write that fails leaves a part of its packet.
torn_packet :
    run (writes (some 1) ∷ []) through
    ≡ some (record through {
      queue = record { items = []; capacity = 128; closed = true };
      writer = broken;
      wire = 0xd0 ∷ [];
    })
unfolding run blitz_broker.Connection.Threads.step blitz_broker.Queue.pop
    blitz_broker.Queue.pop_front encode encode_fixed_header_only
torn_packet = refl
