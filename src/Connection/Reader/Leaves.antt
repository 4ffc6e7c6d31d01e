-- ===== src/Connection/Reader/Leaves.antt =====
-- The reader of src/connection.rs on the packets of a client that takes its leave.
use blitz_broker.Common.{
  ℕ, suc, ◌≡◌, refl, List, [], ◌∷◌, ◌++◌, arith, length, All, length-append, All-append, IsByte,
  nat_eq, list_eq,
}
use blitz_broker.Outcome.{ok}
use blitz_broker.Protocol.Packet.{MqttPacket, disconnect}
use blitz_broker.Protocol.Encode.{encode, encode_fixed_header_only}
use blitz_broker.Protocol.RoundTrip.{decode-encode_packet}
use blitz_broker.Broker.{ConnectionId, QueueHandle}
use blitz_broker.Connection.{closed, dispatch_packet, tear_down, reader_loop}
use blitz_broker.Connection.Reader.{Drains, leaves, Drains-drain, Drains-waiting}
use blitz_broker.Connection.Reader.Packets.{IsSent, wire, wire-IsByte, wire-Drains, dispatch_each}

pub disconnect-IsByte : All IsByte (encode disconnect)
unfolding encode encode_fixed_header_only
disconnect-IsByte = (omega arith, (omega arith, tt))

disconnect-Drains :
    (id : ConnectionId) (outbound : QueueHandle) (more : List ℕ)
    → All IsByte more
    → Drains id outbound (encode disconnect ++ more) (tear_down id) closed
unfolding dispatch_packet
disconnect-Drains id outbound more hb =
    leaves (decode-encode_packet disconnect more tt (omega arith) hb) refl
      (omega (arith, length-append (encode disconnect) more))

-- The reader of a connection on which a client sends packets and then a DISCONNECT dispatches the packets,
-- each once and in their order, and tears the connection down. What the client sends behind the DISCONNECT
-- has no effect.
pub reader_leaves :
    (id : ConnectionId) (outbound : QueueHandle) (packets : List MqttPacket) (more : List ℕ)
    → All IsSent packets
    → All IsByte more
    → reader_loop id outbound [] ((wire packets ++ (encode disconnect ++ more)) ∷ [])
      ≡ ok (dispatch_each id outbound packets ++ tear_down id)
unfolding reader_loop
reader_leaves id outbound packets more h hb =
    let last = encode disconnect ++ more in
    let whole =
      Drains-waiting id outbound last (wire-Drains id outbound packets h) refl
        (wire-IsByte packets h) (All-append IsByte (encode disconnect) more disconnect-IsByte hb)
        (disconnect-Drains id outbound more hb) in
    rw (Drains-drain id outbound (suc (length (wire packets ++ last))) (omega arith) whole) refl
