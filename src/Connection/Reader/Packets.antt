-- ===== src/Connection/Reader/Packets.antt =====
-- The reader of src/connection.rs on the bytes of whole packets.
use blitz_broker.Common.{
  ℕ, suc, ◌^◌, ◌<◌, ◌≡◌, refl, ◌∙◌, true, List, [], ◌∷◌, ◌++◌, arith, length, All,
  drop-append_length, All-append, IsByte, nat_eq, list_eq,
}
use blitz_broker.Error.{incomplete}
use blitz_broker.Outcome.{ok, err}
use blitz_broker.Protocol.Packet.{MqttPacket}
use blitz_broker.Protocol.Encode.{encode}
use blitz_broker.Protocol.Decode.{decode}
use blitz_broker.Protocol.WellFormed.{IsFromClient}
use blitz_broker.Protocol.Settles.{decode-Returns}
use blitz_broker.Protocol.RoundTrip.{body_of, decode-encode_packet}
use blitz_broker.Protocol.RoundTrip.Bytes.{encode_packet-IsByte}
use blitz_broker.Broker.{ConnectionId, QueueHandle}
use blitz_broker.Connection.{Effect, waiting, dispatch_packet, tear_down, reader_loop}
use blitz_broker.Connection.Answers.{stays_open, dispatch_answers}
use blitz_broker.Connection.Reader.{Drains, waits, goes_on, Drains-drain}
use blitz_broker.Outcome.{Returns-ok}

-- A packet that a client may send, other than DISCONNECT, with fewer than 2 ^ 28 bytes behind its header.
pub record IsSent (p : MqttPacket) : Type 0 where
  pub from_client : IsFromClient p
  pub not_last : stays_open p ≡ true
  pub small : length (body_of p) < 2 ^ 28

abbrev pub wire : List MqttPacket → List ℕ
wire [] = []
wire (p ∷ packets) = encode p ++ wire packets

-- What the packets do, one after another.
abbrev pub dispatch_each : ConnectionId → QueueHandle → List MqttPacket → List Effect
dispatch_each id outbound [] = []
dispatch_each id outbound (p ∷ packets) =
    (dispatch_packet id outbound p).0 ++ dispatch_each id outbound packets

pub wire-IsByte : (packets : List MqttPacket) → All IsSent packets → All IsByte (wire packets)
wire-IsByte [] h = tt
wire-IsByte (p ∷ packets) h =
    All-append IsByte (encode p) (wire packets) (encode_packet-IsByte p h.0.from_client h.0.small)
      (wire-IsByte packets h.1)

decode_nothing : decode [] ≡ err incomplete
unfolding decode
decode_nothing = refl

pub wire-Drains :
    (id : ConnectionId) (outbound : QueueHandle) (packets : List MqttPacket)
    → All IsSent packets
    → Drains id outbound (wire packets) (dispatch_each id outbound packets) (waiting [])
wire-Drains id outbound [] h = waits decode_nothing
wire-Drains id outbound (p ∷ packets) h =
    let later = wire-IsByte packets h.1 in
    let decoded = decode-encode_packet p (wire packets) h.0.from_client h.0.small later in
    let whole =
      All-append IsByte (encode p) (wire packets) (encode_packet-IsByte p h.0.from_client h.0.small)
        later in
    let (_, at_least, fits) =
      Returns-ok (decode-Returns (encode p ++ wire packets) whole) decoded in
    let (_, _, stays) = dispatch_answers id outbound p h.0.from_client in
    goes_on decoded (stays ∙ h.0.not_last) (omega (arith, at_least)) fits
      (rw (drop-append_length (encode p) (wire packets)) (wire-Drains id outbound packets h.1))

-- The reader of a connection on which a client sends packets, none a DISCONNECT, before it closes its end
-- dispatches these packets, each once and in their order, and then tears the connection down.
pub reader_dispatches :
    (id : ConnectionId) (outbound : QueueHandle) (packets : List MqttPacket)
    → All IsSent packets
    → reader_loop id outbound [] (wire packets ∷ [])
      ≡ ok (dispatch_each id outbound packets ++ tear_down id)
unfolding reader_loop
reader_dispatches id outbound packets h =
    rw
      (Drains-drain id outbound (suc (length (wire packets))) (omega arith)
        (wire-Drains id outbound packets h))
      refl
