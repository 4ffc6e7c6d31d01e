-- ===== src/Protocol/RoundTrip.antt =====
-- `decode` of src/protocol.rs reads back what `encode` writes, for the packets that a client may send.
pub mod Fields
pub mod Connect
pub mod Filters
pub mod Publish
pub mod Framing
pub mod Bytes
use blitz_broker.Common.{
  or_three_nibble, ℕ, ◌^◌, ◌<◌, ◌≡◌, refl, List, [], ◌++◌, arith, length, All, IsByte, nat_eq,
  list_eq,
}
use blitz_broker.Outcome.{ok}
use blitz_broker.Slice.{u16_to_be_bytes}
use blitz_broker.Protocol.Packet.{
  pt_connect, pt_publish, pt_puback, pt_subscribe, pt_unsubscribe, pt_pingreq, pt_disconnect,
  MqttPacket, connect, subscribe, unsubscribe, publish, pub_ack, ping_req, disconnect,
}
use blitz_broker.Protocol.Encode.{
  encode, encode_connect, encode_subscribe, encode_unsubscribe, encode_publish, encode_puback,
  connect_body, push_subscriptions, push_filters, publish_flags,
}
use blitz_broker.Protocol.Decode.{decode, decode_body}
use blitz_broker.Protocol.WellFormed.{IsFromClient}
use Connect.{puback_body-IsByte, decode_connect-body, decode_puback-body, connect_body-IsByte}
use Filters.{
  decode_subscribe-body, decode_unsubscribe-body, subscribe_body-IsByte, unsubscribe_body-IsByte,
}
use Publish.{
  publish_body, decode_publish-body, publish_body-IsByte, publish_flags_fields, HasIdFor-le,
}
use Framing.{decode-prepended, decode-header_only}

-- The bytes that the packet has behind its fixed header.
abbrev pub body_of : MqttPacket → List ℕ
body_of (connect p) = connect_body p
body_of (subscribe p) = push_subscriptions p.subscriptions (u16_to_be_bytes p.packet_id)
body_of (unsubscribe p) = push_filters p.topic_filters (u16_to_be_bytes p.packet_id)
body_of (publish p) = publish_body p
body_of (pub_ack p) = u16_to_be_bytes p.packet_id
body_of _ = []

-- A packet that a client may send, with fewer than 2 ^ 28 bytes behind its header, decodes from its
-- encoding to itself, whatever bytes follow, and takes the length of the encoding.
pub decode-encode_packet :
    (packet : MqttPacket) (rest : List ℕ)
    → IsFromClient packet
    → length (body_of packet) < 2 ^ 28
    → All IsByte rest
    → decode (encode packet ++ rest) ≡ ok (packet, length (encode packet))
unfolding encode encode_connect encode_subscribe encode_unsubscribe encode_publish encode_puback
    decode_body
decode-encode_packet (connect p) rest h small hb =
    decode-prepended pt_connect 0 (connect_body p) rest (connect p) (omega arith) (omega arith) refl
      (connect_body-IsByte p h) hb small (rw (decode_connect-body p h) refl)
decode-encode_packet (subscribe p) rest h small hb =
    decode-prepended pt_subscribe 2 (body_of (subscribe p)) rest (subscribe p) (omega arith)
      (omega arith) refl (subscribe_body-IsByte p h) hb small (rw (decode_subscribe-body p h) refl)
decode-encode_packet (unsubscribe p) rest h small hb =
    decode-prepended pt_unsubscribe 2 (body_of (unsubscribe p)) rest (unsubscribe p) (omega arith)
      (omega arith) refl (unsubscribe_body-IsByte p h) hb small
      (rw (decode_unsubscribe-body p h) refl)
decode-encode_packet (publish p) rest h small hb =
    let (_, _, flags) = publish_flags_fields p.qos p.retain (HasIdFor-le p.qos p.packet_id h.4) in
    decode-prepended pt_publish (publish_flags p.qos p.retain) (publish_body p) rest (publish p)
      (omega arith) flags (or_three_nibble _ flags) (publish_body-IsByte p h) hb small
      (rw (decode_publish-body p h) refl)
decode-encode_packet (pub_ack p) rest h small hb =
    decode-prepended pt_puback 0 (u16_to_be_bytes p.packet_id) rest (pub_ack p) (omega arith)
      (omega arith) refl (puback_body-IsByte p h) hb small (rw (decode_puback-body p h) refl)
decode-encode_packet ping_req rest h small hb =
    decode-header_only pt_pingreq rest ping_req (omega arith) hb refl
decode-encode_packet disconnect rest h small hb =
    decode-header_only pt_disconnect rest disconnect (omega arith) hb refl
decode-encode_packet _ rest h small hb = absurd h
