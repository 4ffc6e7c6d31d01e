-- ===== src/Protocol/RoundTrip/Bytes.antt =====
-- What `encode` of src/protocol.rs writes are bytes, for the packets that a client may send.
use blitz_broker.Common.{
  or_three_nibble, ℕ, ◌*◌, ◌%◌, ◌^◌, ◌<◌, bit_and, bit_or, List, arith, length, All, All-append,
  IsByte, nat_eq, list_eq,
}
use blitz_broker.Protocol.Packet.{
  pt_connect, pt_publish, pt_puback, pt_subscribe, pt_unsubscribe, MqttPacket, connect, subscribe,
  unsubscribe, publish, pub_ack, ping_req, disconnect, conn_ack, sub_ack, unsub_ack, ping_resp,
}
use blitz_broker.Protocol.Encode.{
  encode, encode_connect, encode_subscribe, encode_unsubscribe, encode_publish, encode_puback,
  encode_fixed_header_only, prepend_fixed_header, publish_flags,
}
use blitz_broker.Protocol.WellFormed.{IsFromClient}
use blitz_broker.Protocol.RemainingLength.RoundTrip.{encode-IsByte}
use blitz_broker.Protocol.RoundTrip.{body_of}
use blitz_broker.Protocol.RoundTrip.Framing.{prepend-framed}
use blitz_broker.Protocol.RoundTrip.Connect.{puback_body-IsByte, connect_body-IsByte}
use blitz_broker.Protocol.RoundTrip.Filters.{subscribe_body-IsByte, unsubscribe_body-IsByte}
use blitz_broker.Protocol.RoundTrip.Publish.{
  publish_body, publish_body-IsByte, publish_flags_fields, HasIdFor-le,
}

prepended-IsByte :
    (packet_type flags : ℕ) (body : List ℕ)
    → IsByte (bit_or (packet_type * 16 % 256) (bit_and flags 0x0f))
    → All IsByte body
    → length body < 2 ^ 28
    → All IsByte (prepend_fixed_header packet_type flags body)
prepended-IsByte packet_type flags body first hb small =
    rw (prepend-framed packet_type flags body small)
      (first, All-append IsByte _ body (encode-IsByte (length body) (omega arith)) hb)

pub encode_packet-IsByte :
    (p : MqttPacket) → IsFromClient p → length (body_of p) < 2 ^ 28 → All IsByte (encode p)
unfolding encode encode_connect encode_subscribe encode_unsubscribe encode_publish encode_puback
    encode_fixed_header_only
encode_packet-IsByte (connect p) h small =
    prepended-IsByte pt_connect 0 _ (omega arith) (connect_body-IsByte p h) small
encode_packet-IsByte (subscribe p) h small =
    prepended-IsByte pt_subscribe 2 _ (omega arith) (subscribe_body-IsByte p h) small
encode_packet-IsByte (unsubscribe p) h small =
    prepended-IsByte pt_unsubscribe 2 _ (omega arith) (unsubscribe_body-IsByte p h) small
encode_packet-IsByte (publish p) h small =
    let (_, _, flags) = publish_flags_fields p.qos p.retain (HasIdFor-le p.qos p.packet_id h.4) in
    let first : IsByte (bit_or 0x30 (bit_and (publish_flags p.qos p.retain) 0x0f)) =
      rw (or_three_nibble _ flags) (omega (arith, flags)) in
    prepended-IsByte pt_publish (publish_flags p.qos p.retain) (publish_body p) first
      (publish_body-IsByte p h) small
encode_packet-IsByte (pub_ack p) h small =
    prepended-IsByte pt_puback 0 _ (omega arith) (puback_body-IsByte p h) small
encode_packet-IsByte ping_req h small = (omega arith, (omega arith, tt))
encode_packet-IsByte disconnect h small = (omega arith, (omega arith, tt))
encode_packet-IsByte (conn_ack p) h small = absurd h
encode_packet-IsByte (sub_ack p) h small = absurd h
encode_packet-IsByte (unsub_ack p) h small = absurd h
encode_packet-IsByte ping_resp h small = absurd h
