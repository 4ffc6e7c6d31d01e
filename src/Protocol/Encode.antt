-- ===== src/Protocol/Encode.antt =====
-- `encode` of src/protocol.rs and the encoders that it calls.
use blitz_broker.Common.{
  Bool, ℕ, ◌*◌, ◌%◌, ◌^◌, bit_and, bit_or, Option, none, some, List, [], ◌∷◌, ◌++◌, if◌then◌else◌,
  length, nat_eq, list_eq,
}
use blitz_broker.Slice.{u16_to_be_bytes}
use blitz_broker.Protocol.RemainingLength.{encode_remaining_length}
use blitz_broker.Protocol.Utf8.{encode_utf8_string}
use blitz_broker.Protocol.Packet.{
  Str, ConnectPacket, ConnAckPacket, SubscribePacket, SubAckPacket, UnsubscribePacket,
  UnsubAckPacket, PublishPacket, PubAckPacket, MqttPacket, return_code_byte, connect, conn_ack,
  subscribe, sub_ack, unsubscribe, unsub_ack, publish, pub_ack, ping_req, ping_resp, disconnect,
  pt_connect, pt_connack, pt_publish, pt_puback, pt_subscribe, pt_suback, pt_unsubscribe,
  pt_unsuback, pt_pingreq, pt_pingresp, pt_disconnect,
}

-- `packet_type << 4` on a `u8`
abbrev high_nibble : ℕ → ℕ
high_nibble packet_type = packet_type * 16 % 256

unfoldable pub encode_fixed_header_only : ℕ → List ℕ
encode_fixed_header_only packet_type = high_nibble packet_type ∷ 0x00 ∷ []

-- `body.len() as u32` keeps the low 32 bits.
unfoldable pub prepend_fixed_header : ℕ → ℕ → List ℕ → List ℕ
prepend_fixed_header packet_type flags body =
    bit_or (high_nibble packet_type) (bit_and flags 0x0f)
    ∷ (encode_remaining_length (length body % 2 ^ 32) ++ body)

unfoldable pub connect_body : ConnectPacket → List ℕ
connect_body p =
    let flags = if p.clean_session then bit_or 0 0x02 else 0 in
    encode_utf8_string p.client_id (
      (encode_utf8_string p.protocol_name [] ++ (p.protocol_level ∷ flags ∷ []))
      ++ u16_to_be_bytes p.keep_alive_secs)

unfoldable pub encode_connect : ConnectPacket → List ℕ
encode_connect p = prepend_fixed_header pt_connect 0 (connect_body p)

unfoldable pub encode_connack : ConnAckPacket → List ℕ
encode_connack p =
    prepend_fixed_header pt_connack 0
      ((if p.session_present then 0x01 else 0x00) ∷ return_code_byte p.return_code ∷ [])

-- The loop over `&p.subscriptions`.
unfoldable pub push_subscriptions : List (Str × ℕ) → List ℕ → List ℕ
push_subscriptions [] body = body
push_subscriptions ((topic, qos) ∷ subs) body =
    push_subscriptions subs (encode_utf8_string topic body ++ (qos ∷ []))

unfoldable pub encode_subscribe : SubscribePacket → List ℕ
encode_subscribe p =
    prepend_fixed_header pt_subscribe 0b0010
      (push_subscriptions p.subscriptions (u16_to_be_bytes p.packet_id))

unfoldable pub encode_suback : SubAckPacket → List ℕ
encode_suback p = prepend_fixed_header pt_suback 0 (u16_to_be_bytes p.packet_id ++ p.return_codes)

-- The loop over `&p.topic_filters`.
unfoldable pub push_filters : List Str → List ℕ → List ℕ
push_filters [] body = body
push_filters (topic ∷ topics) body = push_filters topics (encode_utf8_string topic body)

unfoldable pub encode_unsubscribe : UnsubscribePacket → List ℕ
encode_unsubscribe p =
    prepend_fixed_header pt_unsubscribe 0b0010
      (push_filters p.topic_filters (u16_to_be_bytes p.packet_id))

unfoldable pub encode_unsuback : UnsubAckPacket → List ℕ
encode_unsuback p = prepend_fixed_header pt_unsuback 0 (u16_to_be_bytes p.packet_id)

abbrev pub packet_id_bytes : Option ℕ → List ℕ
packet_id_bytes none = []
packet_id_bytes (some id) = u16_to_be_bytes id

unfoldable pub publish_flags : ℕ → Bool → ℕ
publish_flags qos retain =
    let flags = bit_and qos 0x03 * 2 % 256 in if retain then bit_or flags 0x01 else flags

unfoldable pub encode_publish : PublishPacket → List ℕ
encode_publish p =
    prepend_fixed_header pt_publish (publish_flags p.qos p.retain)
      ((encode_utf8_string p.topic [] ++ packet_id_bytes p.packet_id) ++ p.payload)

unfoldable pub encode_puback : PubAckPacket → List ℕ
encode_puback p = prepend_fixed_header pt_puback 0 (u16_to_be_bytes p.packet_id)

unfoldable pub encode : MqttPacket → List ℕ
encode (conn_ack p) = encode_connack p
encode (sub_ack p) = encode_suback p
encode (unsub_ack p) = encode_unsuback p
encode (publish p) = encode_publish p
encode (pub_ack p) = encode_puback p
encode ping_resp = encode_fixed_header_only pt_pingresp
encode ping_req = encode_fixed_header_only pt_pingreq
encode disconnect = encode_fixed_header_only pt_disconnect
encode (connect p) = encode_connect p
encode (subscribe p) = encode_subscribe p
encode (unsubscribe p) = encode_unsubscribe p
