-- ===== src/Protocol/Decode.antt =====
-- `decode` of src/protocol.rs and the decoders that it calls. The loops over the filters of a SUBSCRIBE
-- or an UNSUBSCRIBE run on fuel: each round takes at least two bytes of the body, so its length is
-- enough.
use blitz_broker.Common.{
  ℕ, zero, suc, ◌+◌, ◌/◌, bit_and, Bool, not, ◌||◌, Option, none, some, List, [], ◌∷◌, ◌++◌, ltb,
  leb, ◌==◌, if◌then◌else◌, length, nat_eq, list_beq, contains, list_eq,
}
use blitz_broker.Outcome.{Outcome, ok, err, out_of_fuel, reject_if, map_err, ok_or, ◌>>=◌, ◌>>◌}
use blitz_broker.Slice.{index, slice, slice_from, checked_add, u16_from_be_bytes}
use blitz_broker.Error.{
  ProtocolError, incomplete, unknown_packet_type, unsupported_feature, malformed_payload,
}
use blitz_broker.Protocol.RemainingLength.{decode_remaining_length}
use blitz_broker.Protocol.Utf8.{decode_utf8_string}
use blitz_broker.Protocol.Topic.{validate_topic_filter, plus, hash}
use blitz_broker.Protocol.Packet.{
  Str, ConnectPacket, SubscribePacket, UnsubscribePacket, PublishPacket, PubAckPacket, MqttPacket,
  connect, subscribe, unsubscribe, publish, pub_ack, ping_req, disconnect, pt_connect, pt_connack,
  pt_publish, pt_puback, pt_subscribe, pt_suback, pt_unsubscribe, pt_unsuback, pt_pingreq,
  pt_pingresp, pt_disconnect,
}

-- "MQTT"
abbrev pub mqtt : Str
mqtt = b'M' ∷ b'Q' ∷ b'T' ∷ b'T' ∷ []

-- `byte & mask != 0`
abbrev pub has_bit : ℕ → ℕ → Bool
has_bit byte mask = not (bit_and byte mask == 0)

unfoldable pub decode_connect : List ℕ → Outcome ProtocolError ConnectPacket
decode_connect body = do
  (protocol_name, pos) ← decode_utf8_string body
  reject_if (not (list_beq protocol_name mqtt))
      (malformed_payload "CONNECT protocol name must be \"MQTT\" (§3.1.2.1)")
  reject_if (ltb (length body) (pos + 1))
      (malformed_payload "truncated CONNECT protocol level (§3.1.2.2)")
  protocol_level ← index body pos
  reject_if (not (protocol_level == 4))
      (unsupported_feature "only MQTT protocol level 4 (3.1.1) is supported (§3.1.2.2)")
  reject_if (ltb (length body) (pos + 1 + 1))
      (malformed_payload "truncated CONNECT connect flags (§3.1.2.3)")
  connect_flags ← index body (pos + 1)
  let clean_session = has_bit connect_flags 0x02
  let will_flag = has_bit connect_flags 0x04
  let username_flag = has_bit connect_flags 0x80
  let password_flag = has_bit connect_flags 0x40
  reject_if (will_flag || (username_flag || password_flag)) (
      unsupported_feature
        "CONNECT with will/username/password flags is out of core scope (PLAN.md §3)")
  reject_if (ltb (length body) (pos + 2 + 2))
      (malformed_payload "truncated CONNECT keep alive (§3.1.2.10)")
  hi ← index body (pos + 2)
  lo ← index body (pos + 3)
  rest ← slice_from body (pos + 4)
  (client_id, pos_after_id) ←
      map_err (λ _. malformed_payload "truncated CONNECT client identifier (§3.1.3.1)")
        (decode_utf8_string rest)
  reject_if (not (pos + 4 + pos_after_id == length body)) (
      malformed_payload "trailing bytes after CONNECT payload (will/username/password unsupported)")
  ok (record {
    protocol_name = protocol_name;
    protocol_level = protocol_level;
    clean_session = clean_session;
    keep_alive_secs = u16_from_be_bytes hi lo;
    client_id = client_id;
  })

-- The loop `while pos < body.len()`.
unfoldable pub decode_subscriptions :
    ℕ → List ℕ → ℕ → List (Str × ℕ) → Outcome ProtocolError (List (Str × ℕ))
decode_subscriptions zero body pos subscriptions = out_of_fuel
decode_subscriptions (suc fuel) body pos subscriptions =
    let round = do
      rest ← slice_from body pos
      (topic, consumed) ←
          map_err (λ _. malformed_payload "truncated SUBSCRIBE topic filter (§3.8.3)")
            (decode_utf8_string rest)
      validate_topic_filter topic
      reject_if (leb (length body) (pos + consumed))
          (malformed_payload "SUBSCRIBE topic filter missing requested QoS byte (§3.8.3)")
      qos ← index body (pos + consumed)
      reject_if (ltb 2 qos)
          (malformed_payload "SUBSCRIBE requested QoS must be 0, 1, or 2 (§3.8.3)")
      decode_subscriptions fuel body (pos + consumed + 1) (subscriptions ++ ((topic, qos) ∷ []))
    in if ltb pos (length body) then round else ok subscriptions

unfoldable pub decode_subscribe : List ℕ → Outcome ProtocolError SubscribePacket
decode_subscribe body = do
  reject_if (ltb (length body) 2)
      (malformed_payload "truncated SUBSCRIBE packet identifier (§3.8.2)")
  hi ← index body 0
  lo ← index body 1
  reject_if (leb (length body) 2)
      (malformed_payload "SUBSCRIBE must contain at least one topic filter (§3.8.3)")
  subscriptions ← decode_subscriptions (length body) body 2 []
  ok (record { packet_id = u16_from_be_bytes hi lo; subscriptions = subscriptions })

-- The loop `while pos < body.len()`.
unfoldable pub decode_filters : ℕ → List ℕ → ℕ → List Str → Outcome ProtocolError (List Str)
decode_filters zero body pos topic_filters = out_of_fuel
decode_filters (suc fuel) body pos topic_filters =
    let round = do
      rest ← slice_from body pos
      (topic, consumed) ←
          map_err (λ _. malformed_payload "truncated UNSUBSCRIBE topic filter (§3.10.3)")
            (decode_utf8_string rest)
      validate_topic_filter topic
      decode_filters fuel body (pos + consumed) (topic_filters ++ (topic ∷ []))
    in if ltb pos (length body) then round else ok topic_filters

unfoldable pub decode_unsubscribe : List ℕ → Outcome ProtocolError UnsubscribePacket
decode_unsubscribe body = do
  reject_if (ltb (length body) 2)
      (malformed_payload "truncated UNSUBSCRIBE packet identifier (§3.10.2)")
  hi ← index body 0
  lo ← index body 1
  reject_if (leb (length body) 2)
      (malformed_payload "UNSUBSCRIBE must contain at least one topic filter (§3.10.3)")
  topic_filters ← decode_filters (length body) body 2 []
  ok (record { packet_id = u16_from_be_bytes hi lo; topic_filters = topic_filters })

-- The packet identifier of a PUBLISH and where the payload begins.
unfoldable pub decode_publish_id : ℕ → List ℕ → ℕ → Outcome ProtocolError (Option ℕ × ℕ)
decode_publish_id qos body pos = if qos == 0 then ok (none, pos) else do
  reject_if (ltb (length body) (pos + 2))
      (malformed_payload "truncated PUBLISH packet identifier (§3.3.2.2)")
  hi ← index body pos
  lo ← index body (pos + 1)
  reject_if (u16_from_be_bytes hi lo == 0)
      (malformed_payload "PUBLISH packet identifier must be non-zero for QoS > 0 (§2.3.1)")
  ok (some (u16_from_be_bytes hi lo), pos + 2)

unfoldable pub decode_publish : ℕ → List ℕ → Outcome ProtocolError PublishPacket
decode_publish flags body = do
  let qos = bit_and (flags / 2) 0x03
  let retain = has_bit flags 0x01
  reject_if (qos == 3) (malformed_payload "PUBLISH QoS bits 11 is not a valid QoS value (§3.3.1.2)")
  reject_if (qos == 2)
      (unsupported_feature "PUBLISH QoS 2 not supported (PLAN.md §4 scopes only QoS 0/1)")
  (topic, pos) ←
      map_err (λ _. malformed_payload "truncated PUBLISH topic name (§3.3.2.1)")
        (decode_utf8_string body)
  reject_if (list_beq topic []) (malformed_payload "PUBLISH topic name must not be empty (§4.7.3)")
  reject_if (contains topic plus || contains topic hash)
      (malformed_payload "PUBLISH topic name must not contain wildcard characters (§4.7.1)")
  (packet_id, pos') ← decode_publish_id qos body pos
  payload ← slice_from body pos'
  ok (record {
    topic = topic;
    payload = payload;
    qos = qos;
    retain = retain;
    packet_id = packet_id;
  })

unfoldable pub decode_puback : List ℕ → Outcome ProtocolError PubAckPacket
decode_puback body = do
  reject_if (not (length body == 2)) (
      malformed_payload
        "PUBACK variable header must be exactly a 2-byte packet identifier (§3.4.2)")
  hi ← index body 0
  lo ← index body 1
  reject_if (u16_from_be_bytes hi lo == 0)
      (malformed_payload "PUBACK packet identifier must be non-zero (§2.3.1)")
  ok (record { packet_id = u16_from_be_bytes hi lo })

-- The `match packet_type` of `decode`.
unfoldable pub decode_body : ℕ → ℕ → List ℕ → Outcome ProtocolError MqttPacket
decode_body packet_type flags body =
    if packet_type == pt_connect
    then (do p ← decode_connect body; ok (connect p))
    else if packet_type == pt_subscribe
    then (do p ← decode_subscribe body; ok (subscribe p))
    else if packet_type == pt_unsubscribe
    then (do p ← decode_unsubscribe body; ok (unsubscribe p))
    else if packet_type == pt_publish
    then (do p ← decode_publish flags body; ok (publish p))
    else if packet_type == pt_puback
    then (do
      reject_if (not (flags == 0))
          (malformed_payload "PUBACK fixed header flags are reserved and must be 0 (§3.4.1)")
      p ← decode_puback body
      ok (pub_ack p))
    else if packet_type == pt_pingreq
    then (do
      reject_if (not (length body == 0))
          (malformed_payload "PINGREQ must have zero remaining length (§3.13.1)")
      ok ping_req)
    else if packet_type == pt_disconnect
    then (do
      reject_if (not (length body == 0))
          (malformed_payload "DISCONNECT must have zero remaining length (§3.14.1)")
      ok disconnect)
    else if packet_type == pt_connack
    then err (unsupported_feature "CONNACK from client")
    else if packet_type == pt_suback
    then err (unsupported_feature "SUBACK from client")
    else if packet_type == pt_unsuback
    then err (unsupported_feature "UNSUBACK from client")
    else if packet_type == pt_pingresp
    then err (unsupported_feature "PINGRESP from client")
    else err (unknown_packet_type packet_type)

unfoldable pub decode : List ℕ → Outcome ProtocolError (MqttPacket × ℕ)
decode buf = do
  reject_if (length buf == 0) incomplete
  byte0 ← index buf 0
  let packet_type = byte0 / 16
  let flags = bit_and byte0 0x0f
  after_first ← slice_from buf 1
  (remaining_len, rl_bytes) ← decode_remaining_length after_first
  let header_len = 1 + rl_bytes
  total_len ←
      ok_or (checked_add header_len remaining_len) (malformed_payload "remaining length overflow")
  reject_if (ltb (length buf) total_len) incomplete
  body ← slice buf header_len total_len
  packet ← decode_body packet_type flags body
  ok (packet, total_len)
