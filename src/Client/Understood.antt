-- ===== src/Client/Understood.antt =====
-- What the broker reads of the packets that the client of src/bin/blitzclient.rs writes.
use blitz_broker.Common.{
  ℕ, ◌^◌, ◌≤◌, ◌<◌, bit_and, ◌≡◌, refl, inl, inr, true, false, Option, none, some, List, [], ◌∷◌,
  ◌++◌, arith, ltb, if◌then◌else◌, Bool-cases, length, All, IsByte, low_two, nat_eq, list_eq,
}
use blitz_broker.Outcome.{ok}
use blitz_broker.Protocol.Packet.{
  Str, ConnectPacket, SubscribePacket, PublishPacket, connect, subscribe, publish,
}
use blitz_broker.Protocol.RemainingLength
use blitz_broker.Protocol.Encode.{encode}
use blitz_broker.Protocol.Utf8.{saturated_len}
use blitz_broker.Protocol.Decode.{decode, mqtt}
use blitz_broker.Protocol.WellFormed.{IsFromClient}
use blitz_broker.Protocol.RoundTrip.{body_of, decode-encode_packet}
use blitz_broker.Client.{
  encode_utf8_str, make_packet, encode_connect, encode_subscribe, encode_publish, encode_disconnect,
  id_or_one,
}

abbrev pub connect_packet : Str → ℕ → ConnectPacket
connect_packet client_id keep_alive = record {
  protocol_name = mqtt;
  protocol_level = 4;
  clean_session = true;
  keep_alive_secs = keep_alive;
  client_id = client_id;
}

abbrev pub publish_packet : Str → List ℕ → ℕ → Option ℕ → PublishPacket
publish_packet topic payload qos packet_id = record {
  topic = topic;
  payload = payload;
  qos = qos;
  retain = false;
  packet_id = if ltb 0 qos then some (id_or_one packet_id) else none;
}

abbrev pub subscribe_packet : ℕ → Str → ℕ → SubscribePacket
subscribe_packet packet_id filter qos = record {
  packet_id = packet_id;
  subscriptions = (filter, qos) ∷ [];
}

pub connect_same :
    (client_id : Str) (keep_alive : ℕ)
    → encode_connect client_id keep_alive ≡ encode (connect (connect_packet client_id keep_alive))
unfolding encode_connect make_packet encode_utf8_str blitz_broker.Client.encode_remaining_length
    encode blitz_broker.Protocol.Encode.encode_connect
    blitz_broker.Protocol.Encode.prepend_fixed_header blitz_broker.Protocol.Encode.connect_body
    blitz_broker.Protocol.Utf8.encode_utf8_string
    blitz_broker.Protocol.RemainingLength.encode_remaining_length
connect_same client_id keep_alive = refl

pub publish_same :
    (topic : Str) (payload : List ℕ) (qos : ℕ) (packet_id : Option ℕ)
    → encode_publish topic payload qos packet_id
      ≡ encode (publish (publish_packet topic payload qos packet_id))
unfolding encode_publish make_packet encode_utf8_str blitz_broker.Client.encode_remaining_length
    encode blitz_broker.Protocol.Encode.encode_publish blitz_broker.Protocol.Encode.publish_flags
    blitz_broker.Protocol.Encode.prepend_fixed_header blitz_broker.Protocol.Utf8.encode_utf8_string
    blitz_broker.Protocol.RemainingLength.encode_remaining_length
publish_same topic payload qos packet_id = elim (Bool-cases (ltb 0 qos)) [
  | inl acked ↦ rw acked refl
  | inr quiet ↦ rw quiet refl
]

subscribe_same :
    (packet_id : ℕ) (filter : Str) (qos : ℕ)
    → qos ≤ 2
    → encode_subscribe packet_id filter qos
      ≡ encode (subscribe (subscribe_packet packet_id filter qos))
unfolding encode_subscribe make_packet encode_utf8_str blitz_broker.Client.encode_remaining_length
    encode blitz_broker.Protocol.Encode.encode_subscribe
    blitz_broker.Protocol.Encode.push_subscriptions
    blitz_broker.Protocol.Encode.prepend_fixed_header blitz_broker.Protocol.Utf8.encode_utf8_string
    blitz_broker.Protocol.RemainingLength.encode_remaining_length
subscribe_same packet_id filter qos h =
    let low : bit_and qos 0x03 ≡ qos = omega (arith, low_two qos) in rw low refl

-- A publish of the client on a proper topic, at QoS 0 or 1, with fewer than 2 ^ 28 bytes behind its header,
-- is read by the broker as it was meant: not retained, and at QoS 1 with the identifier given, or 1.
pub broker_reads_publish :
    (topic : Str) (payload : List ℕ) (qos : ℕ) (packet_id : Option ℕ) (rest : List ℕ)
    → IsFromClient (publish (publish_packet topic payload qos packet_id))
    → length (body_of (publish (publish_packet topic payload qos packet_id))) < 2 ^ 28
    → All IsByte rest
    → decode (encode_publish topic payload qos packet_id ++ rest)
      ≡ ok (
        publish (publish_packet topic payload qos packet_id),
        length (encode_publish topic payload qos packet_id),
      )
broker_reads_publish topic payload qos packet_id rest h small hb =
    rw (publish_same topic payload qos packet_id) (decode-encode_packet _ rest h small hb)

-- A SUBSCRIBE of the client to a valid filter that fits its length field, at QoS 0, 1 or 2, with fewer than
-- 2 ^ 28 bytes behind its header, is read by the broker as a subscription to that filter alone.
pub broker_reads_subscribe :
    (packet_id : ℕ) (filter : Str) (qos : ℕ) (rest : List ℕ)
    → qos ≤ 2
    → IsFromClient (subscribe (subscribe_packet packet_id filter qos))
    → length (body_of (subscribe (subscribe_packet packet_id filter qos))) < 2 ^ 28
    → All IsByte rest
    → decode (encode_subscribe packet_id filter qos ++ rest)
      ≡ ok (
        subscribe (subscribe_packet packet_id filter qos),
        length (encode_subscribe packet_id filter qos),
      )
broker_reads_subscribe packet_id filter qos rest le h small hb =
    rw (subscribe_same packet_id filter qos le) (decode-encode_packet _ rest h small hb)

-- A CONNECT of the client, with a proper client identifier and fewer than 2 ^ 28 bytes behind its header, is
-- read by the broker as one with a clean session at protocol level 4.
pub broker_reads_connect :
    (client_id : Str) (keep_alive : ℕ) (rest : List ℕ)
    → IsFromClient (connect (connect_packet client_id keep_alive))
    → length (body_of (connect (connect_packet client_id keep_alive))) < 2 ^ 28
    → All IsByte rest
    → decode (encode_connect client_id keep_alive ++ rest)
      ≡ ok (
        connect (connect_packet client_id keep_alive),
        length (encode_connect client_id keep_alive),
      )
broker_reads_connect client_id keep_alive rest h small hb =
    rw (connect_same client_id keep_alive) (decode-encode_packet _ rest h small hb)
