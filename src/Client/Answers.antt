-- ===== src/Client/Answers.antt =====
-- The packets that the broker of src/connection.rs answers the client of src/bin/blitzclient.rs with, as
-- they stand on the wire.
use blitz_broker.Common.{
  or_three_nibble, ℕ, ◌+◌, ◌*◌, ◌/◌, ◌^◌, ◌≤◌, ◌<◌, ◌≡◌, refl, ap, ◌∙◌, true, false, List, [], ◌∷◌,
  ◌++◌, arith, ◌==◌, ==_iff, length, nat_eq, list_eq,
}
use blitz_broker.Slice.{u16_to_be_bytes}
use blitz_broker.Outcome.{ok}
use blitz_broker.Protocol.Packet.{
  return_code_byte, PublishPacket, conn_ack, sub_ack, pub_ack, publish, accepted, pt_suback,
  pt_puback, pt_publish,
}
use blitz_broker.Protocol.Encode.{
  encode, encode_connack, encode_suback, encode_puback, encode_publish, prepend_fixed_header,
  publish_flags,
}
use blitz_broker.Protocol.RoundTrip.Framing.{framed, prepend-framed}
use blitz_broker.Protocol.RoundTrip.Publish.{publish_body, publish_flags_fields}
use blitz_broker.Client.Socket.{Socket, ◌>>=◌}
use blitz_broker.Client.Run.{expect}
use blitz_broker.Client.Framing.{left, read_packet-framed}

pub connack_framed :
    encode (conn_ack (record { session_present = false; return_code = accepted }))
    ≡ framed 0x20 (0 ∷ 0 ∷ [])
unfolding encode encode_connack prepend_fixed_header return_code_byte
connack_framed = refl

pub suback_framed :
    (packet_id : ℕ) (codes : List ℕ)
    → length codes < 65536
    → encode (sub_ack (record { packet_id = packet_id; return_codes = codes }))
      ≡ framed 0x90 (u16_to_be_bytes packet_id ++ codes)
unfolding encode encode_suback u16_to_be_bytes
suback_framed packet_id codes h =
    prepend-framed pt_suback 0 (u16_to_be_bytes packet_id ++ codes) (omega arith)

pub puback_framed :
    (packet_id : ℕ)
    → encode (pub_ack (record { packet_id = packet_id })) ≡ framed 0x40 (u16_to_be_bytes packet_id)
unfolding encode encode_puback u16_to_be_bytes
puback_framed packet_id = prepend-framed pt_puback 0 (u16_to_be_bytes packet_id) (omega arith)

pub publish_framed :
    (p : PublishPacket)
    → p.qos ≤ 1
    → length (publish_body p) < 2 ^ 28
    → encode (publish p) ≡ framed (0x30 + publish_flags p.qos p.retain) (publish_body p)
unfolding encode encode_publish
publish_framed p h small =
    let (_, _, flags) = publish_flags_fields p.qos p.retain h in
    prepend-framed pt_publish (publish_flags p.qos p.retain) (publish_body p) small
    ∙ ap (λ first. framed first (publish_body p)) (or_three_nibble _ flags)

-- A packet that is due is read, up to its end.
pub expect-framed :
    (packet_type flags : ℕ) (body rest : List ℕ) (s : Socket)
    → packet_type < 16
    → flags < 16
    → length body < 2 ^ 28
    → s.incoming ≡ framed (packet_type * 16 + flags) body ++ rest
    → expect packet_type s ≡ (left s rest, ok body)
unfolding expect
expect-framed packet_type flags body rest s ht hf small h =
    let high : (packet_type * 16 + flags) / 16 ≡ packet_type = omega arith in
    let same : (packet_type == packet_type) ≡ true = (==_iff packet_type packet_type).1 refl in
    rw
      (
        ◌>>=◌,
        read_packet-framed (packet_type * 16 + flags) body rest s (omega arith) small h,
        high,
        same,
      )
      refl
