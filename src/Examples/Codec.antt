-- ===== src/Examples/Codec.antt =====
-- The codec of src/protocol.rs on concrete packets.
use blitz_broker.Common.{
  ℕ, ◌^◌, ◌≤◌, ◌≡◌, refl, true, some, List, [], ◌∷◌, ◌++◌, arith, ltb, if◌then◌else◌, length, take,
  All, IsByte, nat_eq, list_eq,
}
use blitz_broker.Outcome.{ok, err, Returns}
use blitz_broker.Error.{incomplete, invalid_remaining_length}
use blitz_broker.Protocol.Packet.{PublishPacket, publish, ping_req}
use blitz_broker.Protocol.RemainingLength.{decode_remaining_length, encode_remaining_length}
use blitz_broker.Protocol.RemainingLength.RoundTrip.{decode-encode}
use blitz_broker.Protocol.Encode.{encode}
use blitz_broker.Protocol.Decode.{decode}
use blitz_broker.Protocol.WellFormed.{IsFromClient}
use blitz_broker.Protocol.Settles.{decode-Returns}
use blitz_broker.Protocol.Stream.{decode-append, decode-take}
use blitz_broker.Protocol.RoundTrip.{decode-encode_packet}

-- A PINGREQ on the wire.
abbrev ping_bytes : List ℕ
ping_bytes = 0xC0 ∷ 0x00 ∷ []

ping_bytes-IsByte : All IsByte ping_bytes
ping_bytes-IsByte = (omega arith, (omega arith, tt))

decode-Returns_example :
    Returns
      (λ (p, n). IsFromClient p × (2 ≤ n) × (n ≤ length ping_bytes))
      (λ _. Unit {0})
      (decode ping_bytes)
decode-Returns_example = decode-Returns ping_bytes ping_bytes-IsByte

abbrev reading : PublishPacket
reading = record {
  topic = b'a' ∷ b'/' ∷ b'b' ∷ [];
  payload = 21 ∷ 5 ∷ [];
  qos = 1;
  retain = true;
  packet_id = some 7;
}

reading-IsFromClient : IsFromClient (publish reading)
unfolding blitz_broker.Protocol.Utf8.is_utf8 blitz_broker.Protocol.Utf8.utf8_run
    blitz_broker.Protocol.Utf8.utf8_step
reading-IsFromClient = (
  (refl, omega arith),
  (λ h. cc),
  refl,
  refl,
  (refl, omega arith, omega arith),
  (omega arith, (omega arith, tt)),
)

decode-encode_packet_example :
    decode (encode (publish reading) ++ ping_bytes)
    ≡ ok (publish reading, length (encode (publish reading)))
unfolding blitz_broker.Protocol.Utf8.encode_utf8_string blitz_broker.Slice.u16_to_be_bytes
decode-encode_packet_example =
    decode-encode_packet (publish reading) ping_bytes reading-IsFromClient (omega arith)
      ping_bytes-IsByte

ping_decodes : decode ping_bytes ≡ ok (ping_req, 2)
unfolding encode blitz_broker.Protocol.Encode.encode_fixed_header_only
ping_decodes = decode-encode_packet ping_req [] tt (omega arith) tt

decode-append_example : decode (ping_bytes ++ (0x30 ∷ [])) ≡ decode ping_bytes
decode-append_example =
    decode-append ping_bytes (0x30 ∷ []) ping_bytes-IsByte (omega arith, tt)
      (λ h. cc (ping_decodes))

decode-take_example : decode (take 1 ping_bytes) ≡ err incomplete
decode-take_example =
    decode-take ping_bytes 1 2 ping_req ping_bytes-IsByte ping_decodes (omega arith)

decode-encode_example : decode_remaining_length (encode_remaining_length 321 ++ (9 ∷ [])) ≡ (
    if ltb 321 (2 ^ 28)
    then ok (321, length (encode_remaining_length 321))
    else err invalid_remaining_length)
decode-encode_example = decode-encode 321 (9 ∷ []) (omega arith) (omega arith, tt)
