-- ===== src/Protocol/RoundTrip/Framing.antt =====
-- The fixed header, written and read back.
use blitz_broker.Common.{
  ◌∙◌, bit_and, [], ◌*◌, bit_or, ℕ, suc, ◌+◌, ◌/◌, ◌%◌, ◌^◌, ◌<◌, ◌≡◌, refl, List, ◌∷◌, ◌++◌,
  append_assoc, arith, le→ltb, length, All, length-append, drop-append_length, take-append_length,
  All-append, IsByte, nat_eq, list_eq,
}
use blitz_broker.Outcome.{ok, ◌>>=◌}
use blitz_broker.Protocol.RemainingLength.{encode_remaining_length}
use blitz_broker.Protocol.RemainingLength.Reference.{write_digits, read_digits, encode-write_digits}
use blitz_broker.Protocol.RemainingLength.RoundTrip.{encode-IsByte, read-write_digits}
use blitz_broker.Protocol.Decode.{decode, decode_body}
use blitz_broker.Protocol.Settles.Frame.{read_frame, read_rest, decode-read_frame}
use blitz_broker.Protocol.Encode.{encode_fixed_header_only, prepend_fixed_header}
use blitz_broker.Protocol.Packet.{MqttPacket}

-- A first byte, the length of the body, the body.
abbrev pub framed : ℕ → List ℕ → List ℕ
framed first body = first ∷ (encode_remaining_length (length body) ++ body)

read_rest-exact :
    (first : ℕ) (digits body rest : List ℕ)
    → read_rest first ((digits ++ body) ++ rest) (length body, length digits) ≡ (do
      packet ← decode_body (first / 16) (first % 16) body
      ok (packet, suc (length (digits ++ body))))
unfolding read_rest
read_rest-exact first digits body rest =
    rw
      (
        append_assoc digits body rest,
        drop-append_length digits (body ++ rest),
        take-append_length body rest,
        length-append digits body,
        le→ltb (length (digits ++ (body ++ rest))) (length digits + length body)
            (omega (arith, length-append digits (body ++ rest), length-append body rest)),
      )
      refl

-- What was framed decodes as its body does under the header's two halves.
decode-framed :
    (first : ℕ) (body rest : List ℕ)
    → IsByte first
    → All IsByte body
    → All IsByte rest
    → length body < 2 ^ 28
    → decode (framed first body ++ rest) ≡ (do
      packet ← decode_body (first / 16) (first % 16) body
      ok (packet, length (framed first body)))
unfolding read_frame
decode-framed first body rest hf hb hr small =
    let digits = encode_remaining_length (length body) in
    let read : read_digits 4 (digits ++ (body ++ rest)) ≡ ok (length body, length digits) =
      rw (encode-write_digits (length body) (omega arith))
        (read-write_digits 3 4 (length body) (body ++ rest) (omega arith) (omega arith)) in
    rw
      (
        decode-read_frame (framed first body ++ rest) (
          hf,
          All-append IsByte (digits ++ body) rest
              (All-append IsByte digits body (encode-IsByte (length body) (omega arith)) hb) hr,
        ),
        append_assoc digits body rest,
        read,
        ← append_assoc digits body rest,
      )
      (read_rest-exact first digits body rest)

pub prepend-framed :
    (packet_type flags : ℕ) (body : List ℕ)
    → length body < 2 ^ 28
    → prepend_fixed_header packet_type flags body
      ≡ framed (bit_or (packet_type * 16 % 256) (bit_and flags 0x0f)) body
unfolding prepend_fixed_header
prepend-framed packet_type flags body small =
    let same : length body % 2 ^ 32 ≡ length body = omega arith in rw same refl

-- A body that decodes to a packet under its type and flags, decodes to it behind their header too.
pub decode-prepended :
    (packet_type flags : ℕ) (body rest : List ℕ) (packet : MqttPacket)
    → packet_type < 16
    → flags < 16
    → bit_or (packet_type * 16 % 256) (bit_and flags 0x0f) ≡ packet_type * 16 + flags
    → All IsByte body
    → All IsByte rest
    → length body < 2 ^ 28
    → decode_body packet_type flags body ≡ ok packet
    → decode (prepend_fixed_header packet_type flags body ++ rest)
      ≡ ok (packet, length (prepend_fixed_header packet_type flags body))
decode-prepended packet_type flags body rest packet ht hf first hb hr small e =
    let byte0 = packet_type * 16 + flags in
    let high : byte0 / 16 ≡ packet_type = omega arith in
    let low : byte0 % 16 ≡ flags = omega arith in
    rw (prepend-framed packet_type flags body small, first)
      (decode-framed byte0 body rest (omega arith) hb hr small ∙ rw (high, low, e) refl)

pub decode-header_only :
    (packet_type : ℕ) (rest : List ℕ) (packet : MqttPacket)
    → packet_type < 16
    → All IsByte rest
    → decode_body packet_type 0 [] ≡ ok packet
    → decode (encode_fixed_header_only packet_type ++ rest)
      ≡ ok (packet, length (encode_fixed_header_only packet_type))
unfolding encode_fixed_header_only write_digits
decode-header_only packet_type rest packet ht hr e =
    let byte0 : packet_type * 16 % 256 ≡ packet_type * 16 = omega arith in
    let high : packet_type * 16 / 16 ≡ packet_type = omega arith in
    let low : packet_type * 16 % 16 ≡ 0 = omega arith in
    rw byte0 (
      rw (encode-write_digits 0 (omega arith)) at
        (decode-framed (packet_type * 16) [] rest (omega arith) tt hr (omega arith))
      ∙ rw (high, low, e) refl)
