-- ===== src/Protocol/RoundTrip/Connect.antt =====
-- CONNECT and PUBACK, written and read back.
use blitz_broker.Common.{
  ℕ, ◌+◌, ◌/◌, ◌%◌, ◌≡◌, refl, Bool, true, false, ◌||◌, List, [], ◌∷◌, ◌++◌, arith, if◌then◌else◌,
  ==_iff, le→ltb, le→leb, length, All, All-append, IsByte, nat_eq, list_eq,
}
use blitz_broker.Outcome.{ok}
use blitz_broker.Slice.{index, slice_from, u16_to_be_bytes, u16-from-to}
use blitz_broker.Protocol.Packet.{Str, ConnectPacket, PubAckPacket}
use blitz_broker.Protocol.Encode.{connect_body}
use blitz_broker.Protocol.Decode.{mqtt, has_bit, decode_connect, decode_puback}
use blitz_broker.Protocol.WellFormed.{IsText, IsConnect, IsPubAck}
use blitz_broker.Protocol.RoundTrip.Fields.{
  mqtt-IsText, decode_utf8_string-field_alone, field, encode_utf8_string-field,
  decode_utf8_string-field, field-IsByte,
}

abbrev connect_flags : Bool → ℕ
connect_flags clean = if clean then 2 else 0

-- The body of a CONNECT for protocol level 4.
abbrev wire_connect : Bool → ℕ → Str → List ℕ
wire_connect clean secs id =
    field mqtt ++ (4 ∷ connect_flags clean ∷ secs / 256 ∷ secs % 256 ∷ field id)

connect_flags-IsByte : (clean : Bool) → IsByte (connect_flags clean)
connect_flags-IsByte true = omega arith
connect_flags-IsByte false = omega arith

clean_session_bit : (clean : Bool) → has_bit (connect_flags clean) 0x02 ≡ clean
clean_session_bit true = refl
clean_session_bit false = refl

other_bits :
    (clean : Bool)
    → (has_bit (connect_flags clean) 0x04
        || (has_bit (connect_flags clean) 0x80 || has_bit (connect_flags clean) 0x40))
      ≡ false
other_bits true = refl
other_bits false = refl

decode_wire_connect :
    (clean : Bool) (secs : ℕ) (id : Str)
    → IsText id
    → decode_connect (wire_connect clean secs id)
      ≡ ok (record {
        protocol_name = mqtt;
        protocol_level = 4;
        clean_session = clean;
        keep_alive_secs = secs;
        client_id = id;
      })
unfolding decode_connect index slice_from
decode_wire_connect clean secs id h =
    let body = wire_connect clean secs id in
    let after = 4 ∷ connect_flags clean ∷ secs / 256 ∷ secs % 256 ∷ field id in
    let whole : 6 + 4 + (2 + length id) ≡ length body = omega arith in
    rw
      (
        decode_utf8_string-field mqtt after mqtt-IsText,
        le→ltb (length body) 7 (omega arith),
        le→ltb (length body) 8 (omega arith),
        other_bits clean,
        le→ltb (length body) 10 (omega arith),
        le→leb 10 (length body) (omega arith),
        decode_utf8_string-field_alone id h,
        clean_session_bit clean,
        u16-from-to secs,
        (==_iff _ _).1 whole,
      )
      refl

connect_body-wire :
    (p : ConnectPacket)
    → IsConnect p
    → connect_body p ≡ wire_connect p.clean_session p.keep_alive_secs p.client_id
unfolding connect_body u16_to_be_bytes
connect_body-wire p h =
    rw (h.0, h.1, encode_utf8_string-field mqtt [] (omega arith))
      (rw (encode_utf8_string-field p.client_id _ h.3.1) refl)

-- The body of a CONNECT decodes to the packet.
pub decode_connect-body : (p : ConnectPacket) → IsConnect p → decode_connect (connect_body p) ≡ ok p
decode_connect-body p h =
    rw
      (connect_body-wire p h, decode_wire_connect p.clean_session p.keep_alive_secs p.client_id h.3)
      (ground (arith, h.0, h.1))

pub connect_body-IsByte : (p : ConnectPacket) → IsConnect p → All IsByte (connect_body p)
connect_body-IsByte p h = rw (connect_body-wire p h) (
    All-append IsByte (field mqtt)
      (4
        ∷ connect_flags p.clean_session
        ∷ p.keep_alive_secs / 256
        ∷ p.keep_alive_secs % 256
        ∷ field p.client_id)
      (field-IsByte mqtt mqtt-IsText)
      (
        omega arith,
        (
          connect_flags-IsByte p.clean_session,
          (omega (arith, h.2), (omega arith, field-IsByte p.client_id h.3)),
        ),
      ))

pub decode_puback-body :
    (p : PubAckPacket) → IsPubAck p → decode_puback (u16_to_be_bytes p.packet_id) ≡ ok p
unfolding decode_puback u16_to_be_bytes index
decode_puback-body p h = ground (arith, u16-from-to p.packet_id)

pub puback_body-IsByte : (p : PubAckPacket) → IsPubAck p → All IsByte (u16_to_be_bytes p.packet_id)
unfolding u16_to_be_bytes
puback_body-IsByte p h = (omega (arith, h.1), (omega arith, tt))
