-- ===== src/Protocol/RoundTrip/Publish.antt =====
-- PUBLISH, written and read back.
use blitz_broker.Common.{
  ℕ, zero, suc, ◌+◌, ◌/◌, ◌%◌, ◌≤◌, ◌<◌, bit_and, ◌≡◌, refl, Bool, true, false, Option, none, some,
  List, [], ◌∷◌, ◌++◌, append-nil, append_assoc, arith, ◌==◌, le→ltb, length, All, length-append,
  All-append, IsByte, nat_eq, list_beq, list_beq_iff, list_eq,
}
use blitz_broker.Outcome.{ok}
use blitz_broker.Slice.{
  index, u16_to_be_bytes, u16-from-to, slice_from-append_length, index-append_length,
}
use blitz_broker.Error.{ProtocolError}
use blitz_broker.Protocol.Packet.{PublishPacket}
use blitz_broker.Protocol.Encode.{publish_flags, packet_id_bytes}
use blitz_broker.Protocol.Utf8.{encode_utf8_string}
use blitz_broker.Protocol.Decode.{decode_publish, decode_publish_id, has_bit}
use blitz_broker.Protocol.WellFormed.{IsPublish, HasIdFor}
use blitz_broker.Protocol.RoundTrip.Fields.{
  field, encode_utf8_string-field, decode_utf8_string-field, field-IsByte,
}

-- The body of a PUBLISH, as `encode_publish` builds it.
abbrev pub publish_body : PublishPacket → List ℕ
publish_body p = (encode_utf8_string p.topic [] ++ packet_id_bytes p.packet_id) ++ p.payload

-- The flags of a PUBLISH say its QoS and whether it is retained, in four bits.
pub publish_flags_fields :
    (qos : ℕ) (retain : Bool)
    → qos ≤ 1
    → (bit_and (publish_flags qos retain / 2) 0x03 ≡ qos)
      × (has_bit (publish_flags qos retain) 0x01 ≡ retain)
      × (publish_flags qos retain < 16)
unfolding publish_flags
publish_flags_fields zero true h = (refl, refl, omega arith)
publish_flags_fields zero false h = (refl, refl, omega arith)
publish_flags_fields (suc zero) true h = (refl, refl, omega arith)
publish_flags_fields (suc zero) false h = (refl, refl, omega arith)
publish_flags_fields (suc (suc n)) retain h = absurd (omega arith)

pub HasIdFor-le : (qos : ℕ) (id : Option ℕ) → HasIdFor qos id → qos ≤ 1
HasIdFor-le qos none h = omega arith
HasIdFor-le qos (some id) h = omega (arith, h.0)

decode_publish_id-wire :
    (qos : ℕ) (id : Option ℕ) (before payload : List ℕ)
    → HasIdFor qos id
    → decode_publish_id qos (before ++ (packet_id_bytes id ++ payload)) (length before)
      ≡ ok (id, length (before ++ packet_id_bytes id))
unfolding decode_publish_id u16_to_be_bytes
decode_publish_id-wire qos none before payload h = rw (h, append-nil before) refl
decode_publish_id-wire qos (some id) before payload h =
    let hi = id / 256 in
    let lo = id % 256 in
    let body = before ++ (hi ∷ lo ∷ payload) in
    let before' = before ++ (hi ∷ []) in
    let nonzero : (id == 0) ≡ false = ground arith in
    let size : length before + 2 ≡ length (before ++ (hi ∷ lo ∷ [])) =
      omega (arith, length-append before (hi ∷ lo ∷ [])) in
    let second : index {E = ProtocolError} body (length before + 1) ≡ ok lo =
      let at : length before + 1 ≡ length before' = omega (arith, length-append before (hi ∷ [])) in
      rw (at, ← append_assoc before (hi ∷ []) (lo ∷ payload))
        (index-append_length before' lo payload) in
    rw
      (
        h.0,
        le→ltb (length body) (length before + 2)
            (omega (arith, length-append before (hi ∷ lo ∷ payload))),
        index-append_length {E = ProtocolError} before hi (lo ∷ payload),
        second,
        u16-from-to id,
        nonzero,
        size,
      )
      refl

-- The body of a PUBLISH decodes, with the flags of its header, to the packet.
pub decode_publish-body :
    (p : PublishPacket)
    → IsPublish p
    → decode_publish (publish_flags p.qos p.retain) (publish_body p) ≡ ok p
unfolding decode_publish
decode_publish-body p h =
    let (text, nonempty, no_plus, no_hash, has_id, bytes) = h in
    let small : p.qos ≤ 1 = HasIdFor-le p.qos p.packet_id has_id in
    let (qos, retain, _) = publish_flags_fields p.qos p.retain small in
    let after = packet_id_bytes p.packet_id ++ p.payload in
    let wire = field p.topic ++ packet_id_bytes p.packet_id in
    let at_id : 2 + length p.topic ≡ length (field p.topic) = omega arith in
    let not3 : (p.qos == 3) ≡ false = ground arith in
    let not2 : (p.qos == 2) ≡ false = ground arith in
    let topic_given : list_beq p.topic [] ≡ false = ground (arith, list_beq_iff p.topic []) in
    rw
      (
        encode_utf8_string-field p.topic [] text.1,
        append_assoc (field p.topic) (packet_id_bytes p.packet_id) p.payload,
        qos,
        retain,
        not3,
        not2,
        decode_utf8_string-field p.topic after text,
        topic_given,
        no_plus,
        no_hash,
        at_id,
        decode_publish_id-wire p.qos p.packet_id (field p.topic) p.payload has_id,
        ← append_assoc (field p.topic) (packet_id_bytes p.packet_id) p.payload,
        slice_from-append_length {E = ProtocolError} wire p.payload,
      )
      refl

packet_id_bytes-IsByte :
    (qos : ℕ) (id : Option ℕ) → HasIdFor qos id → All IsByte (packet_id_bytes id)
unfolding u16_to_be_bytes
packet_id_bytes-IsByte qos none h = tt
packet_id_bytes-IsByte qos (some id) h = (omega (arith, h.2), (omega arith, tt))

pub publish_body-IsByte : (p : PublishPacket) → IsPublish p → All IsByte (publish_body p)
publish_body-IsByte p h = rw (encode_utf8_string-field p.topic [] h.0.1) (
    All-append IsByte (field p.topic ++ packet_id_bytes p.packet_id) p.payload
      (All-append IsByte (field p.topic) (packet_id_bytes p.packet_id) (field-IsByte p.topic h.0)
        (packet_id_bytes-IsByte p.qos p.packet_id h.4))
      h.5)
