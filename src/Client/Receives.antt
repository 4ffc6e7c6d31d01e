-- ===== src/Client/Receives.antt =====
-- What the client of src/bin/blitzclient.rs reads of the bodies that the broker writes.
use blitz_broker.Common.{
  le→leb, ◌<◌, ℕ, ◌+◌, ◌-◌, ◌/◌, ◌%◌, ◌^◌, ◌≡◌, refl, false, Option, none, some, List, [], ◌∷◌,
  ◌++◌, append-nil, append_assoc, arith, ◌==◌, lt→ltb, le→ltb, length, length-append,
  take-append_length, nat_eq, list_eq,
}
use blitz_broker.Outcome.{ok}
use blitz_broker.Slice.{
  slice_from, index, slice-ok, checked_add, u16_to_be_bytes, u16-from-to, index-append_length,
  slice_from-append_length,
}
use blitz_broker.Protocol.Packet.{Str, PublishPacket}
use blitz_broker.Protocol.Encode.{publish_flags, packet_id_bytes}
use blitz_broker.Protocol.WellFormed.{IsText, IsPublish, HasIdFor}
use blitz_broker.Protocol.RoundTrip.Fields.{field, encode_utf8_string-field}
use blitz_broker.Protocol.RoundTrip.Publish.{publish_body, publish_flags_fields, HasIdFor-le}
use blitz_broker.Client.Decode.{
  decode_suback_body, ClientError, decode_utf8_str, decode_id, read_id, decode_publish_body,
  decode_suback_body,
}

decode_utf8_str-field :
    (s : Str) (rest : List ℕ)
    → IsText s
    → decode_utf8_str (field s ++ rest) 0 ≡ ok (s, 2 + length s)
unfolding decode_utf8_str index checked_add
decode_utf8_str-field s rest (valid, fits) =
    let after : 2 + length s - 2 ≡ length s = omega arith in
    rw
      (
        le→ltb (length (field s ++ rest)) 2 (omega arith),
        u16-from-to (length s),
        lt→ltb (2 + length s) (2 ^ 64) (omega arith),
        le→ltb (length (field s ++ rest)) (2 + length s) (omega (arith, length-append s rest)),
        slice-ok {E = ClientError} (field s ++ rest) 2 (2 + length s) (omega arith)
            (omega (arith, length-append s rest)),
        after,
        take-append_length s rest,
        valid,
      )
      refl

decode_id-wire :
    (qos : ℕ) (id : Option ℕ) (before payload : List ℕ)
    → HasIdFor qos id
    → decode_id qos (before ++ (packet_id_bytes id ++ payload)) (length before)
      ≡ ok (id, length (before ++ packet_id_bytes id))
unfolding decode_id read_id u16_to_be_bytes
decode_id-wire qos none before payload h = rw (h, append-nil before) refl
decode_id-wire qos (some id) before payload h =
    let hi = id / 256 in
    let lo = id % 256 in
    let nonzero : (id == 0) ≡ false = ground arith in
    let size : length before + 2 ≡ length (before ++ (hi ∷ lo ∷ [])) =
      omega (arith, length-append before (hi ∷ lo ∷ [])) in
    let second : index {E = ClientError} (before ++ (hi ∷ lo ∷ payload)) (length before + 1)
        ≡ ok lo =
      let at : length before + 1 ≡ length (before ++ (hi ∷ [])) =
        omega (arith, length-append before (hi ∷ [])) in
      rw (at, ← append_assoc before (hi ∷ []) (lo ∷ payload))
        (index-append_length (before ++ (hi ∷ [])) lo payload) in
    rw
      (
        h.0,
        le→ltb (length (before ++ (hi ∷ lo ∷ payload))) (length before + 2)
            (omega (arith, length-append before (hi ∷ lo ∷ payload))),
        index-append_length {E = ClientError} before hi (lo ∷ payload),
        second,
        u16-from-to id,
        nonzero,
        size,
      )
      refl

-- The client reads, of the body and the flags that the broker writes for a publish, the topic, the payload,
-- the QoS and the packet identifier of the packet.
pub client_reads_publish :
    (p : PublishPacket)
    → IsPublish p
    → decode_publish_body (publish_flags p.qos p.retain) (publish_body p)
      ≡ ok (p.topic, p.payload, p.qos, p.packet_id)
unfolding decode_publish_body
client_reads_publish p h =
    let (text, nonempty, no_plus, no_hash, has_id, bytes) = h in
    let (qos, retain, _) =
      publish_flags_fields p.qos p.retain (HasIdFor-le p.qos p.packet_id has_id) in
    let after = packet_id_bytes p.packet_id ++ p.payload in
    let at_id : 2 + length p.topic ≡ length (field p.topic) = omega arith in
    rw
      (
        encode_utf8_string-field p.topic [] text.1,
        append_assoc (field p.topic) (packet_id_bytes p.packet_id) p.payload,
        qos,
        decode_utf8_str-field p.topic after text,
        at_id,
        decode_id-wire p.qos p.packet_id (field p.topic) p.payload has_id,
        ← append_assoc (field p.topic) (packet_id_bytes p.packet_id) p.payload,
        slice_from-append_length {E = ClientError} (field p.topic ++ packet_id_bytes p.packet_id)
            p.payload,
      )
      refl

-- The client reads the return codes of a SUBACK that the broker writes, and its packet identifier, if there
-- is a return code.
pub client_reads_suback :
    (packet_id code : ℕ) (codes : List ℕ)
    → packet_id < 65536
    → decode_suback_body (u16_to_be_bytes packet_id ++ (code ∷ codes))
      ≡ ok (packet_id, code ∷ codes)
unfolding decode_suback_body u16_to_be_bytes index slice_from
client_reads_suback packet_id code codes h =
    rw
      (
        le→ltb (length (packet_id / 256 ∷ packet_id % 256 ∷ code ∷ codes)) 3 (omega arith),
        u16-from-to packet_id,
        le→leb 2 (length (packet_id / 256 ∷ packet_id % 256 ∷ code ∷ codes)) (omega arith),
      )
      refl
