-- ===== src/Protocol/RoundTrip/Filters.antt =====
-- SUBSCRIBE and UNSUBSCRIBE, written and read back.
use blitz_broker.Common.{
  All-append, IsByte, ℕ, zero, suc, ◌+◌, ◌/◌, ◌%◌, ◌≤◌, ◌<◌, ◌≡◌, refl, sym, ap, ◌∙◌, List, [], ◌∷◌,
  ◌++◌, append-nil, append_assoc, arith, lt→ltb, le→ltb, lt→leb, length, All, length-append, nat_eq,
  list_eq,
}
use blitz_broker.Outcome.{ok}
use blitz_broker.Slice.{
  index, u16_to_be_bytes, u16-from-to, slice_from-append_length, index-append_length,
}
use blitz_broker.Error.{ProtocolError}
use blitz_broker.Protocol.Packet.{UnsubscribePacket, Str, SubscribePacket}
use blitz_broker.Protocol.Encode.{push_filters, push_subscriptions}
use blitz_broker.Protocol.Decode.{
  decode_unsubscribe, decode_filters, decode_subscriptions, decode_subscribe,
}
use blitz_broker.Protocol.WellFormed.{IsUnsubscribe, IsFilter, IsSubscription, IsSubscribe}
use blitz_broker.Protocol.RoundTrip.Fields.{
  field-IsByte, field, encode_utf8_string-field, decode_utf8_string-field,
}

-- Subscriptions on the wire.
wire_subscriptions : List (Str × ℕ) → List ℕ
wire_subscriptions [] = []
wire_subscriptions ((topic, qos) ∷ subs) = field topic ++ (qos ∷ wire_subscriptions subs)

push_subscriptions-wire :
    (subs : List (Str × ℕ)) (out : List ℕ)
    → All IsSubscription subs
    → push_subscriptions subs out ≡ out ++ wire_subscriptions subs
unfolding push_subscriptions wire_subscriptions
push_subscriptions-wire [] out h = sym (append-nil out)
push_subscriptions-wire ((topic, qos) ∷ subs) out h =
    rw (encode_utf8_string-field topic out h.0.0.0.1)
      (push_subscriptions-wire subs _ h.1 ∙ simp append_assoc refl)

decode_subscriptions-wire :
    (fuel : ℕ) (before : List ℕ) (subs acc : List (Str × ℕ))
    → All IsSubscription subs
    → length subs < fuel
    → decode_subscriptions fuel (before ++ wire_subscriptions subs) (length before) acc
      ≡ ok (acc ++ subs)
unfolding decode_subscriptions wire_subscriptions
decode_subscriptions-wire zero before subs acc h fuelled = absurd (omega arith)
decode_subscriptions-wire (suc fuel) before [] acc h fuelled =
    let end : before ++ [] ≡ before = append-nil before in
    rw (end, le→ltb (length before) (length before) (omega arith)) (ap ok (sym (append-nil acc)))
decode_subscriptions-wire (suc fuel) before ((topic, qos) ∷ subs) acc h fuelled =
    let (((text, valid), small), others) = h in
    let after = wire_subscriptions subs in
    let body = before ++ (field topic ++ (qos ∷ after)) in
    let read = before ++ field topic in
    let at : length before + (2 + length topic) ≡ length read =
      omega (arith, length-append before (field topic)) in
    let split_body : body ≡ read ++ (qos ∷ after) =
      sym (append_assoc before (field topic) (qos ∷ after)) in
    let next : length read + 1 ≡ length (read ++ (qos ∷ [])) =
      omega (arith, length-append read (qos ∷ [])) in
    rw
      (
        lt→ltb (length before) (length body)
            (omega (arith, length-append before (field topic ++ (qos ∷ after)))),
        slice_from-append_length {E = ProtocolError} before (field topic ++ (qos ∷ after)),
        decode_utf8_string-field topic (qos ∷ after) text,
        valid,
        at,
        split_body,
        lt→leb (length (read ++ (qos ∷ after))) (length read)
            (omega (arith, length-append read (qos ∷ after))),
        index-append_length {E = ProtocolError} read qos after,
        le→ltb 2 qos small,
        next,
        ← append_assoc read (qos ∷ []) after,
      )
      (decode_subscriptions-wire fuel (read ++ (qos ∷ [])) subs (acc ++ ((topic, qos) ∷ [])) others
          (omega arith)
        ∙ ap ok (append_assoc acc ((topic, qos) ∷ []) subs))

length-wire_subscriptions : (subs : List (Str × ℕ)) → length subs ≤ length (wire_subscriptions subs)
unfolding wire_subscriptions
length-wire_subscriptions [] = omega arith
length-wire_subscriptions ((topic, qos) ∷ subs) =
    omega
      (arith, length-append topic (qos ∷ wire_subscriptions subs), length-wire_subscriptions subs)

nonempty-wire_subscriptions :
    (subs : List (Str × ℕ)) → 0 < length subs → 0 < length (wire_subscriptions subs)
nonempty-wire_subscriptions subs h = omega (arith, length-wire_subscriptions subs)

-- The body of a SUBSCRIBE decodes to the packet.
pub decode_subscribe-body :
    (p : SubscribePacket)
    → IsSubscribe p
    → decode_subscribe (push_subscriptions p.subscriptions (u16_to_be_bytes p.packet_id)) ≡ ok p
unfolding decode_subscribe u16_to_be_bytes index
decode_subscribe-body p h =
    let id_bytes = p.packet_id / 256 ∷ p.packet_id % 256 ∷ [] in
    let wire = wire_subscriptions p.subscriptions in
    rw
      (
        push_subscriptions-wire p.subscriptions id_bytes h.2,
        le→ltb (length (id_bytes ++ wire)) 2 (omega arith),
        lt→leb (length (id_bytes ++ wire)) 2
            (omega (arith, nonempty-wire_subscriptions p.subscriptions h.1)),
        decode_subscriptions-wire (length (id_bytes ++ wire)) id_bytes p.subscriptions [] h.2
            (omega (arith, length-wire_subscriptions p.subscriptions)),
        u16-from-to p.packet_id,
      )
      refl

-- Topic filters on the wire.
wire_filters : List Str → List ℕ
wire_filters [] = []
wire_filters (topic ∷ topics) = field topic ++ wire_filters topics

push_filters-wire :
    (topics : List Str) (out : List ℕ)
    → All IsFilter topics
    → push_filters topics out ≡ out ++ wire_filters topics
unfolding push_filters wire_filters
push_filters-wire [] out h = sym (append-nil out)
push_filters-wire (topic ∷ topics) out h =
    rw (encode_utf8_string-field topic out h.0.0.1)
      (push_filters-wire topics _ h.1 ∙ append_assoc out (field topic) (wire_filters topics))

decode_filters-wire :
    (fuel : ℕ) (before : List ℕ) (topics acc : List Str)
    → All IsFilter topics
    → length topics < fuel
    → decode_filters fuel (before ++ wire_filters topics) (length before) acc ≡ ok (acc ++ topics)
unfolding decode_filters wire_filters
decode_filters-wire zero before topics acc h fuelled = absurd (omega arith)
decode_filters-wire (suc fuel) before [] acc h fuelled =
    let end : before ++ [] ≡ before = append-nil before in
    rw (end, le→ltb (length before) (length before) (omega arith)) (ap ok (sym (append-nil acc)))
decode_filters-wire (suc fuel) before (topic ∷ topics) acc h fuelled =
    let ((text, valid), others) = h in
    let after = wire_filters topics in
    let read = before ++ field topic in
    let at : length before + (2 + length topic) ≡ length read =
      omega (arith, length-append before (field topic)) in
    rw
      (
        lt→ltb (length before) (length (before ++ (field topic ++ after)))
            (omega (arith, length-append before (field topic ++ after))),
        slice_from-append_length {E = ProtocolError} before (field topic ++ after),
        decode_utf8_string-field topic after text,
        valid,
        at,
        ← append_assoc before (field topic) after,
      )
      (decode_filters-wire fuel read topics (acc ++ (topic ∷ [])) others (omega arith)
        ∙ ap ok (append_assoc acc (topic ∷ []) topics))

length-wire_filters : (topics : List Str) → length topics ≤ length (wire_filters topics)
unfolding wire_filters
length-wire_filters [] = omega arith
length-wire_filters (topic ∷ topics) =
    omega (arith, length-append topic (wire_filters topics), length-wire_filters topics)

nonempty-wire_filters : (topics : List Str) → 0 < length topics → 0 < length (wire_filters topics)
nonempty-wire_filters topics h = omega (arith, length-wire_filters topics)

-- The body of an UNSUBSCRIBE decodes to the packet.
pub decode_unsubscribe-body :
    (p : UnsubscribePacket)
    → IsUnsubscribe p
    → decode_unsubscribe (push_filters p.topic_filters (u16_to_be_bytes p.packet_id)) ≡ ok p
unfolding decode_unsubscribe u16_to_be_bytes index
decode_unsubscribe-body p h =
    let id_bytes = p.packet_id / 256 ∷ p.packet_id % 256 ∷ [] in
    let wire = wire_filters p.topic_filters in
    rw
      (
        push_filters-wire p.topic_filters id_bytes h.2,
        le→ltb (length (id_bytes ++ wire)) 2 (omega arith),
        lt→leb (length (id_bytes ++ wire)) 2
            (omega (arith, nonempty-wire_filters p.topic_filters h.1)),
        decode_filters-wire (length (id_bytes ++ wire)) id_bytes p.topic_filters [] h.2
            (omega (arith, length-wire_filters p.topic_filters)),
        u16-from-to p.packet_id,
      )
      refl

-- What is pushed consists of bytes.
wire_subscriptions-IsByte :
    (subs : List (Str × ℕ)) → All IsSubscription subs → All IsByte (wire_subscriptions subs)
unfolding wire_subscriptions
wire_subscriptions-IsByte [] h = tt
wire_subscriptions-IsByte ((topic, qos) ∷ subs) h =
    All-append IsByte (field topic) (qos ∷ wire_subscriptions subs) (field-IsByte topic h.0.0.0)
      (omega (arith, h.0.1), wire_subscriptions-IsByte subs h.1)

wire_filters-IsByte : (topics : List Str) → All IsFilter topics → All IsByte (wire_filters topics)
unfolding wire_filters
wire_filters-IsByte [] h = tt
wire_filters-IsByte (topic ∷ topics) h =
    All-append IsByte (field topic) (wire_filters topics) (field-IsByte topic h.0.0)
      (wire_filters-IsByte topics h.1)

pub subscribe_body-IsByte :
    (p : SubscribePacket)
    → IsSubscribe p
    → All IsByte (push_subscriptions p.subscriptions (u16_to_be_bytes p.packet_id))
unfolding u16_to_be_bytes
subscribe_body-IsByte p h =
    rw (push_subscriptions-wire p.subscriptions (u16_to_be_bytes p.packet_id) h.2)
      (omega (arith, h.0), (omega arith, wire_subscriptions-IsByte p.subscriptions h.2))

pub unsubscribe_body-IsByte :
    (p : UnsubscribePacket)
    → IsUnsubscribe p
    → All IsByte (push_filters p.topic_filters (u16_to_be_bytes p.packet_id))
unfolding u16_to_be_bytes
unsubscribe_body-IsByte p h =
    rw (push_filters-wire p.topic_filters (u16_to_be_bytes p.packet_id) h.2)
      (omega (arith, h.0), (omega arith, wire_filters-IsByte p.topic_filters h.2))
