-- ===== src/Protocol/Settles/Bodies.antt =====
-- The decoders of the packets' bodies return.
use blitz_broker.Common.{
  ℕ, zero, suc, ◌+◌, ◌-◌, ◌/◌, ◌≤◌, ◌<◌, bit_and, ◌≡◌, false, not, ◌||◌, List, [], ◌∷◌, ◌++◌, arith,
  ltb, leb, ◌==◌, ==_iff, tests, length, All, length-append, All-append, IsByte, low_two, nat_eq,
  list_beq, list_beq_iff, contains, list_eq,
}
use blitz_broker.Outcome.{
  Outcome, ok, Returns, returns_ok, returns_err, Returns-reject_if, Returns-if, Returns-bind,
  Returns-map_err, ◌>>=◌,
}
use blitz_broker.Slice.{index-Returns, slice_from-Returns, u16_from_be_bytes, u16-IsWord}
use blitz_broker.Error.{ProtocolError}
use blitz_broker.Protocol.Packet.{
  Str, MqttPacket, connect, subscribe, unsubscribe, publish, pub_ack, pt_connect, pt_connack,
  pt_publish, pt_puback, pt_subscribe, pt_suback, pt_unsubscribe, pt_unsuback, pt_pingreq,
  pt_pingresp, pt_disconnect,
}
use blitz_broker.Protocol.Topic.{plus, hash}
use blitz_broker.Protocol.Decode.{
  mqtt, has_bit, decode_connect, decode_subscriptions, decode_subscribe, decode_filters,
  decode_unsubscribe, decode_publish_id, decode_publish, decode_puback, decode_body,
}
use blitz_broker.Protocol.WellFormed.{
  IsFatal, malformed-IsFatal, unsupported-IsFatal, IsConnect, IsSubscription, IsSubscribe, IsFilter,
  IsUnsubscribe, IsPublish, IsPubAck, IsFromClient, HasIdFor,
}
use blitz_broker.Protocol.Settles.Text.{
  decode_utf8_string-Returns, validate_topic_filter-Returns, not-false,
}

decode_connect-Returns :
    (body : List ℕ) → All IsByte body → Returns IsConnect IsFatal (decode_connect body)
unfolding decode_connect
decode_connect-Returns body hb = Returns-bind (decode_utf8_string-Returns body hb) λ (name, pos) n.
    Returns-reject_if (not (list_beq name mqtt)) _ (malformed-IsFatal _) λ named.
      Returns-reject_if (ltb (length body) (pos + 1)) _ (malformed-IsFatal _) λ h1.
        Returns-bind (index-Returns {P = IsByte} body pos hb (omega tests)) λ level _.
          Returns-reject_if (not (level == 4)) _ (unsupported-IsFatal _) λ is_four.
            Returns-reject_if (ltb (length body) (pos + 1 + 1)) _ (malformed-IsFatal _) λ h2.
              Returns-bind (index-Returns {P = IsByte} body (pos + 1) hb (omega tests)) λ flags _.
                Returns-reject_if (has_bit flags 0x04 || (has_bit flags 0x80 || has_bit flags 0x40))
                  _ (unsupported-IsFatal _)
                  λ _.
                    Returns-reject_if (ltb (length body) (pos + 2 + 2)) _ (malformed-IsFatal _)
                      λ h4.
                        Returns-bind (index-Returns {P = IsByte} body (pos + 2) hb (omega tests))
                          λ hi his.
                            Returns-bind
                              (index-Returns {P = IsByte} body (pos + 3) hb (omega tests))
                              λ lo los.
                                Returns-bind
                                  (slice_from-Returns {P = IsByte} body (pos + 4) hb (omega tests))
                                  λ rest r.
                                    Returns-bind
                                      (Returns-map_err _ (decode_utf8_string-Returns rest r.0)
                                        λ _. malformed-IsFatal _)
                                      λ (client_id, after) c.
                                        Returns-reject_if (not (pos + 4 + after == length body)) _
                                          (malformed-IsFatal _)
                                          λ _. returns_ok (
                                            (list_beq_iff name mqtt).0 (not-false _ named),
                                            (==_iff level 4).0 (not-false _ is_four),
                                            u16-IsWord hi lo his los,
                                            c.0,
                                          )

decode_subscriptions-Returns :
    (fuel : ℕ) (body : List ℕ) (pos : ℕ) (subs : List (Str × ℕ))
    → All IsByte body
    → All IsSubscription subs
    → pos ≤ length body
    → length body < pos + fuel
    → 0 < length subs + (length body - pos)
    → Returns
        (λ out. All IsSubscription out × (0 < length out))
        IsFatal
        (decode_subscriptions fuel body pos subs)
unfolding decode_subscriptions
decode_subscriptions-Returns zero body pos subs hb hs inside fuelled some_left =
    absurd (omega arith)
decode_subscriptions-Returns (suc fuel) body pos subs hb hs inside fuelled some_left =
    Returns-if (ltb pos (length body))
      (λ more. Returns-bind (slice_from-Returns {P = IsByte} body pos hb inside) λ rest r.
        Returns-bind
          (Returns-map_err _ (decode_utf8_string-Returns rest r.0) λ _. malformed-IsFatal _)
          λ (topic, consumed) t. Returns-bind (validate_topic_filter-Returns topic) λ _ valid.
            Returns-reject_if (leb (length body) (pos + consumed)) _ (malformed-IsFatal _) λ h1.
              Returns-bind (index-Returns {P = IsByte} body (pos + consumed) hb (omega tests))
                λ qos _. Returns-reject_if (ltb 2 qos) _ (malformed-IsFatal _) λ small.
                  decode_subscriptions-Returns fuel body (pos + consumed + 1)
                    (subs ++ ((topic, qos) ∷ [])) hb
                    (All-append IsSubscription subs _ hs (((t.0, valid), omega tests), tt))
                    (omega tests) (omega tests)
                    (omega (arith, length-append subs ((topic, qos) ∷ []))))
      (λ done. returns_ok (hs, omega tests))

decode_subscribe-Returns :
    (body : List ℕ) → All IsByte body → Returns IsSubscribe IsFatal (decode_subscribe body)
unfolding decode_subscribe
decode_subscribe-Returns body hb =
    Returns-reject_if (ltb (length body) 2) _ (malformed-IsFatal _) λ h1.
      Returns-bind (index-Returns {P = IsByte} body 0 hb (omega tests)) λ hi his.
        Returns-bind (index-Returns {P = IsByte} body 1 hb (omega tests)) λ lo los.
          Returns-reject_if (leb (length body) 2) _ (malformed-IsFatal _) λ h2.
            Returns-bind
              (decode_subscriptions-Returns (length body) body 2 [] hb tt (omega tests)
                (omega arith) (omega tests))
              λ subs s. returns_ok (u16-IsWord hi lo his los, s.1, s.0)

decode_filters-Returns :
    (fuel : ℕ) (body : List ℕ) (pos : ℕ) (topics : List Str)
    → All IsByte body
    → All IsFilter topics
    → pos ≤ length body
    → length body < pos + fuel
    → 0 < length topics + (length body - pos)
    → Returns
        (λ out. All IsFilter out × (0 < length out))
        IsFatal
        (decode_filters fuel body pos topics)
unfolding decode_filters
decode_filters-Returns zero body pos topics hb hs inside fuelled some_left = absurd (omega arith)
decode_filters-Returns (suc fuel) body pos topics hb hs inside fuelled some_left =
    Returns-if (ltb pos (length body))
      (λ more. Returns-bind (slice_from-Returns {P = IsByte} body pos hb inside) λ rest r.
        Returns-bind
          (Returns-map_err _ (decode_utf8_string-Returns rest r.0) λ _. malformed-IsFatal _)
          λ (topic, consumed) t. Returns-bind (validate_topic_filter-Returns topic) λ _ valid.
            decode_filters-Returns fuel body (pos + consumed) (topics ++ (topic ∷ [])) hb
              (All-append IsFilter topics _ hs ((t.0, valid), tt)) (omega tests) (omega tests)
              (omega (arith, length-append topics (topic ∷ []))))
      (λ done. returns_ok (hs, omega tests))

decode_unsubscribe-Returns :
    (body : List ℕ) → All IsByte body → Returns IsUnsubscribe IsFatal (decode_unsubscribe body)
unfolding decode_unsubscribe
decode_unsubscribe-Returns body hb =
    Returns-reject_if (ltb (length body) 2) _ (malformed-IsFatal _) λ h1.
      Returns-bind (index-Returns {P = IsByte} body 0 hb (omega tests)) λ hi his.
        Returns-bind (index-Returns {P = IsByte} body 1 hb (omega tests)) λ lo los.
          Returns-reject_if (leb (length body) 2) _ (malformed-IsFatal _) λ h2.
            Returns-bind
              (decode_filters-Returns (length body) body 2 [] hb tt (omega tests) (omega arith)
                (omega tests))
              λ topics s. returns_ok (u16-IsWord hi lo his los, s.1, s.0)

decode_publish_id-Returns :
    (qos : ℕ) (body : List ℕ) (pos : ℕ)
    → All IsByte body
    → pos ≤ length body
    → qos ≤ 1
    → Returns
        (λ (id, end). HasIdFor qos id × (end ≤ length body))
        IsFatal
        (decode_publish_id qos body pos)
unfolding decode_publish_id
decode_publish_id-Returns qos body pos hb inside small =
    Returns-if (qos == 0) (λ zero_qos. returns_ok ((==_iff qos 0).0 zero_qos, inside))
      λ other. Returns-reject_if (ltb (length body) (pos + 2)) _ (malformed-IsFatal _) λ h1.
        Returns-bind (index-Returns {P = IsByte} body pos hb (omega tests)) λ hi his.
          Returns-bind (index-Returns {P = IsByte} body (pos + 1) hb (omega tests)) λ lo los.
            Returns-reject_if (u16_from_be_bytes hi lo == 0) _ (malformed-IsFatal _) λ nonzero.
              returns_ok ((ground arith, ground arith, u16-IsWord hi lo his los), omega tests)

qos_small :
    (b : ℕ)
    → IsByte b
    → (bit_and b 0x03 == 3) ≡ false
    → (bit_and b 0x03 == 2) ≡ false
    → bit_and b 0x03 ≤ 1
qos_small b hb not3 not2 = ground (arith, low_two b hb)

decode_publish-Returns :
    (flags : ℕ) (body : List ℕ)
    → IsByte flags
    → All IsByte body
    → Returns IsPublish IsFatal (decode_publish flags body)
unfolding decode_publish
decode_publish-Returns flags body hf hb =
    let qos = bit_and (flags / 2) 0x03 in
    Returns-reject_if (qos == 3) _ (malformed-IsFatal _) λ not3.
      Returns-reject_if (qos == 2) _ (unsupported-IsFatal _) λ not2.
        Returns-bind
          (Returns-map_err _ (decode_utf8_string-Returns body hb) λ _. malformed-IsFatal _)
          λ (topic, pos) t.
            Returns-reject_if (list_beq topic []) _ (malformed-IsFatal _) λ nonempty.
              Returns-reject_if (contains topic plus || contains topic hash) _ (malformed-IsFatal _)
                λ no_wildcard.
                  Returns-bind
                    (decode_publish_id-Returns qos body pos hb (omega arith)
                      (qos_small (flags / 2) (omega arith) not3 not2))
                    λ (id, end) i.
                      Returns-bind (slice_from-Returns {P = IsByte} body end hb i.1)
                        λ payload bytes. returns_ok (
                          t.0,
                          (λ e. ground (arith, (list_beq_iff topic []).1 e)),
                          ground arith,
                          ground arith,
                          i.0,
                          bytes.0,
                        )

decode_puback-Returns :
    (body : List ℕ) → All IsByte body → Returns IsPubAck IsFatal (decode_puback body)
unfolding decode_puback
decode_puback-Returns body hb =
    Returns-reject_if (not (length body == 2)) _ (malformed-IsFatal _) λ two.
      let len : length body ≡ 2 = (==_iff _ 2).0 (not-false _ two) in
      Returns-bind (index-Returns {P = IsByte} body 0 hb (omega arith)) λ hi his.
        Returns-bind (index-Returns {P = IsByte} body 1 hb (omega arith)) λ lo los.
          Returns-reject_if (u16_from_be_bytes hi lo == 0) _ (malformed-IsFatal _)
            λ nonzero. returns_ok (ground arith, u16-IsWord hi lo his los)

-- Wrapping a decoded body as a packet.
wrap-Returns :
    {A : Type 0} {P : A → Type 0} {r : Outcome ProtocolError A} (c : A → MqttPacket)
    → Returns P IsFatal r
    → ((a : A) → P a → IsFromClient (c a))
    → Returns IsFromClient IsFatal (r >>= λ a. ok (c a))
wrap-Returns c h k = Returns-bind h λ a p. returns_ok (k a p)

-- For every packet type, flags and body, decoding returns: a packet that a client may send, or an error
-- that more input does not mend.
pub decode_body-Returns :
    (packet_type flags : ℕ) (body : List ℕ)
    → IsByte flags
    → All IsByte body
    → Returns IsFromClient IsFatal (decode_body packet_type flags body)
unfolding decode_body
decode_body-Returns packet_type flags body hf hb =
    Returns-if (packet_type == pt_connect)
      (λ _. wrap-Returns connect (decode_connect-Returns body hb) (λ a p. p))
      λ _.
        Returns-if (packet_type == pt_subscribe)
          (λ _. wrap-Returns subscribe (decode_subscribe-Returns body hb) (λ a p. p))
          λ _.
            Returns-if (packet_type == pt_unsubscribe)
              (λ _. wrap-Returns unsubscribe (decode_unsubscribe-Returns body hb) (λ a p. p))
              λ _.
                Returns-if (packet_type == pt_publish)
                  (λ _. wrap-Returns publish (decode_publish-Returns flags body hf hb) (λ a p. p))
                  λ _.
                    Returns-if (packet_type == pt_puback)
                      (λ _.
                        Returns-reject_if (not (flags == 0)) _ (malformed-IsFatal _)
                          λ _. wrap-Returns pub_ack (decode_puback-Returns body hb) (λ a p. p))
                      λ _.
                        Returns-if (packet_type == pt_pingreq)
                          (λ _.
                            Returns-reject_if (not (length body == 0)) _ (malformed-IsFatal _)
                              λ _. returns_ok tt)
                          λ _.
                            Returns-if (packet_type == pt_disconnect)
                              (λ _.
                                Returns-reject_if (not (length body == 0)) _ (malformed-IsFatal _)
                                  λ _. returns_ok tt)
                              λ _.
                                Returns-if (packet_type == pt_connack)
                                  (λ _. returns_err (unsupported-IsFatal _))
                                  λ _.
                                    Returns-if (packet_type == pt_suback)
                                      (λ _. returns_err (unsupported-IsFatal _))
                                      λ _.
                                        Returns-if (packet_type == pt_unsuback)
                                          (λ _. returns_err (unsupported-IsFatal _))
                                          λ _.
                                            Returns-if (packet_type == pt_pingresp)
                                              (λ _. returns_err (unsupported-IsFatal _))
                                              λ _. returns_err (λ e. cc)
