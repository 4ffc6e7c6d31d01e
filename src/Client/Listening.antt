-- ===== src/Client/Listening.antt =====
-- What `run_sub` of src/bin/blitzclient.rs prints of the packets that the broker sends.
use blitz_broker.Common.{
  ◌≤◌, length-append, ℕ, zero, suc, ◌+◌, ◌/◌, ◌%◌, ◌^◌, ◌<◌, ◌≡◌, refl, ap, ◌∙◌, List, [], ◌∷◌,
  ◌++◌, map, append-nil, append_assoc, arith, length, All, nat_eq, list_eq,
}
use blitz_broker.Outcome.{ok, err}
use blitz_broker.Slice.{u16_to_be_bytes}
use blitz_broker.Protocol.Packet.{
  Str, MqttPacket, PublishPacket, connect, subscribe, sub_ack, publish,
}
use blitz_broker.Protocol.Encode.{encode, publish_flags}
use blitz_broker.Protocol.WellFormed.{IsPublish}
use blitz_broker.Protocol.RoundTrip.Publish.{publish_body, HasIdFor-le, publish_flags_fields}
use blitz_broker.Connection.{writer_loop}
use blitz_broker.Client.{encode_connect, encode_subscribe}
use blitz_broker.Client.Receives.{client_reads_publish, client_reads_suback}
use blitz_broker.Client.Socket.{Socket, ◌>>=◌, write_all, print_line, read_exact}
use blitz_broker.Client.Decode.{header_unread, unexpected_packet}
use blitz_broker.Client.Frame.{read_packet}
use blitz_broker.Client.Lossy.{from_utf8_lossy}
use blitz_broker.Client.Framing.{left, read_packet-framed}
use blitz_broker.Client.Answers.{suback_framed, publish_framed, expect-framed}
use blitz_broker.Client.Sessions.{answers_to, linked, replies, accepts, connects}
use blitz_broker.Client.Run
use blitz_broker.Client.Understood.{subscribe_packet, connect_packet}

-- A publish that the broker can deliver: well formed, with fewer than 2 ^ 28 bytes behind its header.
abbrev pub IsDelivered : PublishPacket → Type 0
IsDelivered p = IsPublish p × (length (publish_body p) < 2 ^ 28)

-- The topic, and the payload as text.
abbrev pub line_of : PublishPacket → Str × Str
line_of p = (p.topic, from_utf8_lossy p.payload)

delivered_read :
    (p : PublishPacket) (rest : List ℕ) (s : Socket)
    → IsDelivered p
    → s.incoming ≡ encode (publish p) ++ rest
    → read_packet s ≡ (left s rest, ok (3, publish_flags p.qos p.retain, publish_body p))
delivered_read p rest s (whole, small) h =
    let le = HasIdFor-le p.qos p.packet_id whole.4 in
    let (_, _, flags) = publish_flags_fields p.qos p.retain le in
    let high : (0x30 + publish_flags p.qos p.retain) / 16 ≡ 3 = omega arith in
    let low : (0x30 + publish_flags p.qos p.retain) % 16 ≡ publish_flags p.qos p.retain =
      omega arith in
    read_packet-framed (0x30 + publish_flags p.qos p.retain) (publish_body p) rest s (omega arith)
      small (h ∙ ap (λ bytes. bytes ++ rest) (publish_framed p le small))
    ∙ rw (high, low) refl

shown :
    (p : PublishPacket) (s : Socket)
    → IsPublish p
    → s.print_failures ≡ []
    → Run.show_packet (3, publish_flags p.qos p.retain, publish_body p) s
      ≡ (record s { printed = s.printed ++ (line_of p ∷ []) }, ok tt)
unfolding Run.show_packet Run.print_publish print_line
shown p s h fine = rw (client_reads_publish p h, fine) refl

end_read :
    (written : List ℕ) (printed : List (Str × Str))
    → read_packet (linked [] written printed) ≡ (linked [] written printed, err header_unread)
unfolding read_packet read_exact
end_read written printed = refl

listens :
    (ps : List PublishPacket) (fuel : ℕ) (written : List ℕ) (printed : List (Str × Str))
    → All IsDelivered ps
    → length ps < fuel
    → Run.listen fuel (linked (replies (map publish ps)) written printed)
      ≡ (linked [] written (printed ++ map line_of ps), ok tt)
unfolding Run.listen writer_loop
listens ps zero written printed h enough = absurd (omega arith)
listens [] (suc fuel) written printed h enough =
    rw (append-nil printed, end_read written printed) refl
listens (p ∷ ps) (suc fuel) written printed h enough =
    let s = linked (replies (map publish (p ∷ ps))) written printed in
    let s' = linked (replies (map publish ps)) written printed in
    rw (◌>>=◌, delivered_read p (replies (map publish ps)) s h.0 refl, shown p s' h.0.0 refl)
      (listens ps fuel written (printed ++ (line_of p ∷ [])) h.1 (omega arith)
        ∙ rw append_assoc refl)

replies-at_least : (ps : List PublishPacket) → length ps ≤ length (replies (map publish ps))
unfolding writer_loop encode blitz_broker.Protocol.Encode.encode_publish
    blitz_broker.Protocol.Encode.prepend_fixed_header
replies-at_least [] = omega arith
replies-at_least (p ∷ ps) =
    omega
      (arith, length-append (encode (publish p)) (replies (map publish ps)), replies-at_least ps)

-- The packets that `run_sub` sends before it listens, and their bytes.
abbrev pub sub_packets : Str → Str → List MqttPacket
sub_packets process_id filter =
    connect (connect_packet (Run.client_id_of process_id) 60)
    ∷ subscribe (subscribe_packet 1 filter 0)
    ∷ []

abbrev pub sub_bytes : Str → Str → List ℕ
sub_bytes process_id filter =
    encode_connect (Run.client_id_of process_id) 60 ++ encode_subscribe 1 filter 0

granted :
    (packets : List MqttPacket) (written : List ℕ)
    → Run.await_suback 1 (
        linked
          (replies (sub_ack (record { packet_id = 1; return_codes = 0 ∷ [] }) ∷ packets))
          written
          [])
      ≡ (linked (replies packets) written [], ok tt)
unfolding Run.await_suback Run.check_granted writer_loop u16_to_be_bytes
granted packets written =
    let rest = replies packets in
    let answered : Run.expect 9 (
          linked (encode (sub_ack (record { packet_id = 1; return_codes = 0 ∷ [] })) ++ rest)
            written [])
        ≡ (linked rest written [], ok (0 ∷ 1 ∷ 0 ∷ [])) =
      expect-framed 9 0 (0 ∷ 1 ∷ 0 ∷ []) rest _ (omega arith) (omega arith) (omega arith)
        (ap (λ bytes. bytes ++ rest) (suback_framed 1 (0 ∷ []) (omega arith))) in
    rw (◌>>=◌, answered, client_reads_suback 1 0 [] (omega arith)) refl

-- On the answers that the broker gives to its packets, and publishes that the broker delivers behind them,
-- `run_sub` prints the topic and the payload of each publish, in their order and each once, and ends well
-- at the end of the connection, if no write to the socket or to the standard output or error fails. A payload is
-- printed as `from_utf8_lossy` makes it text. It writes the CONNECT and the SUBSCRIBE.
pub run_sub_session :
    (process_id filter : Str) (ps : List PublishPacket)
    → All IsDelivered ps
    → Run.run_sub process_id filter
        (linked (replies (answers_to (sub_packets process_id filter) ++ map publish ps)) [] [])
      ≡ (linked [] (sub_bytes process_id filter) (map line_of ps), ok tt)
unfolding Run.run_sub Run.listen_all write_all
run_sub_session process_id filter ps h =
    rw
      (
        ◌>>=◌,
        connects process_id
            (sub_ack (record { packet_id = 1; return_codes = 0 ∷ [] }) ∷ map publish ps),
        granted (map publish ps) (sub_bytes process_id filter),
        listens ps (length (replies (map publish ps)) + 1) (sub_bytes process_id filter) [] h
            (omega (arith, replies-at_least ps)),
      )
      refl

-- A publish that comes before the SUBACK, as that of a retained message may, ends `run_sub` with an error:
-- nothing is printed, and what comes later is not read.
pub run_sub_early :
    (process_id filter : Str) (p : PublishPacket) (packets : List MqttPacket)
    → IsDelivered p
    → Run.run_sub process_id filter (linked (replies (accepts ∷ publish p ∷ packets)) [] [])
      ≡ (linked (replies packets) (sub_bytes process_id filter) [], err (unexpected_packet 9 3))
unfolding Run.run_sub Run.await_suback Run.expect write_all writer_loop
run_sub_early process_id filter p packets h =
    rw
      (
        ◌>>=◌,
        connects process_id (publish p ∷ packets),
        delivered_read p (replies packets)
            (linked (replies (publish p ∷ packets)) (sub_bytes process_id filter) []) h refl,
      )
      refl
