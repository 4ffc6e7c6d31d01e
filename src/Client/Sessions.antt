-- ===== src/Client/Sessions.antt =====
-- The sessions of src/bin/blitzclient.rs with a broker: what `run_pub` and `run_sub` do with its answers.
use blitz_broker.Common.{
  Option, some, none, ◌≤◌, if◌then◌else◌, zero, suc, ◌==◌, ℕ, ◌≡◌, refl, ap, true, false, List, [],
  ◌∷◌, ◌++◌, map, arith, nat_eq, list_eq,
}
use blitz_broker.Outcome.{ok}
use blitz_broker.Slice.{u16_to_be_bytes, u16-from-to}
use blitz_broker.Protocol.Packet.{publish, pub_ack, connect, Str, MqttPacket, conn_ack, accepted}
use blitz_broker.Protocol.Encode.{encode}
use blitz_broker.Broker.{packet_event}
use blitz_broker.Connection.{writer_loop}
use blitz_broker.Client.{encode_disconnect, encode_publish, encode_connect}
use blitz_broker.Client.Decode.{decode_puback_body, decode_connack_body}
use blitz_broker.Client.Socket.{Socket, ◌>>=◌, dial, write_all}
use blitz_broker.Client.Answers.{puback_framed, connack_framed, expect-framed}
use blitz_broker.Client.Run
use blitz_broker.Connection.Answers.{answer_to}
use blitz_broker.Client.Understood.{publish_packet, connect_packet}

-- The bytes that the broker's writer makes of packets.
abbrev pub replies : List MqttPacket → List ℕ
replies packets = writer_loop (map packet_event packets)

-- A connection on which every write succeeds, as every print does.
abbrev pub linked : List ℕ → List ℕ → List (Str × Str) → Socket
linked incoming written printed = record {
  is_reachable = true;
  incoming = incoming;
  failures = [];
  written = written;
  print_failures = [];
  printed = printed;
}

abbrev pub accepts : MqttPacket
accepts = conn_ack (record { session_present = false; return_code = accepted })

pub connects :
    (process_id : Str) (packets : List MqttPacket)
    → Run.connect_to_broker process_id (linked (replies (accepts ∷ packets)) [] [])
      ≡ (linked (replies packets) (encode_connect (Run.client_id_of process_id) 60) [], ok tt)
unfolding Run.connect_to_broker dial write_all writer_loop decode_connack_body
    blitz_broker.Slice.index
connects process_id packets =
    let request = encode_connect (Run.client_id_of process_id) 60 in
    let answered : Run.expect 2 (linked (encode accepts ++ replies packets) request [])
        ≡ (linked (replies packets) request [], ok (0 ∷ 0 ∷ [])) =
      expect-framed 2 0 (0 ∷ 0 ∷ []) (replies packets) _ (omega arith) (omega arith) (omega arith)
        (ap (λ bytes. bytes ++ replies packets) connack_framed) in
    rw (◌>>=◌, answered) refl

-- The `PUBACK` with the identifier that is due.
acked :
    (packets : List MqttPacket) (written : List ℕ)
    → Run.await_ack
        (some 1)
        (linked (replies (pub_ack (record { packet_id = 1 }) ∷ packets)) written [])
      ≡ (linked (replies packets) written [], ok tt)
unfolding Run.await_ack writer_loop decode_puback_body blitz_broker.Slice.index u16_to_be_bytes
    blitz_broker.Slice.u16_from_be_bytes
acked packets written =
    let rest = replies packets in
    let answered : Run.expect 4
          (linked (encode (pub_ack (record { packet_id = 1 })) ++ rest) written [])
        ≡ (linked rest written [], ok (0 ∷ 1 ∷ [])) =
      expect-framed 4 0 (0 ∷ 1 ∷ []) rest _ (omega arith) (omega arith) (omega arith)
        (ap (λ bytes. bytes ++ rest) (puback_framed 1)) in
    rw (◌>>=◌, answered) refl

-- The packets that `run_pub` sends.
abbrev pub pub_id : ℕ → Option ℕ
pub_id qos = if qos == 1 then some 1 else none

abbrev pub pub_packets : Str → Str → Str → ℕ → List MqttPacket
pub_packets process_id topic message qos =
    connect (connect_packet (Run.client_id_of process_id) 60)
    ∷ publish (publish_packet topic message qos (pub_id qos))
    ∷ []

-- Their bytes, with the DISCONNECT.
abbrev pub pub_bytes : Str → Str → Str → ℕ → List ℕ
pub_bytes process_id topic message qos =
    (encode_connect (Run.client_id_of process_id) 60
      ++ encode_publish topic message qos (pub_id qos))
    ++ encode_disconnect

abbrev pub answers_to : List MqttPacket → List MqttPacket
answers_to [] = []
answers_to (p ∷ packets) = answer_to p ++ answers_to packets

-- At QoS 0 or 1, `run_pub` ends well on the answers that the broker gives to its packets, whatever
-- follows them: it reads these and no more, and writes the CONNECT, the PUBLISH and the DISCONNECT.
pub run_pub_session :
    (process_id topic message : Str) (qos : ℕ) (packets : List MqttPacket)
    → qos ≤ 1
    → Run.run_pub process_id topic message qos
        (linked (replies (answers_to (pub_packets process_id topic message qos) ++ packets)) [] [])
      ≡ (linked (replies packets) (pub_bytes process_id topic message qos) [], ok tt)
unfolding Run.run_pub write_all
run_pub_session process_id topic message zero packets h =
    rw (◌>>=◌, connects process_id packets) refl
run_pub_session process_id topic message (suc zero) packets h =
    rw (◌>>=◌, connects process_id (pub_ack (record { packet_id = 1 }) ∷ packets), acked packets)
      refl
run_pub_session process_id topic message (suc (suc qos)) packets h = absurd (omega arith)
