-- ===== src/Client/Conversation.antt =====
-- `run_pub` of src/bin/blitzclient.rs and a connection of src/connection.rs, each at its end of the line.
use blitz_broker.Common.{
  All-append, All-take, All-drop, take-append_length, drop-append_length, length, append-nil, ◌≤◌,
  IsByte, ℕ, ◌≡◌, refl, sym, ap, ◌∙◌, List, [], ◌∷◌, ◌++◌, append_assoc, All, nat_eq, list_eq,
}
use blitz_broker.Outcome.{ok}
use blitz_broker.Protocol.Packet.{Str, MqttPacket, publish, disconnect}
use blitz_broker.Protocol.Encode.{encode, encode_fixed_header_only}
use blitz_broker.Broker.{
  ConnectionId, QueueHandle, BrokerMessage, register_client, publish_from, disconnect_client,
}
use blitz_broker.Connection.{dispatch_packet, Effect, tear_down, reader_loop}
use blitz_broker.Connection.Answers.{
  answers-append, requests-append, answers, requests, asked_by, dispatch_answers,
}
use blitz_broker.Connection.Reader.Chunks.{reader_chunks, concat}
use blitz_broker.Connection.Reader.Packets.{wire-IsByte, IsSent, wire, dispatch_each}
use blitz_broker.Connection.Reader.Leaves.{disconnect-IsByte, reader_leaves}
use blitz_broker.Client.{encode_disconnect}
use blitz_broker.Client.Understood.{publish_packet, connect_same, publish_same}
use blitz_broker.Client.Sessions.{
  linked, replies, answers_to, pub_packets, pub_bytes, pub_id, run_pub_session,
}
use blitz_broker.Client.Run

abbrev pub asked_by_each : ConnectionId → QueueHandle → List MqttPacket → List BrokerMessage
asked_by_each id outbound [] = []
asked_by_each id outbound (p ∷ packets) =
    asked_by id outbound p ++ asked_by_each id outbound packets

module _ (id : ConnectionId) (outbound : QueueHandle) where
  answers_each :
      (packets : List MqttPacket)
      → All IsSent packets
      → answers (dispatch_each id outbound packets ++ tear_down id) ≡ answers_to packets
  answers_each [] h = refl
  answers_each (p ∷ packets) h =
      let (replied, _, _) = dispatch_answers id outbound p h.0.from_client in
      let effects = (dispatch_packet id outbound p).0 in
      ap answers (append_assoc effects (dispatch_each id outbound packets) (tear_down id))
      ∙ answers-append effects (dispatch_each id outbound packets ++ tear_down id)
      ∙ rw (replied, answers_each packets h.1) refl

  requests_each :
      (packets : List MqttPacket)
      → All IsSent packets
      → requests (dispatch_each id outbound packets ++ tear_down id)
        ≡ asked_by_each id outbound packets ++ (disconnect_client id ∷ [])
  requests_each [] h = refl
  requests_each (p ∷ packets) h =
      let (_, asked, _) = dispatch_answers id outbound p h.0.from_client in
      let effects = (dispatch_packet id outbound p).0 in
      ap requests (append_assoc effects (dispatch_each id outbound packets) (tear_down id))
      ∙ requests-append effects (dispatch_each id outbound packets ++ tear_down id)
      ∙ rw (asked, requests_each packets h.1) (sym (append_assoc (asked_by id outbound p) _ _))

sent_bytes :
    (process_id topic message : Str) (qos : ℕ)
    → pub_bytes process_id topic message qos
      ≡ wire (pub_packets process_id topic message qos) ++ (encode disconnect ++ [])
unfolding encode_disconnect encode encode_fixed_header_only
sent_bytes process_id topic message qos =
    rw
      (
        connect_same (Run.client_id_of process_id) 60,
        publish_same topic message qos (pub_id qos),
        append-nil (encode (publish (publish_packet topic message qos (pub_id qos)))),
      )
      refl

concat-All-IsByte : (chunks : List (List ℕ)) → All IsByte (concat chunks) → All (All IsByte) chunks
concat-All-IsByte [] h = tt
concat-All-IsByte (chunk ∷ chunks) h = (
  rw (take-append_length chunk (concat chunks)) at
      (All-take IsByte (length chunk) (concat (chunk ∷ chunks)) h),
  concat-All-IsByte chunks (
      rw (drop-append_length chunk (concat chunks)) at
        (All-drop IsByte (length chunk) (concat (chunk ∷ chunks)) h)),
)

pub_bytes-IsByte :
    (process_id topic message : Str) (qos : ℕ)
    → All IsSent (pub_packets process_id topic message qos)
    → All IsByte (pub_bytes process_id topic message qos)
pub_bytes-IsByte process_id topic message qos sent =
    let packets = pub_packets process_id topic message qos in
    rw (sent_bytes process_id topic message qos) (
      All-append IsByte (wire packets) (encode disconnect ++ []) (wire-IsByte packets sent)
        (All-append IsByte (encode disconnect) [] disconnect-IsByte tt))

-- Cut into pieces in any way, what `run_pub` writes at QoS 0 or 1 makes the reader of the connection
-- register the client, hand the publish to the broker, and take the client off again, and nothing else. On
-- the packets that the reader then pushes to the client, `run_pub` ends well and writes those bytes.
pub run_pub_converses :
    (id : ConnectionId) (outbound : QueueHandle) (process_id topic message : Str) (qos : ℕ)
    (chunk : List ℕ) (chunks : List (List ℕ))
    → qos ≤ 1
    → All IsSent (pub_packets process_id topic message qos)
    → concat (chunk ∷ chunks) ≡ pub_bytes process_id topic message qos
    → (effects : List Effect) × (reader_loop id outbound [] (chunk ∷ chunks) ≡ ok effects)
      × (requests effects
          ≡ register_client id (Run.client_id_of process_id) outbound
            ∷ publish_from id (publish_packet topic message qos (pub_id qos))
            ∷ disconnect_client id
            ∷ [])
      × (Run.run_pub process_id topic message qos (linked (replies (answers effects)) [] [])
          ≡ (linked [] (pub_bytes process_id topic message qos) [], ok tt))
unfolding blitz_broker.Connection.writer_loop
run_pub_converses id outbound process_id topic message qos chunk chunks le sent whole =
    let packets = pub_packets process_id topic message qos in
    let total : All IsByte (concat (chunk ∷ chunks)) =
      rw whole (pub_bytes-IsByte process_id topic message qos sent) in
    let hc = concat-All-IsByte (chunk ∷ chunks) total in
    let read : reader_loop id outbound [] (chunk ∷ chunks)
        ≡ ok (dispatch_each id outbound packets ++ tear_down id) =
      reader_chunks id outbound chunk chunks [] tt hc
      ∙ rw (whole, sent_bytes process_id topic message qos)
          (reader_leaves id outbound packets [] sent tt) in
    (
      dispatch_each id outbound packets ++ tear_down id,
      read,
      requests_each id outbound packets sent,
      ap (λ ps. Run.run_pub process_id topic message qos (linked (replies ps) [] []))
            (answers_each id outbound packets sent ∙ sym (append-nil (answers_to packets)))
          ∙ run_pub_session process_id topic message qos [] le,
    )
