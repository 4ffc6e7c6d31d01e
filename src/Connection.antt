-- ===== src/Connection.antt =====
-- src/connection.rs: one packet, the reader's loop over the bytes of a socket, and the writer's. What they
-- do to the rest of the program is a list of effects, in the order in which they happen.
pub mod Reader
pub mod Answers
pub mod Threads
use blitz_broker.Common.{
  ℕ, zero, suc, Bool, true, false, Option, none, some, List, [], ◌∷◌, ◌++◌, ◌==◌, if◌then◌else◌,
  length, nat_eq, list_eq,
}
use blitz_broker.Slice.{slice_from}
use blitz_broker.Outcome.{◌>>=◌, Outcome, ok, err, panic, out_of_fuel}
use blitz_broker.Error.{ProtocolError, incomplete}
use blitz_broker.Protocol.Packet.{
  Str, MqttPacket, connect, conn_ack, subscribe, sub_ack, unsubscribe, unsub_ack, publish, pub_ack,
  ping_req, ping_resp, disconnect, accepted,
}
use blitz_broker.Protocol.Decode.{decode}
use blitz_broker.Protocol.Encode.{encode}
use blitz_broker.Broker.{
  ConnectionId, QueueHandle, BrokerMessage, register_client, subscribe_to, unsubscribe_from,
  publish_from, disconnect_client, OutboundEvent, packet_event,
}

pub data Effect : Type 0 where
  -- `broker_send`
  to_broker : BrokerMessage → Effect
  -- `outbound.push`
  to_client : OutboundEvent → Effect
  -- `outbound.close`
  close_outbound : Effect

abbrev pub push_packet : MqttPacket → Effect
push_packet p = to_client (packet_event p)

-- The loop over the subscriptions: what it sends, and the return codes.
unfoldable pub dispatch_subscriptions : ConnectionId → List (Str × ℕ) → List Effect × List ℕ
dispatch_subscriptions id [] = ([], [])
dispatch_subscriptions id ((topic, qos) ∷ subscriptions) =
    let (effects, return_codes) = dispatch_subscriptions id subscriptions in
    (to_broker (subscribe_to id topic) ∷ effects, 0 ∷ return_codes)

unfoldable pub dispatch_unsubscriptions : ConnectionId → List Str → List Effect
dispatch_unsubscriptions id [] = []
dispatch_unsubscriptions id (topic ∷ topic_filters) =
    to_broker (unsubscribe_from id topic) ∷ dispatch_unsubscriptions id topic_filters

abbrev pub acknowledge : Option ℕ → List Effect
acknowledge none = []
acknowledge (some packet_id) = push_packet (pub_ack (record { packet_id = packet_id })) ∷ []

-- The effects, and `false` if the connection is to be torn down.
unfoldable pub dispatch_packet : ConnectionId → QueueHandle → MqttPacket → List Effect × Bool
dispatch_packet id outbound (connect c) = (
  to_broker (register_client id c.client_id outbound)
      ∷ push_packet (conn_ack (record { session_present = false; return_code = accepted }))
      ∷ [],
  true,
)
dispatch_packet id outbound (subscribe s) =
    let (effects, return_codes) = dispatch_subscriptions id s.subscriptions in
    (
      effects
          ++ (push_packet
                (sub_ack (record { packet_id = s.packet_id; return_codes = return_codes }))
              ∷ []),
      true,
    )
dispatch_packet id outbound (unsubscribe u) = (
  dispatch_unsubscriptions id u.topic_filters
      ++ (push_packet (unsub_ack (record { packet_id = u.packet_id })) ∷ []),
  true,
)
dispatch_packet id outbound (publish p) = (
  (if p.qos == 1 then acknowledge p.packet_id else []) ++ (to_broker (publish_from id p) ∷ []),
  true,
)
dispatch_packet id outbound (pub_ack a) = ([], true)
dispatch_packet id outbound ping_req = (push_packet ping_resp ∷ [], true)
dispatch_packet id outbound disconnect = ([], false)
dispatch_packet id outbound (conn_ack a) = ([], true)
dispatch_packet id outbound (sub_ack a) = ([], true)
dispatch_packet id outbound (unsub_ack a) = ([], true)
dispatch_packet id outbound ping_resp = ([], true)

-- How the inner loop of the reader ends: it waits for more bytes with those that are left, or it has torn
-- the connection down.
pub data Drained : Type 0 where
  waiting : List ℕ → Drained
  closed : Drained

-- The last acts of a connection.
abbrev pub tear_down : ConnectionId → List Effect
tear_down id = to_broker (disconnect_client id) ∷ close_outbound ∷ []

abbrev pub is_incomplete : ProtocolError → Bool
is_incomplete incomplete = true
is_incomplete e = false

abbrev then_drained : List Effect → List Effect × Drained → List Effect × Drained
then_drained before (effects, end) = (before ++ effects, end)

module _ (id : ConnectionId) (outbound : QueueHandle) where
  -- The inner loop of `reader_loop`, over the buffer.
  unfoldable pub drain : ℕ → List ℕ → Outcome ProtocolError (List Effect × Drained)
  drain zero buf = out_of_fuel
  drain (suc fuel) buf = elim (decode buf) [
    | ok (p, consumed) ↦ slice_from buf consumed >>= λ rest.
        elim (dispatch_packet id outbound p).1 [
          | true ↦ drain fuel rest >>= λ r. ok (then_drained (dispatch_packet id outbound p).0 r)
          | false ↦ ok ((dispatch_packet id outbound p).0 ++ tear_down id, closed)
        ]
    | err e ↦ ok (if is_incomplete e then ([], waiting buf) else (tear_down id, closed))
    | panic ↦ panic
    | out_of_fuel ↦ out_of_fuel
  ]

  -- `reader_loop`, over what the calls of `read` yield before the end of the stream or a read error. A
  -- turn of the inner loop takes at least one byte, so the fuel is the length of the buffer, and one.
  unfoldable pub reader_loop : List ℕ → List (List ℕ) → Outcome ProtocolError (List Effect)
  reader_loop buf [] = ok (tear_down id)
  reader_loop buf (chunk ∷ chunks) = drain (suc (length (buf ++ chunk))) (buf ++ chunk) >>= λ r.
      elim r.1 [
        | waiting rest ↦ reader_loop rest chunks >>= λ more. ok (r.0 ++ more)
        | closed ↦ ok r.0
      ]

-- `writer_loop`: the bytes written for the events that it pops before the queue ends.
unfoldable pub writer_loop : List OutboundEvent → List ℕ
writer_loop [] = []
writer_loop (packet_event p ∷ events) = encode p ++ writer_loop events
