-- ===== src/Client/Run.antt =====
-- src/bin/blitzclient.rs: `connect_to_broker`, `run_pub` and `run_sub`. The text of the process id is a
-- parameter; the address is in the socket.
use blitz_broker.Common.{
  ℕ, zero, suc, ◌+◌, not, Option, none, some, List, [], ◌∷◌, ◌==◌, if◌then◌else◌, length, nat_eq,
  list_eq,
}
use blitz_broker.Outcome.{Outcome, ok, err, panic, out_of_fuel, or_panic}
use blitz_broker.Protocol.Packet.{Str, pt_connack, pt_publish, pt_puback, pt_suback}
use blitz_broker.Client.{encode_connect, encode_publish, encode_subscribe, encode_disconnect}
use blitz_broker.Client.Decode.{
  ClientError, refused, connect_unwritten, publish_unwritten, subscribe_unwritten,
  disconnect_unwritten, unexpected_packet, id_mismatch, subscription_refused, no_return_codes,
  decode_connack_body, decode_puback_body, decode_suback_body, decode_publish_body,
}
use blitz_broker.Client.Socket.{
  Socket, Session, ◌>>=◌, ◌>>◌, lift, pass, fail_if, dial, write_all, print_line,
}
use blitz_broker.Client.Frame.{read_packet}
use blitz_broker.Client.Lossy.{from_utf8_lossy}

-- `format!("blitzclient-{}", std::process::id())`
unfoldable pub client_id_of : Str → Str
client_id_of process_id =
    b'b' ∷ b'l' ∷ b'i' ∷ b't' ∷ b'z' ∷ b'c' ∷ b'l' ∷ b'i' ∷ b'e' ∷ b'n' ∷ b't' ∷ b'-' ∷ process_id

-- The body of the next packet, if it is of the type that is due.
unfoldable pub expect : ℕ → Session (List ℕ)
expect packet_type = do
  (pkt_type, _, body) ← read_packet
  fail_if (not (pkt_type == packet_type)) (unexpected_packet packet_type pkt_type)
  pass body

unfoldable pub connect_to_broker : Str → Session (Unit {0})
connect_to_broker process_id = do
  dial
  write_all (encode_connect (client_id_of process_id) 60) connect_unwritten
  body ← expect pt_connack
  (_, return_code) ← lift (decode_connack_body body)
  fail_if (not (return_code == 0x00)) (refused return_code)

-- The wait for the PUBACK.
unfoldable pub await_ack : Option ℕ → Session (Unit {0})
await_ack packet_id = do
  pid ← lift (or_panic packet_id)
  body ← expect pt_puback
  acked_pid ← lift (decode_puback_body body)
  fail_if (not (acked_pid == pid)) (id_mismatch pid acked_pid)

unfoldable pub run_pub : Str → Str → Str → ℕ → Session (Unit {0})
run_pub process_id topic message qos = do
  connect_to_broker process_id
  let packet_id : Option ℕ = if qos == 1 then some 1 else none
  write_all (encode_publish topic message qos packet_id) publish_unwritten
  (if qos == 1 then await_ack packet_id else pass tt)
  write_all encode_disconnect disconnect_unwritten

-- The `match` on the first return code.
unfoldable pub check_granted : List ℕ → Session (Unit {0})
check_granted [] = lift (err no_return_codes)
check_granted (code ∷ codes) = fail_if (code == 0x80) subscription_refused

unfoldable pub await_suback : ℕ → Session (Unit {0})
await_suback packet_id = do
  body ← expect pt_suback
  (suback_pid, return_codes) ← lift (decode_suback_body body)
  fail_if (not (suback_pid == packet_id)) (id_mismatch packet_id suback_pid)
  check_granted return_codes

-- A publish that does not decode is logged only.
unfoldable pub print_publish :
    Outcome ClientError (Str × List ℕ × ℕ × Option ℕ) → Session (Unit {0})
print_publish (ok (topic, payload, _, _)) = print_line topic (from_utf8_lossy payload)
print_publish (err e) = pass tt
print_publish panic = lift panic
print_publish out_of_fuel = lift out_of_fuel

unfoldable pub show_packet : ℕ × ℕ × List ℕ → Session (Unit {0})
show_packet (pkt_type, flags, body) =
    if pkt_type == pt_publish then print_publish (decode_publish_body flags body) else pass tt

-- The `match` on a read: an error of it ends the program in order.
abbrev pub unless_closed :
    Socket × Outcome ClientError (ℕ × ℕ × List ℕ)
    → (ℕ × ℕ × List ℕ → Session (Unit {0}))
    → Socket × Outcome ClientError (Unit {0})
unless_closed (s, ok packet) f = f packet s
unless_closed (s, err e) f = (s, ok tt)
unless_closed (s, panic) f = (s, panic)
unless_closed (s, out_of_fuel) f = (s, out_of_fuel)

-- The loop that prints what comes.
unfoldable pub listen : ℕ → Session (Unit {0})
listen zero s = (s, out_of_fuel)
listen (suc fuel) s = unless_closed (read_packet s) λ packet. show_packet packet >> listen fuel

-- A packet takes two bytes at least, so the bytes that come are fuel enough.
unfoldable pub listen_all : Session (Unit {0})
listen_all s = listen (length s.incoming + 1) s

unfoldable pub run_sub : Str → Str → Session (Unit {0})
run_sub process_id filter = do
  connect_to_broker process_id
  write_all (encode_subscribe 1 filter 0) subscribe_unwritten
  await_suback 1
  listen_all
