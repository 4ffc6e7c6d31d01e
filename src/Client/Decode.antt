-- ===== src/Client/Decode.antt =====
-- src/bin/blitzclient.rs: the decoders of the client, over the body of a packet that it has read. The
-- message of an error of the client is a constructor, with the numbers that the text shows.
use blitz_broker.Common.{
  ℕ, ◌+◌, ◌/◌, bit_and, Bool, not, Option, none, some, List, ltb, ◌==◌, if◌then◌else◌, length,
  nat_eq, list_eq,
}
use blitz_broker.Outcome.{Outcome, ok, ◌>>=◌, ◌>>◌, reject_if, ok_or}
use blitz_broker.Slice.{index, slice, slice_from, checked_add, u16_from_be_bytes}
use blitz_broker.Protocol.Packet.{Str}
use blitz_broker.Protocol.Utf8.{is_utf8}

pub data ClientError : Type 0 where
  connect_failed : ClientError
  header_unread length_unread : ClientError
  body_unread : ℕ → ClientError
  length_too_long length_truncated : ClientError
  unexpected_packet : ℕ → ℕ → ClientError
  refused : ℕ → ClientError
  connect_unwritten publish_unwritten subscribe_unwritten disconnect_unwritten : ClientError
  id_mismatch : ℕ → ℕ → ClientError
  subscription_refused no_return_codes : ClientError
  prefix_truncated : ℕ → ℕ → ClientError
  length_overflow : ClientError
  text_truncated : ℕ → ℕ → ClientError
  invalid_text : ℕ → ℕ → ClientError
  connack_too_short suback_too_short puback_too_short : ℕ → ClientError
  id_truncated : ℕ → ℕ → ClientError
  id_zero : ClientError

unfoldable pub decode_utf8_str : List ℕ → ℕ → Outcome ClientError (Str × ℕ)
decode_utf8_str buf pos = do
  reject_if (ltb (length buf) (pos + 2)) (prefix_truncated pos (length buf))
  hi ← index buf pos
  lo ← index buf (pos + 1)
  let start = pos + 2
  end ← ok_or (checked_add start (u16_from_be_bytes hi lo)) length_overflow
  reject_if (ltb (length buf) end) (text_truncated end (length buf))
  s ← slice buf start end
  reject_if (not (is_utf8 s)) (invalid_text start end)
  ok (s, end)

-- Whether the session is present, and the return code.
unfoldable pub decode_connack_body : List ℕ → Outcome ClientError (Bool × ℕ)
decode_connack_body body = do
  reject_if (ltb (length body) 2) (connack_too_short (length body))
  flags ← index body 0
  return_code ← index body 1
  ok (not (bit_and flags 0x01 == 0), return_code)

unfoldable pub decode_suback_body : List ℕ → Outcome ClientError (ℕ × List ℕ)
decode_suback_body body = do
  reject_if (ltb (length body) 3) (suback_too_short (length body))
  hi ← index body 0
  lo ← index body 1
  return_codes ← slice_from body 2
  ok (u16_from_be_bytes hi lo, return_codes)

-- The packet identifier of a PUBLISH, and where its payload begins.
unfoldable pub read_id : List ℕ → ℕ → Outcome ClientError (Option ℕ × ℕ)
read_id body pos = do
  reject_if (ltb (length body) (pos + 2)) (id_truncated pos (length body))
  hi ← index body pos
  lo ← index body (pos + 1)
  reject_if (u16_from_be_bytes hi lo == 0) id_zero
  ok (some (u16_from_be_bytes hi lo), pos + 2)

unfoldable pub decode_id : ℕ → List ℕ → ℕ → Outcome ClientError (Option ℕ × ℕ)
decode_id qos body pos = if ltb 0 qos then read_id body pos else ok (none, pos)

unfoldable pub decode_publish_body : ℕ → List ℕ → Outcome ClientError (Str × List ℕ × ℕ × Option ℕ)
decode_publish_body flags body = do
  let qos = bit_and (flags / 2) 0x03
  (topic, pos) ← decode_utf8_str body 0
  (packet_id, pos') ← decode_id qos body pos
  payload ← slice_from body pos'
  ok (topic, payload, qos, packet_id)

unfoldable pub decode_puback_body : List ℕ → Outcome ClientError ℕ
decode_puback_body body = do
  reject_if (ltb (length body) 2) (puback_too_short (length body))
  hi ← index body 0
  lo ← index body 1
  ok (u16_from_be_bytes hi lo)
