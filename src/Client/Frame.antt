-- ===== src/Client/Frame.antt =====
-- src/bin/blitzclient.rs: `decode_remaining_length` and `read_packet`.
use blitz_broker.Common.{
  ℕ, zero, suc, ◌/◌, bit_and, List, [], ◌∷◌, ◌++◌, ltb, leb, ◌==◌, if◌then◌else◌, length, nat_eq,
  list_eq,
}
use blitz_broker.Outcome.{out_of_fuel}
use blitz_broker.Client.Decode.{header_unread, length_unread, body_unread, length_too_long}
use blitz_broker.Client.Socket.{Session, ◌>>=◌, ◌>>◌, lift, pass, fail_if, read_exact}
use blitz_broker.Client.Length.{decode_remaining_length}

-- `b[0]` of an array of one byte.
abbrev pub one_byte : List ℕ → ℕ
one_byte [] = 0
one_byte (b ∷ bytes) = b

-- The loop that reads the remaining length. Its fourth round is its last, so five are enough.
unfoldable pub read_length : ℕ → List ℕ → Session (List ℕ)
read_length zero rl_bytes = lift out_of_fuel
read_length (suc fuel) rl_bytes = do
  b ← read_exact 1 length_unread
  let byte = one_byte b
  let rl_bytes' = rl_bytes ++ (byte ∷ [])
  let more = fail_if (leb 4 (length rl_bytes')) length_too_long >> read_length fuel rl_bytes'
  if bit_and byte 0x80 == 0 then pass rl_bytes' else more

unfoldable pub read_body : ℕ → Session (List ℕ)
read_body body_len = if ltb 0 body_len then read_exact body_len (body_unread body_len) else pass []

-- The type, the flags and the body of the next packet.
unfoldable pub read_packet : Session (ℕ × ℕ × List ℕ)
read_packet = do
  header ← read_exact 1 header_unread
  let byte0 = one_byte header
  rl_bytes ← read_length 5 []
  (remaining_len, _) ← lift (decode_remaining_length rl_bytes)
  body ← read_body remaining_len
  pass (byte0 / 16, bit_and byte0 0x0f, body)
