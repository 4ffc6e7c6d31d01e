-- ===== src/Benchmark.antt =====
-- src/bin/shard_benchmark.rs: what the benchmark sends, its arguments, and its two threads of a channel. Its
-- `decode_remaining_length` and `read_packet` are those of src/bin/blitzclient.rs, but for the messages,
-- and its errors are told apart by no number.
pub mod Batches
pub mod Config
pub mod Encoders
use blitz_broker.Common.{
  ℕ, ◌*◌, ◌%◌, ◌^◌, min, bit_and, bit_or, Bool, true, not, List, [], ◌∷◌, ◌++◌, ◌==◌, length, take,
  nat_eq, list_eq, lt_wf,
}
use blitz_broker.Slice.{u16_to_be_bytes}
use blitz_broker.Protocol.Packet.{
  Str, pt_connect, pt_connack, pt_publish, pt_subscribe, pt_disconnect,
}
use blitz_broker.Protocol.RemainingLength.{encode_loop}
use blitz_broker.Protocol.Decode.{mqtt}
use blitz_broker.Client.Decode.{refused, connect_unwritten}
use blitz_broker.Client.Socket.{Session, ◌>>=◌, ◌>>◌, fail_if, dial, write_all}
use blitz_broker.Client.Run.{expect}

unfoldable pub encode_remaining_length : ℕ → List ℕ
encode_remaining_length len = encode_loop len (lt_wf.apply len) []

unfoldable pub encode_utf8_str : Str → List ℕ → List ℕ
encode_utf8_str s out = let len = min (length s) 65535 in (out ++ u16_to_be_bytes len) ++ take len s

unfoldable pub make_packet : ℕ → ℕ → List ℕ → List ℕ
make_packet packet_type flags body =
    bit_or (packet_type * 16 % 256) (bit_and flags 0x0f)
    ∷ (encode_remaining_length (length body % 2 ^ 32) ++ body)

unfoldable pub encode_connect : Str → List ℕ
encode_connect client_id =
    make_packet pt_connect 0 (
      encode_utf8_str client_id
        ((encode_utf8_str mqtt [] ++ (4 ∷ 0x02 ∷ [])) ++ u16_to_be_bytes 60))

unfoldable pub encode_subscribe : ℕ → Str → List ℕ
encode_subscribe packet_id filter =
    make_packet pt_subscribe 0b0010 (encode_utf8_str filter (u16_to_be_bytes packet_id) ++ (0 ∷ []))

unfoldable pub encode_publish : Str → List ℕ → List ℕ
encode_publish topic payload = make_packet pt_publish 0 (encode_utf8_str topic [] ++ payload)

unfoldable pub encode_disconnect : List ℕ
encode_disconnect = pt_disconnect * 16 % 256 ∷ 0x00 ∷ []

-- `body.len() < 2 || body[1] != 0`
abbrev is_refused : List ℕ → Bool
is_refused (flags ∷ code ∷ body) = not (code == 0)
is_refused body = true

unfoldable pub connect_to_broker : Str → Session (Unit {0})
connect_to_broker client_id = do
  dial
  write_all (encode_connect client_id) connect_unwritten
  body ← expect pt_connack
  fail_if (is_refused body) (refused 0)
