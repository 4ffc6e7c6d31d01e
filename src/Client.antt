-- ===== src/Client.antt =====
-- src/bin/blitzclient.rs: the encoders of the command-line client, which are its own.
pub mod Socket
pub mod Length
pub mod Lossy
pub mod Frame
pub mod Framing
pub mod Decode
pub mod Answers
pub mod Run
pub mod Args
pub mod Starts
pub mod Settles
pub mod Ends
pub mod Sessions
pub mod Listening
pub mod Conversation
pub mod Journey
pub mod Receives
pub mod Understood
use blitz_broker.Common.{
  ℕ, ◌*◌, ◌%◌, ◌^◌, min, bit_and, bit_or, Option, none, some, List, [], ◌∷◌, ◌++◌, ltb,
  if◌then◌else◌, length, take, nat_eq, list_eq, lt_wf,
}
use blitz_broker.Slice.{u16_to_be_bytes}
use blitz_broker.Protocol.Packet.{Str, pt_connect, pt_publish, pt_subscribe, pt_disconnect}
use blitz_broker.Protocol.RemainingLength.{encode_loop}
use blitz_broker.Protocol.Decode.{mqtt}

-- The loop is the broker's, statement by statement.
unfoldable pub encode_remaining_length : ℕ → List ℕ
encode_remaining_length len = encode_loop len (lt_wf.apply len) []

unfoldable pub encode_utf8_str : Str → List ℕ → List ℕ
encode_utf8_str s out = let len = min (length s) 65535 in (out ++ u16_to_be_bytes len) ++ take len s

unfoldable pub make_packet : ℕ → ℕ → List ℕ → List ℕ
make_packet packet_type flags body =
    bit_or (packet_type * 16 % 256) (bit_and flags 0x0f)
    ∷ (encode_remaining_length (length body % 2 ^ 32) ++ body)

unfoldable pub encode_connect : Str → ℕ → List ℕ
encode_connect client_id keep_alive = make_packet pt_connect 0 (
    encode_utf8_str client_id
      ((encode_utf8_str mqtt [] ++ (4 ∷ 0x02 ∷ [])) ++ u16_to_be_bytes keep_alive))

unfoldable pub encode_subscribe : ℕ → Str → ℕ → List ℕ
encode_subscribe packet_id filter qos =
    make_packet pt_subscribe 0b0010
      (encode_utf8_str filter (u16_to_be_bytes packet_id) ++ (bit_and qos 0x03 ∷ []))

-- `packet_id.unwrap_or(1)`
abbrev pub id_or_one : Option ℕ → ℕ
id_or_one none = 1
id_or_one (some id) = id

unfoldable pub encode_publish : Str → List ℕ → ℕ → Option ℕ → List ℕ
encode_publish topic payload qos packet_id = make_packet pt_publish (bit_and qos 0x03 * 2 % 256) (
    (encode_utf8_str topic [] ++ (if ltb 0 qos then u16_to_be_bytes (id_or_one packet_id) else []))
    ++ payload)

unfoldable pub encode_disconnect : List ℕ
encode_disconnect = pt_disconnect * 16 % 256 ∷ 0x00 ∷ []
