-- ===== src/Protocol/Utf8.antt =====
-- `std::str::from_utf8`, as the automaton of the well-formed byte sequences of Unicode (its table
-- 3-7), and the length-prefixed strings of src/protocol.rs.
use blitz_broker.Common.{
  ℕ, min, Bool, true, false, not, ◌&&◌, Option, none, some, List, [], ◌∷◌, ◌++◌, ltb, leb, ◌==◌,
  if◌then◌else◌, length, take, nat_eq, list_eq,
}
use blitz_broker.Outcome.{Outcome, ok, reject_if, ok_or, ◌>>=◌, ◌>>◌}
use blitz_broker.Slice.{index, slice, u16_from_be_bytes, u16_to_be_bytes, checked_add}
use blitz_broker.Error.{ProtocolError, malformed_payload}
use blitz_broker.Protocol.Packet.{Str}

-- What the bytes of a character still to come may be: the next one, and how many follow it.
pub data Utf8State : Type 0 where
  boundary one_more two_more three_more : Utf8State
  after_e0 after_ed after_f0 after_f4 : Utf8State

abbrev within : ℕ → ℕ → ℕ → Utf8State → Option Utf8State
within lo hi b next = if leb lo b && leb b hi then some next else none

unfoldable pub utf8_step : Utf8State → ℕ → Option Utf8State
utf8_step boundary b =
    if ltb b 0x80
    then some boundary
    else if ltb b 0xc2
    then none
    else if ltb b 0xe0
    then some one_more
    else if b == 0xe0
    then some after_e0
    else if b == 0xed
    then some after_ed
    else if ltb b 0xf0
    then some two_more
    else if b == 0xf0
    then some after_f0
    else if ltb b 0xf4
    then some three_more
    else if b == 0xf4
    then some after_f4
    else none
utf8_step one_more b = within 0x80 0xbf b boundary
utf8_step two_more b = within 0x80 0xbf b one_more
utf8_step three_more b = within 0x80 0xbf b two_more
utf8_step after_e0 b = within 0xa0 0xbf b one_more
utf8_step after_ed b = within 0x80 0x9f b one_more
utf8_step after_f0 b = within 0x90 0xbf b two_more
utf8_step after_f4 b = within 0x80 0x8f b two_more

unfoldable pub utf8_run : Utf8State → List ℕ → Bool
utf8_run boundary [] = true
utf8_run _ [] = false
utf8_run s (b ∷ bs) = elim (utf8_step s b) [ none ↦ false | some s' ↦ utf8_run s' bs ]

-- Whether `from_utf8` accepts the bytes.
unfoldable pub is_utf8 : List ℕ → Bool
unfolding utf8_run utf8_step
is_utf8 = utf8_run boundary

unfoldable pub decode_utf8_string : List ℕ → Outcome ProtocolError (Str × ℕ)
decode_utf8_string buf = do
  reject_if (ltb (length buf) 2) (malformed_payload "truncated UTF-8 string length prefix (§1.5.3)")
  hi ← index buf 0
  lo ← index buf 1
  let len = u16_from_be_bytes hi lo
  end ← ok_or (checked_add 2 len) (malformed_payload "UTF-8 string length overflow")
  reject_if (ltb (length buf) end)
      (malformed_payload "UTF-8 string length prefix exceeds available bytes (§1.5.3)")
  s ← slice buf 2 end
  reject_if (not (is_utf8 s)) (malformed_payload "invalid UTF-8 in string field (§1.5.3)")
  ok (s, end)

-- `bytes.len().min(u16::MAX as usize)`
abbrev pub saturated_len : Str → ℕ
saturated_len s = min (length s) 65535

unfoldable pub encode_utf8_string : Str → List ℕ → List ℕ
encode_utf8_string s out = (out ++ u16_to_be_bytes (saturated_len s)) ++ take (saturated_len s) s
