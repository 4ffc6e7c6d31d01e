-- ===== src/Protocol/RemainingLength.antt =====
-- `decode_remaining_length` and `encode_remaining_length` of src/protocol.rs. The arithmetic on `u32`
-- is the checked one of a debug build, so that a proof of no panic is a proof of no overflow.
pub mod Reference
pub mod RoundTrip
use mathlib.Core.Logic.{dite}
use mathlib.Core.WellFounded.{Acc}
use native.Mathlib.Decide.{dec_lt}
use blitz_broker.Common.{
  ℕ, zero, suc, ◌+◌, ◌*◌, ◌/◌, ◌%◌, ◌^◌, ◌<◌, bit_and, bit_or, List, [], ◌∷◌, ◌++◌, arith, ltb, leb,
  ◌==◌, if◌then◌else◌, length, lt_wf,
}
use blitz_broker.Outcome.{Outcome, ok, panic, reject_if, ◌>>=◌, ◌>>◌}
use blitz_broker.Slice.{index}
use blitz_broker.Error.{ProtocolError, incomplete, invalid_remaining_length}

-- The result of an operation on `u32`, which panics if it does not fit.
unfoldable pub checked_u32 : ℕ → Outcome ProtocolError ℕ
checked_u32 n = if ltb n (2 ^ 32) then ok n else panic

-- The loop; at most four rounds pass the first test, so five are enough.
unfoldable pub decode_loop : ℕ → List ℕ → ℕ → ℕ → Outcome ProtocolError (ℕ × ℕ)
decode_loop zero buf value i = Outcome.out_of_fuel
decode_loop (suc fuel) buf value i = do
  reject_if (leb 4 i) invalid_remaining_length
  reject_if (leb (length buf) i) incomplete
  encoded_byte ← index buf i
  multiplier ← checked_u32 (128 ^ i)
  group ← checked_u32 (bit_and encoded_byte 0x7f * multiplier)
  value' ← checked_u32 (value + group)
  let rest = decode_loop fuel buf value' (i + 1)
  if bit_and encoded_byte 0x80 == 0 then ok (value', i + 1) else rest

unfoldable pub decode_remaining_length : List ℕ → Outcome ProtocolError (ℕ × ℕ)
decode_remaining_length buf = decode_loop 5 buf 0 0

pub quotient_smaller : (x : ℕ) → 0 < x / 128 → x / 128 < x
quotient_smaller x more = omega arith

-- The loop ends when `x /= 128` reaches 0. `(x % 128) as u8` loses nothing.
pub encode_loop : (x : ℕ) → Acc ◌<◌ x → List ℕ → List ℕ
encode_loop x (Acc.intro _ smaller) out =
    dite (dec_lt 0 (x / 128))
      (λ more.
        encode_loop (x / 128) (smaller _ (quotient_smaller x more))
          (out ++ (bit_or (x % 128) 0x80 ∷ [])))
      (λ _. out ++ (x % 128 ∷ []))

unfoldable pub encode_remaining_length : ℕ → List ℕ
encode_remaining_length len = encode_loop len (lt_wf.apply len) []
