-- ===== src/Client/Length.antt =====
-- src/bin/blitzclient.rs: `decode_remaining_length`, against the broker's.
use blitz_broker.Common.{
  ℕ, zero, suc, ◌+◌, ◌*◌, ◌^◌, bit_and, ◌≡◌, refl, inl, inr, List, ltb, leb, ◌==◌, if◌then◌else◌,
  Bool-cases, Option-cases, length, get_elem?, nat_eq, list_eq,
}
use blitz_broker.Outcome.{Outcome, ok, panic, out_of_fuel, reject_if, map_err, ◌>>=◌, ◌>>◌}
use blitz_broker.Slice.{index}
use blitz_broker.Error.{ProtocolError, incomplete}
use blitz_broker.Client.Decode.{ClientError, length_too_long, length_truncated}
use blitz_broker.Protocol.RemainingLength

-- The result of an operation on `u32`, which panics if it does not fit.
unfoldable pub in_u32 : ℕ → Outcome ClientError ℕ
in_u32 n = if ltb n (2 ^ 32) then ok n else panic

unfoldable pub length_loop : ℕ → List ℕ → ℕ → ℕ → Outcome ClientError (ℕ × ℕ)
length_loop zero buf value i = out_of_fuel
length_loop (suc fuel) buf value i = do
  reject_if (leb 4 i) length_too_long
  reject_if (leb (length buf) i) length_truncated
  byte ← index buf i
  multiplier ← in_u32 (128 ^ i)
  group ← in_u32 (bit_and byte 0x7f * multiplier)
  value' ← in_u32 (value + group)
  let rest = length_loop fuel buf value' (i + 1)
  if bit_and byte 0x80 == 0 then ok (value', i + 1) else rest

unfoldable pub decode_remaining_length : List ℕ → Outcome ClientError (ℕ × ℕ)
decode_remaining_length buf = length_loop 5 buf 0 0

-- The client's words for the two errors of the broker's function.
abbrev pub in_words : ProtocolError → ClientError
in_words incomplete = length_truncated
in_words e = length_too_long

-- The part of a round behind the read of its byte.
round_same :
    (fuel : ℕ) (buf : List ℕ) (value i b : ℕ)
    → ((v : ℕ)
        → length_loop fuel buf v (i + 1)
          ≡ map_err in_words (RemainingLength.decode_loop fuel buf v (i + 1)))
    → (in_u32 (128 ^ i) >>= λ m. in_u32 (bit_and b 0x7f * m) >>= λ group.
        in_u32 (value + group) >>= λ v.
        if bit_and b 0x80 == 0 then ok (v, i + 1) else length_loop fuel buf v (i + 1))
      ≡ map_err in_words (
          RemainingLength.checked_u32 (128 ^ i) >>= λ m.
          RemainingLength.checked_u32 (bit_and b 0x7f * m) >>= λ group.
          RemainingLength.checked_u32 (value + group) >>= λ v.
          if bit_and b 0x80 == 0
          then ok (v, i + 1)
          else RemainingLength.decode_loop fuel buf v (i + 1))
unfolding in_u32 RemainingLength.checked_u32
round_same fuel buf value i b rest = elim (Bool-cases (ltb (128 ^ i) (2 ^ 32))) [
  | inl one ↦ elim (Bool-cases (ltb (bit_and b 0x7f * 128 ^ i) (2 ^ 32))) [
    | inl two ↦ elim (Bool-cases (ltb (value + bit_and b 0x7f * 128 ^ i) (2 ^ 32))) [
      | inl three ↦ elim (Bool-cases (bit_and b 0x80 == 0)) [
        | inl last ↦ rw (one, two, three, last) refl
        | inr more ↦ rw (one, two, three, more) (rest _)
      ]
      | inr over ↦ rw (one, two, over) refl
    ]
    | inr over ↦ rw (one, over) refl
  ]
  | inr over ↦ rw over refl
]

length_loop-same :
    (fuel : ℕ) (buf : List ℕ) (value i : ℕ)
    → length_loop fuel buf value i ≡ map_err in_words (RemainingLength.decode_loop fuel buf value i)
unfolding length_loop RemainingLength.decode_loop in_u32 RemainingLength.checked_u32 index
length_loop-same zero buf value i = refl
length_loop-same (suc fuel) buf value i = elim (Bool-cases (leb 4 i)) [
  | inl many ↦ rw many refl
  | inr few ↦ elim (Bool-cases (leb (length buf) i)) [
    | inl short ↦ rw (few, short) refl
    | inr inside ↦ elim (Option-cases (get_elem? buf i)) [
      | inl absent ↦ rw (few, inside, absent) refl
      | inr (b, there) ↦
          rw (few, inside, there)
            (round_same fuel buf value i b (λ v. length_loop-same fuel buf v (i + 1)))
    ]
  ]
]

-- The client's function is the broker's, but for the words of its errors.
pub client_length-same :
    (buf : List ℕ)
    → decode_remaining_length buf ≡ map_err in_words (RemainingLength.decode_remaining_length buf)
unfolding decode_remaining_length RemainingLength.decode_remaining_length
client_length-same buf = length_loop-same 5 buf 0 0
