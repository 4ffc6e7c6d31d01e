-- ===== src/Protocol/Settles/Frame.antt =====
-- `decode` as a reading of a frame: the first byte, the length of the rest in base 128, the body.
use blitz_broker.Common.{
  ℕ, suc, ◌+◌, ◌-◌, ◌/◌, ◌%◌, ◌^◌, ◌<◌, ◌≡◌, refl, inl, inr, false, List, [], ◌∷◌, arith, ltb, ◌==◌,
  if◌then◌else◌, lt→ltb, le→ltb, le→leb, tests, Bool-cases, length, take, drop, All, IsByte,
  low_four, nat_eq, list_eq,
}
use blitz_broker.Outcome.{reject_if, ok_or, ◌>>◌, Returns-cases, Outcome, ok, err, ◌>>=◌}
use blitz_broker.Slice.{slice-ok, index, slice_from, slice, checked_add}
use blitz_broker.Error.{malformed_payload, ProtocolError, incomplete}
use blitz_broker.Protocol.RemainingLength.Reference.{
  read_digits, decode-read_digits, read_digits-Returns,
}
use blitz_broker.Protocol.Packet.{MqttPacket}
use blitz_broker.Protocol.Decode.{decode, decode_body}

-- What follows the length `v` in `n` bytes, of a buffer that goes on with `rest` after its first byte.
unfoldable pub read_rest : ℕ → List ℕ → ℕ × ℕ → Outcome ProtocolError (MqttPacket × ℕ)
read_rest byte0 rest (v, n) = if ltb (length rest) (n + v) then err incomplete else do
  packet ← decode_body (byte0 / 16) (byte0 % 16) (take v (drop n rest))
  ok (packet, suc (n + v))

unfoldable pub read_frame : List ℕ → Outcome ProtocolError (MqttPacket × ℕ)
read_frame [] = err incomplete
read_frame (byte0 ∷ rest) = do length_bytes ← read_digits 4 rest; read_rest byte0 rest length_bytes

suc-beq-zero : (n : ℕ) → (suc n == 0) ≡ false
suc-beq-zero n = ground arith

-- The end of `decode`, from the sum of the lengths on.
decode_rest :
    (byte0 : ℕ) (rest : List ℕ) (v n : ℕ)
    → n + v < 2 ^ 63
    → (do
      total_len ← ok_or (checked_add (1 + n) v) (malformed_payload "remaining length overflow")
      reject_if (ltb (suc (length rest)) total_len) incomplete
      body ← slice (byte0 ∷ rest) (1 + n) total_len
      packet ← decode_body (byte0 / 16) (byte0 % 16) body
      ok (packet, total_len))
      ≡ read_rest byte0 rest (v, n)
unfolding checked_add read_rest
decode_rest byte0 rest v n small =
    let one_n : 1 + n ≡ suc n = omega arith in
    let total : suc n + v ≡ suc (n + v) = omega arith in
    rw (one_n, lt→ltb (suc n + v) (2 ^ 64) (omega arith), total)
      (elim (Bool-cases (ltb (length rest) (n + v))) [
        | inl short ↦ rw (short, lt→ltb (suc (length rest)) (suc (n + v)) (omega tests)) refl
        | inr whole ↦
            let size : suc (n + v) - suc n ≡ v = omega arith in
            rw
              (
                whole,
                le→ltb (suc (length rest)) (suc (n + v)) (omega tests),
                slice-ok (byte0 ∷ rest) (suc n) (suc (n + v)) (omega arith) (omega tests),
                size,
              )
              refl
      ])

pub decode-read_frame : (buf : List ℕ) → All IsByte buf → decode buf ≡ read_frame buf
unfolding decode read_frame index slice_from
decode-read_frame [] hb = refl
decode-read_frame (byte0 ∷ rest) hb =
    rw
      (
        suc-beq-zero (length rest),
        le→leb 1 (suc (length rest)) (omega arith),
        decode-read_digits rest hb.1,
        low_four byte0 hb.0,
      )
      (elim (Returns-cases (read_digits-Returns 4 rest hb.1)) [
        | inl ((v, n), e, d) ↦ rw e (decode_rest byte0 rest v n (omega arith))
        | inr (x, e, _) ↦ rw e refl
      ])
