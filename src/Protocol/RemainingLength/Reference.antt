-- ===== src/Protocol/RemainingLength/Reference.antt =====
-- The two loops against plain recursions over the bytes and over the digits.
use mathlib.Core.WellFounded.{Acc}
use mathlib.Core.Logic.{dif_pos, dif_neg}
use native.Mathlib.Decide.{dec_lt}
use native.Mathlib.Bridge.{le_prop}
use native.Mathlib.Numerals.{add-one}
use native.Mathlib.Nat.{pow-suc, le_refl}
use blitz_broker.Common.{
  ℕ, zero, suc, ◌+◌, ◌-◌, ◌*◌, ◌/◌, ◌%◌, ◌^◌, ◌≤◌, ◌<◌, ◌≡◌, refl, ap, ◌∙◌, List, [], ◌∷◌, ◌++◌,
  append_assoc, arith, true, false, ltb, lt→ltb, lt→leb, le→leb, Bool-cases, tests, inl, inr,
  append-nil, if◌then◌else◌, length, All, IsByte, low_seven, top_bit, set_top_bit, length-append,
}
use blitz_broker.Outcome.{
  Returns, returns_ok, returns_err, Returns-if, Returns-bind, Outcome, ok, err, ◌>>=◌,
}
use blitz_broker.Slice.{index, index-append_length}
use blitz_broker.Error.{ProtocolError, incomplete, invalid_remaining_length}
use blitz_broker.Protocol.RemainingLength.{
  quotient_smaller, decode_loop, decode_remaining_length, encode_loop, encode_remaining_length,
  checked_u32,
}

-- Base 128, lowest digit first, in `k` bytes at most; all bytes but the last have the top bit.
-- The value comes with the number of bytes.
unfoldable pub read_digits : ℕ → List ℕ → Outcome ProtocolError (ℕ × ℕ)
read_digits zero bytes = err invalid_remaining_length
read_digits (suc k) [] = err incomplete
read_digits (suc k) (b ∷ bytes) =
    if ltb b 128 then ok (b, 1) else do (v, n) ← read_digits k bytes; ok (b - 128 + 128 * v, n + 1)

-- A value read behind `i` bytes that hold `value`.
abbrev behind : ℕ → ℕ → Outcome ProtocolError (ℕ × ℕ) → Outcome ProtocolError (ℕ × ℕ)
behind value i r = r >>= λ (v, n). ok (value + v * 128 ^ i, i + n)

pow_bound : (i : ℕ) → i < 4 → 128 ^ i ≤ 2097152
pow_bound zero h = omega arith
pow_bound (suc zero) h = omega arith
pow_bound (suc (suc zero)) h = omega arith
pow_bound (suc (suc (suc zero))) h = omega arith
pow_bound (suc (suc (suc (suc i)))) h = absurd (omega arith)

pub pow_positive : (k : ℕ) → 0 < 128 ^ k
pow_positive zero = omega arith
pow_positive (suc k) = omega (arith, pow-suc 128 k, pow_positive k)

-- A reading returns; its value has no more digits than there are bytes.
pub read_digits-Returns :
    (k : ℕ) (bytes : List ℕ)
    → All IsByte bytes
    → Returns
        (λ (v, n). (v < 128 ^ k) × (1 ≤ n) × (n ≤ k) × (n ≤ length bytes))
        (λ _. Unit {0})
        (read_digits k bytes)
unfolding read_digits
read_digits-Returns zero bytes hb = returns_err tt
read_digits-Returns (suc k) [] hb = returns_err tt
read_digits-Returns (suc k) (b ∷ bytes) hb =
    Returns-if (ltb b 128)
      (λ last.
        returns_ok (
          rw (pow-suc 128 k) (omega (tests, pow_positive k)),
          omega arith,
          omega arith,
          omega arith,
        ))
      λ more. Returns-bind (read_digits-Returns k bytes hb.1) λ (v, n) d. returns_ok (
        rw (pow-suc 128 k) (omega (tests, hb.0, d.0)),
        omega arith,
        omega (arith, d.2),
        omega (arith, d.3),
      )

checked_u32-ok : (n : ℕ) → n < 2 ^ 32 → checked_u32 n ≡ ok n
unfolding checked_u32
checked_u32-ok n h = rw (lt→ltb n (2 ^ 32) h)

-- One round of the loop at a byte of the buffer, where nothing overflows.
decode_loop_round :
    (fuel value i b : ℕ) (buf : List ℕ)
    → i < 4
    → i < length buf
    → index {E = ProtocolError} buf i ≡ ok b
    → IsByte b
    → value < 128 ^ i
    → decode_loop (suc fuel) buf value i ≡ (
        if ltb b 128
        then ok (value + b * 128 ^ i, i + 1)
        else decode_loop fuel buf (value + (b - 128) * 128 ^ i) (i + 1))
unfolding decode_loop
decode_loop_round fuel value i b buf i4 inside at hb small =
    let bound = pow_bound i i4 in
    let digit : b % 128 < 128 = omega arith in
    let product : b % 128 * 128 ^ i ≤ 128 * 2097152 = grind arith in
    rw
      (
        lt→leb 4 i i4,
        lt→leb (length buf) i inside,
        at,
        checked_u32-ok (128 ^ i) (omega arith),
        low_seven b hb,
        checked_u32-ok (b % 128 * 128 ^ i) (omega arith),
        checked_u32-ok (value + b % 128 * 128 ^ i) (omega arith),
        top_bit b hb,
      )
      (elim (Bool-cases (ltb b 128)) [
        | inl last ↦
            let whole : b % 128 ≡ b = omega tests in
            let top : b / 128 * 128 ≡ 0 = omega tests in rw (last, top, whole) refl
        | inr more ↦
            let rest : b % 128 ≡ b - 128 = omega tests in
            let top : b / 128 * 128 ≡ 128 = omega tests in rw (more, top, rest) refl
      ])

digit_bound : (x p : ℕ) → x ≤ 127 → x * p ≤ 127 * p
digit_bound x p h = grind arith

shifted_sum : (p d v : ℕ) → (d + 128 * v) * p ≡ d * p + v * (p * 128)
shifted_sum p d v = omega arith

behind-behind :
    (value i b : ℕ) (r : Outcome ProtocolError (ℕ × ℕ))
    → 128 ≤ b
    → behind (value + (b - 128) * 128 ^ i) (suc i) r
      ≡ behind value i (r >>= λ (v, n). ok (b - 128 + 128 * v, n + 1))
behind-behind value i b (ok (v, n)) h =
    ground (arith, shifted_sum (128 ^ i) (b - 128) v, pow-suc 128 i)
behind-behind value i b (err e) h = refl
behind-behind value i b _ h = refl

decode_loop-behind :
    (k value : ℕ) (before bytes : List ℕ)
    → length before + k ≡ 4
    → value < 128 ^ length before
    → All IsByte bytes
    → decode_loop (suc k) (before ++ bytes) value (length before)
      ≡ behind value (length before) (read_digits k bytes)
unfolding decode_loop read_digits
decode_loop-behind zero value before bytes i4 small hb =
    rw (le→leb 4 (length before) (omega arith)) refl
decode_loop-behind (suc k) value before [] i4 small hb =
    rw
      (
        lt→leb 4 (length before) (omega arith),
        le→leb (length (before ++ [])) (length before) (rw append-nil (le_refl _)),
      )
      refl
decode_loop-behind (suc k) value before (b ∷ bytes) i4 small hb =
    rw
      (decode_loop_round (suc k) value (length before) b (before ++ (b ∷ bytes)) (omega arith)
        (omega (arith, length-append before (b ∷ bytes))) (index-append_length before b bytes) hb.0
        small)
      (elim (Bool-cases (ltb b 128)) [
        | inl last ↦ rw last refl
        | inr more ↦
            let before' : List ℕ = before ++ (b ∷ []) in
            let longer : length before' ≡ suc (length before) =
              omega (arith, length-append before (b ∷ [])) in
            let power : 128 ^ length before' ≡ 128 ^ length before * 128 =
              rw longer (pow-suc 128 (length before)) in
            let byte : b - 128 ≤ 127 = omega (arith, hb.0) in
            let digit : (b - 128) * 128 ^ length before ≤ 127 * 128 ^ length before =
              digit_bound (b - 128) _ byte in
            let ih =
              decode_loop-behind k (value + (b - 128) * 128 ^ length before) before' bytes
                (omega arith) (omega arith) hb.1 in
            rw (more, ← append_assoc before (b ∷ []) bytes, add-one (length before), ← longer)
              (ih
                ∙ rw longer
                    (behind-behind value (length before) b (read_digits k bytes) (omega tests)))
      ])

-- `decode_remaining_length` reads base-128 digits, four at most.
pub decode-read_digits :
    (bytes : List ℕ) → All IsByte bytes → decode_remaining_length bytes ≡ read_digits 4 bytes
unfolding decode_remaining_length
decode-read_digits bytes hb =
    decode_loop-behind 4 0 [] bytes (omega arith) (omega arith) hb
    ∙ behind_nothing (read_digits 4 bytes)
  where
    behind_nothing : (r : Outcome ProtocolError (ℕ × ℕ)) → behind 0 0 r ≡ r
    behind_nothing (ok (v, n)) = ground arith
    behind_nothing (err e) = refl
    behind_nothing _ = refl

-- The digits of `v`, lowest first, for `v` below 128 ^ (k + 1); all but the last carry the top bit.
unfoldable pub write_digits : ℕ → ℕ → List ℕ
write_digits zero v = v ∷ []
write_digits (suc k) v =
    let rest = write_digits k (v / 128) in if ltb v 128 then v ∷ [] else (v % 128 + 128) ∷ rest

encode_loop-write_digits :
    (k v : ℕ) (w : Acc ◌<◌ v) (out : List ℕ)
    → v < 128 ^ suc k
    → encode_loop v w out ≡ out ++ write_digits k v
unfolding encode_loop write_digits
encode_loop-write_digits zero v (Acc.intro _ smaller) out h =
    let last : ¬ (0 < v / 128) = omega arith in
    let whole : v % 128 ≡ v = omega arith in rw (dif_neg _ last, whole) refl
encode_loop-write_digits (suc k) v (Acc.intro _ smaller) out h = elim (dec_lt 0 (v / 128)) [
  | yes more ↦
      let big : ltb v 128 ≡ false = omega tests in
      rw (dif_pos _ le_prop more, big)
        (encode_loop-write_digits k (v / 128) (smaller _ (quotient_smaller v more)) _
            (omega (arith, pow-suc 128 (suc k)))
          ∙ append_assoc out (_ ∷ []) (write_digits k (v / 128))
          ∙ ap (λ c. out ++ (c ∷ write_digits k (v / 128))) (set_top_bit (v % 128) (omega arith)))
  | no last ↦
      let small : ltb v 128 ≡ true = omega tests in
      let whole : v % 128 ≡ v = omega tests in rw (dif_neg _ last, small, whole) refl
]

-- `encode_remaining_length` writes base-128 digits, and no more than five.
pub encode-write_digits :
    (len : ℕ) → len < 2 ^ 32 → encode_remaining_length len ≡ write_digits 4 len
unfolding encode_remaining_length
encode-write_digits len h = encode_loop-write_digits 4 len _ [] (omega arith)
