-- ===== src/Protocol/RemainingLength/RoundTrip.antt =====
-- What `encode_remaining_length` writes, `decode_remaining_length` reads back, up to four bytes.
use native.Mathlib.Nat.{pow-suc}
use blitz_broker.Common.{
  ℕ, zero, suc, ◌+◌, ◌/◌, ◌^◌, ◌≤◌, ◌<◌, ◌≡◌, inl, inr, List, ◌++◌, arith, ltb, if◌then◌else◌,
  tests, Bool-cases, length, All, All-append, IsByte, nat_eq, list_eq,
}
use blitz_broker.Error.{invalid_remaining_length}
use blitz_broker.Outcome.{ok, err}
use blitz_broker.Protocol.RemainingLength.{decode_remaining_length, encode_remaining_length}
use blitz_broker.Protocol.RemainingLength.Reference.{
  pow_positive, decode-read_digits, encode-write_digits, read_digits, write_digits,
}

pub read-write_digits :
    (k j v : ℕ) (rest : List ℕ)
    → k ≤ j
    → v < 128 ^ suc k
    → read_digits (suc k) (write_digits j v ++ rest) ≡ ok (v, length (write_digits j v))
unfolding read_digits write_digits
read-write_digits zero zero v rest kj h = ground arith
read-write_digits zero (suc j) v rest kj h = ground arith
read-write_digits (suc k) zero v rest kj h = absurd (omega arith)
read-write_digits (suc k) (suc j) v rest kj h =
    ground (arith, pow-suc 128 (suc k), read-write_digits k j (v / 128) rest)

read_too_long :
    (k j v : ℕ) (rest : List ℕ)
    → k < j
    → 128 ^ suc k ≤ v
    → read_digits (suc k) (write_digits j v ++ rest) ≡ err invalid_remaining_length
unfolding read_digits write_digits
read_too_long zero zero v rest kj h = absurd (omega arith)
read_too_long zero (suc j) v rest kj h = ground arith
read_too_long (suc k) zero v rest kj h = absurd (omega arith)
read_too_long (suc k) (suc j) v rest kj h =
    ground (arith, pow-suc 128 (suc k), pow_positive k, read_too_long k j (v / 128) rest)

write_digits-IsByte : (k v : ℕ) → v < 128 ^ suc k → All IsByte (write_digits k v)
unfolding write_digits
write_digits-IsByte zero v h = omega arith
write_digits-IsByte (suc k) v h =
    ground (arith, pow-suc 128 (suc k), write_digits-IsByte k (v / 128))

length-write_digits : (k v : ℕ) → length (write_digits k v) ≤ k + 1
unfolding write_digits
length-write_digits zero v = omega arith
length-write_digits (suc k) v = ground (arith, length-write_digits k (v / 128))

pub encode-IsByte : (len : ℕ) → len < 2 ^ 32 → All IsByte (encode_remaining_length len)
encode-IsByte len h = rw (encode-write_digits len h) (write_digits-IsByte 4 len (omega arith))

-- For a `u32` below 2 ^ 28, decoding what was encoded gives it back with the number of bytes written,
-- whatever follows; from 2 ^ 28 on the encoding has a fifth byte, and decoding refuses it.
pub decode-encode :
    (len : ℕ) (rest : List ℕ)
    → len < 2 ^ 32
    → All IsByte rest
    → decode_remaining_length (encode_remaining_length len ++ rest) ≡ (
        if ltb len (2 ^ 28)
        then ok (len, length (encode_remaining_length len))
        else err invalid_remaining_length)
decode-encode len rest h hb = rw (encode-write_digits len h) (
    rw
      (decode-read_digits _
        (All-append IsByte (write_digits 4 len) rest (write_digits-IsByte 4 len (omega arith)) hb))
      (elim (Bool-cases (ltb len (2 ^ 28))) [
        | inl small ↦ rw small (read-write_digits 3 4 len rest (omega arith) (omega tests))
        | inr big ↦ rw big (read_too_long 3 4 len rest (omega arith) (omega tests))
      ]))
