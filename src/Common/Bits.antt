-- ===== src/Common/Bits.antt =====
-- Masks on one byte as arithmetic; each is a table of at most 256 entries, checked by evaluation.
use Prim.Native.Nat.{ℕ, zero, suc, ◌+◌, ◌*◌, ◌/◌, ◌%◌, ◌<◌, bit_and, bit_or, compare, Ordering}
use mathlib.Core.Path.{◌≡◌, refl}
use mathlib.Core.Bool.{Bool, true, false, ◌&&◌}
use native.Mathlib.Omega.{arith}

-- A `u8`.
abbrev pub IsByte : ℕ → Type 0
IsByte b = b < 256

module _ (f g : ℕ → ℕ) where
  same_upto : ℕ → Bool
  same_upto zero = true
  same_upto (suc n) = elim (compare (f n) (g n)) [ Ordering.eq ↦ true | _ ↦ false ] && same_upto n

  same_upto→eq : (n : ℕ) → same_upto n ≡ true → (i : ℕ) → i < n → f i ≡ g i
  unfolding same_upto
  same_upto→eq zero e i h = absurd (omega arith)
  same_upto→eq (suc n) e i h = ground (arith, same_upto→eq n (ground arith) i)

pub low_seven : (b : ℕ) → IsByte b → bit_and b 0x7f ≡ b % 128
unfolding same_upto
low_seven = same_upto→eq _ _ 256 refl

pub top_bit : (b : ℕ) → IsByte b → bit_and b 0x80 ≡ b / 128 * 128
unfolding same_upto
top_bit = same_upto→eq _ _ 256 refl

pub set_top_bit : (b : ℕ) → b < 128 → bit_or b 0x80 ≡ b + 128
unfolding same_upto
set_top_bit = same_upto→eq _ _ 128 refl

pub low_four : (b : ℕ) → IsByte b → bit_and b 0x0f ≡ b % 16
unfolding same_upto
low_four = same_upto→eq _ _ 256 refl

pub low_two : (b : ℕ) → IsByte b → bit_and b 0x03 ≡ b % 4
unfolding same_upto
low_two = same_upto→eq _ _ 256 refl

pub low_one : (b : ℕ) → IsByte b → bit_and b 0x01 ≡ b % 2
unfolding same_upto
low_one = same_upto→eq _ _ 256 refl

-- The header byte of a PUBLISH.
pub or_three_nibble : (b : ℕ) → b < 16 → bit_or 0x30 (bit_and b 0x0f) ≡ 0x30 + b
unfolding same_upto
or_three_nibble = same_upto→eq _ _ 16 refl
