-- ===== src/Slice.antt =====
-- Slices and big-endian words: an index or a range out of bounds panics.
use blitz_broker.Common.{
  length-take, none, some, ◌^◌, ltb, Option, ℕ, ◌+◌, ◌-◌, ◌*◌, ◌/◌, ◌%◌, ◌≤◌, ◌<◌, ◌≡◌, refl, ap,
  ◌&&◌, List, [], ◌∷◌, ◌++◌, arith, leb, le→leb, if◌then◌else◌, length, take, drop, All, get_elem?,
  length-append, length-drop, get_elem?-append_length, get_elem?-some, drop-append_length, All-drop,
  All-get_elem?,
}
use blitz_broker.Outcome.{Outcome, ok, panic, or_panic, Returns, returns_ok}

module _ {ℓ κ} {E : Type ℓ} {A : Type κ} where
  -- `xs[i]`
  unfoldable pub index : List A → ℕ → Outcome E A
  index xs i = or_panic (get_elem? xs i)

  -- `&xs[from..]`
  unfoldable pub slice_from : List A → ℕ → Outcome E (List A)
  slice_from xs from = if leb from (length xs) then ok (drop from xs) else panic

  -- `&xs[from..to]`
  unfoldable pub slice : List A → ℕ → ℕ → Outcome E (List A)
  slice xs from to =
      if leb from to && leb to (length xs) then ok (take (to - from) (drop from xs)) else panic

  pub index-append_length :
      (xs : List A) (y : A) (ys : List A) → index (xs ++ (y ∷ ys)) (length xs) ≡ ok y
  unfolding index
  index-append_length xs y ys = ap or_panic (get_elem?-append_length xs y ys)

  pub slice_from-append_length : (xs ys : List A) → slice_from (xs ++ ys) (length xs) ≡ ok ys
  unfolding slice_from
  slice_from-append_length xs ys =
      rw (le→leb (length xs) (length (xs ++ ys)) (omega (arith, length-append xs ys)))
        (ap ok (drop-append_length xs ys))

  pub index-Returns {ι υ} :
      {P : A → Type ι} {Q : E → Type υ} (xs : List A) (i : ℕ)
      → All P xs
      → i < length xs
      → Returns P Q (index xs i)
  unfolding index
  index-Returns {P} xs i h lt =
      let (a, e) = get_elem?-some xs i lt in rw e (returns_ok (All-get_elem? P xs i a h e))

  pub slice_from-Returns {ι υ} :
      {P : A → Type ι} {Q : E → Type υ} (xs : List A) (i : ℕ)
      → All P xs
      → i ≤ length xs
      → Returns (λ ys. All P ys × (length ys + i ≡ length xs)) Q (slice_from xs i)
  unfolding slice_from
  slice_from-Returns {P} xs i h le =
      rw (le→leb i (length xs) le) (returns_ok (All-drop P i xs h, omega (arith, length-drop i xs)))

  pub slice-ok :
      (xs : List A) (from to : ℕ)
      → from ≤ to
      → to ≤ length xs
      → slice xs from to ≡ ok (take (to - from) (drop from xs))
  unfolding slice
  slice-ok xs from to h k = rw (le→leb from to h, le→leb to (length xs) k) refl

  pub slice-Returns {υ} :
      {Q : E → Type υ} (xs : List A) (from to : ℕ)
      → from ≤ to
      → to ≤ length xs
      → Returns (λ ys. length ys + from ≡ to) Q (slice xs from to)
  unfolding slice
  slice-Returns xs from to h k =
      rw (le→leb from to h, le→leb to (length xs) k)
        (returns_ok (omega (arith, length-take (to - from) (drop from xs), length-drop from xs)))

-- `usize::checked_add`, on a 64-bit target.
unfoldable pub checked_add : ℕ → ℕ → Option ℕ
checked_add a b = if ltb (a + b) (2 ^ 64) then some (a + b) else none

-- `u16::from_be_bytes([hi, lo])`
unfoldable pub u16_from_be_bytes : ℕ → ℕ → ℕ
u16_from_be_bytes hi lo = hi * 256 + lo

-- `u16::to_be_bytes`
unfoldable pub u16_to_be_bytes : ℕ → List ℕ
u16_to_be_bytes n = n / 256 ∷ n % 256 ∷ []

pub u16-from-to : (n : ℕ) → u16_from_be_bytes (n / 256) (n % 256) ≡ n
unfolding u16_from_be_bytes
u16-from-to n = omega arith

pub u16-IsWord : (hi lo : ℕ) → hi < 256 → lo < 256 → u16_from_be_bytes hi lo < 65536
unfolding u16_from_be_bytes
u16-IsWord hi lo h l = omega arith
