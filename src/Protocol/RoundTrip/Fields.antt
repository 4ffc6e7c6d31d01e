-- ===== src/Protocol/RoundTrip/Fields.antt =====
-- Length-prefixed strings, written and read back.
use blitz_broker.Common.{
  append-nil, ℕ, ◌+◌, ◌-◌, ◌/◌, ◌%◌, ◌^◌, ◌≤◌, min, ◌≡◌, refl, ap, ◌∙◌, true, false, Option, none,
  some, List, [], ◌∷◌, ◌++◌, append_assoc, arith, lt→ltb, le→ltb, length, take, All, length-append,
  take-append_length, IsByte, nat_eq, list_eq,
}
use blitz_broker.Outcome.{ok}
use blitz_broker.Slice.{index, slice-ok, checked_add, u16_to_be_bytes, u16-from-to}
use blitz_broker.Error.{ProtocolError}
use blitz_broker.Protocol.Packet.{Str}
use blitz_broker.Protocol.Utf8.{
  Utf8State, boundary, utf8_step, utf8_run, is_utf8, decode_utf8_string, encode_utf8_string,
}
use blitz_broker.Protocol.Decode.{mqtt}
use blitz_broker.Protocol.WellFormed.{IsText}

-- A string on the wire.
abbrev pub field : Str → List ℕ
field s = length s / 256 ∷ length s % 256 ∷ s

take_all : (s : Str) → take (length s) s ≡ s
take_all [] = refl
take_all (c ∷ s) = ap (λ t. c ∷ t) (take_all s)

-- A string that fits its prefix is not cut.
pub encode_utf8_string-field :
    (s : Str) (out : List ℕ) → length s ≤ 65535 → encode_utf8_string s out ≡ out ++ field s
unfolding encode_utf8_string u16_to_be_bytes
encode_utf8_string-field s out h =
    let whole : min (length s) 65535 ≡ length s = omega arith in
    rw (whole, take_all s, append_assoc out (length s / 256 ∷ length s % 256 ∷ []) s) refl

pub decode_utf8_string-field :
    (s : Str) (rest : List ℕ)
    → IsText s
    → decode_utf8_string (field s ++ rest) ≡ ok (s, 2 + length s)
unfolding decode_utf8_string index checked_add
decode_utf8_string-field s rest (valid, fits) =
    let after : 2 + length s - 2 ≡ length s = omega arith in
    rw
      (
        le→ltb (length (field s ++ rest)) 2 (omega arith),
        u16-from-to (length s),
        lt→ltb (2 + length s) (2 ^ 64) (omega arith),
        le→ltb (length (field s ++ rest)) (2 + length s) (omega (arith, length-append s rest)),
        slice-ok {E = ProtocolError} (field s ++ rest) 2 (2 + length s) (omega arith)
            (omega (arith, length-append s rest)),
        after,
        take-append_length s rest,
        valid,
      )
      refl

pub decode_utf8_string-field_alone :
    (s : Str) → IsText s → decode_utf8_string (field s) ≡ ok (s, 2 + length s)
decode_utf8_string-field_alone s t = rw append-nil at (decode_utf8_string-field s [] t)

pub mqtt-IsText : IsText mqtt
unfolding is_utf8
mqtt-IsText = (refl, omega arith)

utf8_step-IsByte : (state next : Utf8State) (b : ℕ) → utf8_step state b ≡ some next → IsByte b
unfolding utf8_step
utf8_step-IsByte boundary next b h = ground arith
utf8_step-IsByte _ next b h = ground arith

stuck :
    (state : Utf8State) (b : ℕ) (s : List ℕ)
    → utf8_step state b ≡ none
    → utf8_run state (b ∷ s) ≡ false
unfolding utf8_run
stuck boundary b s e = rw (e, utf8_run) refl
stuck _ b s e = rw (e, utf8_run) refl

moves :
    (state next : Utf8State) (b : ℕ) (s : List ℕ)
    → utf8_step state b ≡ some next
    → utf8_run next s ≡ utf8_run state (b ∷ s)
unfolding utf8_run
moves boundary next b s e = rw (e, utf8_run) refl
moves _ next b s e = rw (e, utf8_run) refl

-- A run that accepts has made its first step.
utf8_run-cons :
    (state : Utf8State) (b : ℕ) (s : List ℕ)
    → utf8_run state (b ∷ s) ≡ true
    → (next : Utf8State) × (utf8_step state b ≡ some next) × (utf8_run next s ≡ true)
unfolding utf8_run
utf8_run-cons state b s h = go (utf8_step state b) refl
  where
    go :
        (r : Option Utf8State)
        → utf8_step state b ≡ r
        → (next : Utf8State) × (utf8_step state b ≡ some next) × (utf8_run next s ≡ true)
    go none e = absurd (ground (arith, stuck state b s e))
    go (some next) e = (next, e, moves state next b s e ∙ h)

utf8_run-IsByte : (state : Utf8State) (s : List ℕ) → utf8_run state s ≡ true → All IsByte s
utf8_run-IsByte state [] h = tt
utf8_run-IsByte state (b ∷ s) h =
    let (next, stepped, rest) = utf8_run-cons state b s h in
    (utf8_step-IsByte state next b stepped, utf8_run-IsByte next s rest)

pub IsText-IsByte : (s : Str) → IsText s → All IsByte s
unfolding is_utf8
IsText-IsByte s t = utf8_run-IsByte boundary s t.0

pub field-IsByte : (s : Str) → IsText s → All IsByte (field s)
field-IsByte s t = (omega (arith, t.1), (omega arith, IsText-IsByte s t))
