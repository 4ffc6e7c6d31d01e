-- ===== src/Client/Settles.antt =====
-- src/bin/blitzclient.rs: the decoders of the client give a value or an error, on any bytes.
use blitz_broker.Common.{
  Bool-cases, inl, inr, some, ◌≡◌, ◌^◌, ℕ, ◌+◌, ◌/◌, ◌≤◌, bit_and, not, List, arith, ltb, ◌==◌,
  tests, length, All, IsByte, nat_eq, list_eq,
}
use blitz_broker.Outcome.{
  Returns-forget, Outcome, Returns, returns_ok, Returns-bind, Returns-reject_if, Returns-if,
  Returns-ok_or, Returns-map_err,
}
use blitz_broker.Slice.{
  index-Returns, slice-Returns, slice_from-Returns, checked_add, u16_from_be_bytes,
}
use blitz_broker.Protocol.Utf8.{is_utf8}
use blitz_broker.Protocol.RemainingLength.Reference.{read_digits-Returns, decode-read_digits}
use blitz_broker.Client.Decode.{
  ClientError, decode_utf8_str, decode_id, read_id, decode_publish_body, decode_connack_body,
  decode_suback_body, decode_puback_body,
}
use blitz_broker.Client.Length.{decode_remaining_length, client_length-same, in_words}

-- The call returned, with a value that `P` holds of or with some error.
abbrev pub Settles {ℓ κ} : {A : Type ℓ} → (A → Type κ) → Outcome ClientError A → Type (ℓ ⊔ κ)
Settles P r = Returns P (λ _. Unit {0}) r

abbrev Anything {ℓ} : {A : Type ℓ} → A → Type 0
Anything a = Unit

pub client_length-Settles :
    (bytes : List ℕ) → All IsByte bytes → Settles Anything (decode_remaining_length bytes)
client_length-Settles bytes hb =
    rw (client_length-same bytes, decode-read_digits bytes hb)
      (Returns-map_err in_words (Returns-forget (read_digits-Returns 4 bytes hb)) λ _. tt)

checked_add_ahead : (a b c : ℕ) → checked_add a b ≡ some c → a ≤ c
unfolding checked_add
checked_add_ahead a b c e = elim (Bool-cases (ltb (a + b) (2 ^ 64))) [
  | inl fits ↦ let same : a + b ≡ c = cc (rw fits at e) in omega (arith, same)
  | inr over ↦ absurd (cc (rw over at e))
]

decode_utf8_str-Settles :
    (buf : List ℕ) (pos : ℕ)
    → All IsByte buf
    → Settles (λ (s, end). end ≤ length buf) (decode_utf8_str buf pos)
unfolding decode_utf8_str
decode_utf8_str-Settles buf pos hb = Returns-reject_if (ltb (length buf) (pos + 2)) _ tt λ room.
    Returns-bind (index-Returns {P = IsByte} buf pos hb (omega tests)) λ hi _.
      Returns-bind (index-Returns {P = IsByte} buf (pos + 1) hb (omega tests)) λ lo _.
        Returns-bind
          (Returns-ok_or {P = λ end. pos + 2 ≤ end}
            (checked_add (pos + 2) (u16_from_be_bytes hi lo)) _
            (λ end e. checked_add_ahead (pos + 2) (u16_from_be_bytes hi lo) end e) tt)
          λ end ahead. Returns-reject_if (ltb (length buf) end) _ tt λ inside.
            Returns-bind (slice-Returns buf (pos + 2) end ahead (omega tests))
              λ s _. Returns-reject_if (not (is_utf8 s)) _ tt λ _. returns_ok (omega tests)

read_id-Settles :
    (body : List ℕ) (pos : ℕ)
    → All IsByte body
    → Settles (λ (id, end). end ≤ length body) (read_id body pos)
unfolding read_id
read_id-Settles body pos hb = Returns-reject_if (ltb (length body) (pos + 2)) _ tt λ room.
    Returns-bind (index-Returns {P = IsByte} body pos hb (omega tests)) λ hi _.
      Returns-bind (index-Returns {P = IsByte} body (pos + 1) hb (omega tests))
        λ lo _. Returns-reject_if (u16_from_be_bytes hi lo == 0) _ tt λ _. returns_ok (omega tests)

pub decode_publish_body-Settles :
    (flags : ℕ) (body : List ℕ)
    → All IsByte body
    → Settles Anything (decode_publish_body flags body)
unfolding decode_publish_body decode_id
decode_publish_body-Settles flags body hb =
    let qos = bit_and (flags / 2) 0x03 in
    Returns-bind (decode_utf8_str-Settles body 0 hb) λ (topic, pos) fits.
      Returns-bind
        (Returns-if {P = λ (id, end). end ≤ length body} (ltb 0 qos)
          (λ _. read_id-Settles body pos hb) (λ _. returns_ok fits))
        λ (id, pos') fits'.
          Returns-bind (slice_from-Returns {P = IsByte} body pos' hb fits')
            λ payload _. returns_ok tt

pub decode_connack_body-Settles :
    (body : List ℕ) → All IsByte body → Settles Anything (decode_connack_body body)
unfolding decode_connack_body
decode_connack_body-Settles body hb = Returns-reject_if (ltb (length body) 2) _ tt λ room.
    Returns-bind (index-Returns {P = IsByte} body 0 hb (omega tests)) λ flags _.
      Returns-bind (index-Returns {P = IsByte} body 1 hb (omega tests)) λ code _. returns_ok tt

pub decode_suback_body-Settles :
    (body : List ℕ) → All IsByte body → Settles Anything (decode_suback_body body)
unfolding decode_suback_body
decode_suback_body-Settles body hb = Returns-reject_if (ltb (length body) 3) _ tt λ room.
    Returns-bind (index-Returns {P = IsByte} body 0 hb (omega tests)) λ hi _.
      Returns-bind (index-Returns {P = IsByte} body 1 hb (omega tests)) λ lo _.
        Returns-bind (slice_from-Returns {P = IsByte} body 2 hb (omega tests))
          λ codes _. returns_ok tt

pub decode_puback_body-Settles :
    (body : List ℕ) → All IsByte body → Settles Anything (decode_puback_body body)
unfolding decode_puback_body
decode_puback_body-Settles body hb = Returns-reject_if (ltb (length body) 2) _ tt λ room.
    Returns-bind (index-Returns {P = IsByte} body 0 hb (omega tests)) λ hi _.
      Returns-bind (index-Returns {P = IsByte} body 1 hb (omega tests)) λ lo _. returns_ok tt
