-- ===== src/Protocol/Stream.antt =====
-- `decode` of src/protocol.rs on a growing buffer: more input changes nothing once a packet or an error
-- is there, and a part of a packet is never taken for a packet or an error.
use native.Mathlib.Decide.{dec_lt}
use blitz_broker.Common.{
  ℕ, zero, suc, ◌+◌, ◌/◌, ◌%◌, ◌≤◌, ◌<◌, ◌≡◌, refl, ◌∙◌, ◌≢◌, inl, inr, List, [], ◌∷◌, ◌++◌, arith,
  ltb, lt→ltb, le→ltb, tests, Bool-cases, length, take, drop, All, length-append, length-drop,
  length-take, drop-append, take-append, All-append, All-take, IsByte, nat_eq, list_eq,
}
use blitz_broker.Outcome.{>>=-eq-ok, ok, err, Returns-cases}
use blitz_broker.Error.{incomplete}
use blitz_broker.Protocol.RemainingLength.Reference.{read_digits, read_digits-Returns}
use blitz_broker.Protocol.Packet.{MqttPacket}
use blitz_broker.Protocol.Decode.{decode, decode_body}
use blitz_broker.Protocol.Settles.Frame.{read_frame, read_rest, decode-read_frame}

read_digits-append :
    (k : ℕ) (bytes more : List ℕ)
    → read_digits k bytes ≢ err incomplete
    → read_digits k (bytes ++ more) ≡ read_digits k bytes
unfolding read_digits
read_digits-append zero bytes more h = refl
read_digits-append (suc k) [] more h = absurd (h refl)
read_digits-append (suc k) (b ∷ bytes) more h = elim (Bool-cases (ltb b 128)) [
  | inl last ↦ rw last refl
  | inr next ↦ rw (next, read_digits-append k bytes more λ e. h (rw (next, e) refl)) refl
]

read_digits-take :
    (k m v n : ℕ) (bytes : List ℕ)
    → read_digits k bytes ≡ ok (v, n)
    → n ≤ m
    → read_digits k (take m bytes) ≡ ok (v, n)
unfolding read_digits
read_digits-take zero m v n bytes e h = cc
read_digits-take (suc k) m v n [] e h = cc
read_digits-take (suc k) zero v n (b ∷ bytes) e h = elim (Bool-cases (ltb b 128)) [
  | inl last ↦ absurd (ground (arith, rw last at e))
  | inr next ↦
      let (r, at_rest, same) = >>=-eq-ok (read_digits k bytes) _ (rw next at e) in
      absurd (ground arith)
]
read_digits-take (suc k) (suc m) v n (b ∷ bytes) e h = elim (Bool-cases (ltb b 128)) [
  | inl last ↦ rw last (rw last at e)
  | inr next ↦
      let (r, at_rest, same) = >>=-eq-ok (read_digits k bytes) _ (rw next at e) in
      rw (next, read_digits-take k m r.0 r.1 bytes at_rest (ground arith)) same
]

read_digits-short :
    (k m v n : ℕ) (bytes : List ℕ)
    → read_digits k bytes ≡ ok (v, n)
    → m < n
    → read_digits k (take m bytes) ≡ err incomplete
unfolding read_digits
read_digits-short zero m v n bytes e h = cc
read_digits-short (suc k) m v n [] e h = cc
read_digits-short (suc k) zero v n (b ∷ bytes) e h = refl
read_digits-short (suc k) (suc m) v n (b ∷ bytes) e h = elim (Bool-cases (ltb b 128)) [
  | inl last ↦ absurd (ground (arith, rw last at e))
  | inr next ↦
      let (r, at_rest, same) = >>=-eq-ok (read_digits k bytes) _ (rw next at e) in
      rw (next, read_digits-short k m r.0 r.1 bytes at_rest (ground arith)) refl
]

read_rest-append :
    (byte0 : ℕ) (rest more : List ℕ) (v n : ℕ)
    → n ≤ length rest
    → read_rest byte0 rest (v, n) ≢ err incomplete
    → read_rest byte0 (rest ++ more) (v, n) ≡ read_rest byte0 rest (v, n)
unfolding read_rest
read_rest-append byte0 rest more v n inside h = elim (Bool-cases (ltb (length rest) (n + v))) [
  | inl short ↦ absurd (h (rw short refl))
  | inr whole ↦
      rw
        (
          whole,
          le→ltb (length (rest ++ more)) (n + v) (omega (tests, length-append rest more)),
          drop-append n rest more inside,
          take-append v (drop n rest) more (omega (tests, length-drop n rest)),
        )
        refl
]

read_frame-append :
    (buf more : List ℕ)
    → All IsByte buf
    → read_frame buf ≢ err incomplete
    → read_frame (buf ++ more) ≡ read_frame buf
unfolding read_frame
read_frame-append [] more hb h = absurd (h refl)
read_frame-append (byte0 ∷ rest) more hb h =
    elim (Returns-cases (read_digits-Returns 4 rest hb.1)) [
      | inl ((v, n), e, d) ↦
          rw (read_digits-append 4 rest more (λ i. cc), e)
            (read_rest-append byte0 rest more v n d.3 (λ i. h (rw e i)))
      | inr (x, e, _) ↦ rw (read_digits-append 4 rest more (λ i. h (rw i refl)), e) refl
    ]

read_rest-eq-ok :
    (byte0 : ℕ) (rest : List ℕ) (v n : ℕ) {packet : MqttPacket} {size : ℕ}
    → read_rest byte0 rest (v, n) ≡ ok (packet, size)
    → (size ≡ suc (n + v)) × (n + v ≤ length rest)
unfolding read_rest
read_rest-eq-ok byte0 rest v n e = elim (Bool-cases (ltb (length rest) (n + v))) [
  | inl short ↦ absurd (ground (arith, rw short at e))
  | inr whole ↦
      let (p, _, same) =
        >>=-eq-ok (decode_body (byte0 / 16) (byte0 % 16) (take v (drop n rest))) _
          (rw whole at e) in
      (ground arith, omega tests)
]

read_frame-take :
    (buf : List ℕ) (m n : ℕ) (packet : MqttPacket)
    → read_frame buf ≡ ok (packet, n)
    → m < n
    → read_frame (take m buf) ≡ err incomplete
unfolding read_frame
read_frame-take [] m n packet e h = cc
read_frame-take (byte0 ∷ rest) zero n packet e h = refl
read_frame-take (byte0 ∷ rest) (suc m) n packet e h =
    let (r, digits, body) = >>=-eq-ok (read_digits 4 rest) _ e in
    let (size, fits) = read_rest-eq-ok byte0 rest r.0 r.1 body in
    elim (dec_lt m r.1) [
      | yes short ↦ rw (read_digits-short 4 m r.0 r.1 rest digits short) refl
      | no enough ↦ rw (read_digits-take 4 m r.0 r.1 rest digits (omega arith)) (
          unfold read_rest in
          rw (lt→ltb (length (take m rest)) (r.1 + r.0) (omega (arith, length-take m rest))) refl)
    ]

-- Once `decode` has answered anything but `Incomplete`, bytes that arrive later do not change the answer.
pub decode-append :
    (buf more : List ℕ)
    → All IsByte buf
    → All IsByte more
    → decode buf ≢ err incomplete
    → decode (buf ++ more) ≡ decode buf
decode-append buf more hb hm h =
    rw
      (decode-read_frame (buf ++ more) (All-append IsByte buf more hb hm), decode-read_frame buf hb)
      (read_frame-append buf more hb (λ e. h (decode-read_frame buf hb ∙ e)))

-- A strict prefix of the bytes of a packet decodes to `Incomplete`, and to nothing else.
pub decode-take :
    (buf : List ℕ) (m n : ℕ) (packet : MqttPacket)
    → All IsByte buf
    → decode buf ≡ ok (packet, n)
    → m < n
    → decode (take m buf) ≡ err incomplete
decode-take buf m n packet hb e lt =
    rw (decode-read_frame (take m buf) (All-take IsByte m buf hb))
      (read_frame-take buf m n packet (rw (decode-read_frame buf hb) at e) lt)
