-- ===== src/Client/Framing.antt =====
-- What `read_packet` of src/bin/blitzclient.rs reads of a packet that the broker writes.
use blitz_broker.Common.{
  ℕ, zero, suc, ◌+◌, ◌/◌, ◌%◌, ◌^◌, ◌≤◌, ◌<◌, bit_and, ◌≡◌, refl, ap, ◌∙◌, inl, inr, true, false,
  List, [], ◌∷◌, ◌++◌, append-nil, append_assoc, arith, ltb, leb, ◌==◌, ==_iff, ltb→lt, lt→ltb,
  le→ltb, lt→leb, Bool-cases, length, length-append, drop-append_length, take-append_length, IsByte,
  top_bit, low_four, nat_eq, list_eq,
}
use native.Mathlib.Nat.{pow-suc}
use blitz_broker.Outcome.{map_err, ok}
use blitz_broker.Protocol.RemainingLength.{encode_remaining_length}
use blitz_broker.Protocol.RemainingLength.Reference.{write_digits, encode-write_digits}
use blitz_broker.Protocol.RemainingLength.RoundTrip.{decode-encode}
use blitz_broker.Protocol.RoundTrip.Framing.{framed}
use blitz_broker.Client.Decode.{ClientError, header_unread, length_unread, body_unread}
use blitz_broker.Client.Socket.{Socket, Session, go_on, ◌>>=◌, read_exact}
use blitz_broker.Protocol.RemainingLength
use blitz_broker.Client.Length.{in_words, decode_remaining_length, client_length-same}
use blitz_broker.Client.Frame.{read_body, read_length, read_packet}

-- The socket with other bytes to come.
abbrev pub left : Socket → List ℕ → Socket
left s bytes = record s { incoming = bytes }

bind-ok {ℓ κ} :
    {A : Type ℓ} {B : Type κ} (m : Session A) (f : A → Session B) (s : Socket) {t : Socket} {a : A}
    → m s ≡ (t, ok a)
    → (m >>= f) s ≡ f a t
bind-ok m f s e = ap (λ r. go_on r f) e

read_exact-append :
    (s : Socket) (e : ClientError) (front rest : List ℕ)
    → s.incoming ≡ front ++ rest
    → read_exact (length front) e s ≡ (left s rest, ok front)
unfolding read_exact
read_exact-append s e front rest h =
    rw
      (
        h,
        le→ltb (length (front ++ rest)) (length front) (omega (arith, length-append front rest)),
        drop-append_length front rest,
        take-append_length front rest,
      )
      refl

last_byte :
    (fuel b : ℕ) (before rest : List ℕ) (s : Socket)
    → b < 128
    → s.incoming ≡ b ∷ rest
    → read_length (suc fuel) before s ≡ (left s rest, ok (before ++ (b ∷ [])))
unfolding read_length
last_byte fuel b before rest s low h =
    let last : (bit_and b 0x80 == 0) ≡ true =
      let top : bit_and b 0x80 ≡ 0 = omega (arith, top_bit b (omega arith)) in (==_iff _ 0).1 top in
    rw (◌>>=◌, read_exact-append s length_unread (b ∷ []) rest h, last) refl

more_byte :
    (fuel b : ℕ) (before rest : List ℕ) (s : Socket)
    → 128 ≤ b
    → IsByte b
    → length before ≤ 2
    → s.incoming ≡ b ∷ rest
    → read_length (suc fuel) before s ≡ read_length fuel (before ++ (b ∷ [])) (left s rest)
unfolding read_length
more_byte fuel b before rest s high hb room h =
    let more : (bit_and b 0x80 == 0) ≡ false =
      ground (arith, top_bit b hb, ==_iff (bit_and b 0x80) 0) in
    let few : leb 4 (length (before ++ (b ∷ []))) ≡ false =
      lt→leb 4 (length (before ++ (b ∷ []))) (omega (arith, length-append before (b ∷ []))) in
    rw (◌>>=◌, read_exact-append s length_unread (b ∷ []) rest h, more, few) refl

read_length-digits :
    (k fuel j v : ℕ) (before rest : List ℕ) (s : Socket)
    → k ≤ j
    → k < fuel
    → v < 128 ^ suc k
    → length before + k ≤ 3
    → s.incoming ≡ write_digits j v ++ rest
    → read_length fuel before s ≡ (left s rest, ok (before ++ write_digits j v))
unfolding read_length write_digits
read_length-digits k zero j v before rest s kj kf small room h = absurd (omega arith)
read_length-digits zero (suc fuel) zero v before rest s kj kf small room h =
    last_byte fuel v before rest s (omega arith) h
read_length-digits (suc k) (suc fuel) zero v before rest s kj kf small room h = absurd (omega arith)
read_length-digits zero (suc fuel) (suc j) v before rest s kj kf small room h =
    let low : ltb v 128 ≡ true = lt→ltb v 128 (omega arith) in
    rw low (last_byte fuel v before rest s (omega arith) (h ∙ rw low refl))
read_length-digits (suc k) (suc fuel) (suc j) v before rest s kj kf small room h =
    elim (Bool-cases (ltb v 128)) [
      | inl low ↦ rw low (last_byte fuel v before rest s (ltb→lt v 128 low) (h ∙ rw low refl))
      | inr high ↦
          let b = v % 128 + 128 in
          let room' : length (before ++ (b ∷ [])) + k ≤ 3 =
            omega (arith, length-append before (b ∷ [])) in
          rw high (
            more_byte fuel b before (write_digits j (v / 128) ++ rest) s (omega arith) (omega arith)
              (omega arith) (h ∙ rw high refl)
            ∙ read_length-digits k fuel j (v / 128) (before ++ (b ∷ [])) rest
                (left s (write_digits j (v / 128) ++ rest)) (omega arith) (omega arith)
                (omega (arith, pow-suc 128 (suc k))) room' refl
            ∙ rw append_assoc refl)
    ]

read_body-append :
    (body rest : List ℕ) (s : Socket)
    → s.incoming ≡ body ++ rest
    → read_body (length body) s ≡ (left s rest, ok body)
unfolding read_body
read_body-append [] rest s h = λ i. (record s { incoming = h i }, ok [])
read_body-append (b ∷ body) rest s h =
    rw (lt→ltb 0 (length (b ∷ body)) (omega arith))
      (read_exact-append s (body_unread (length (b ∷ body))) (b ∷ body) rest h)

-- Where a packet of up to 2 ^ 28 - 1 bytes of body stands before other bytes, it is read, and they are left.
pub read_packet-framed :
    (first : ℕ) (body rest : List ℕ) (s : Socket)
    → IsByte first
    → length body < 2 ^ 28
    → s.incoming ≡ framed first body ++ rest
    → read_packet s ≡ (left s rest, ok (first / 16, first % 16, body))
unfolding read_packet
read_packet-framed first body rest s hf small h =
    let n = length body in
    let digits = encode_remaining_length n in
    let as_digits : digits ≡ write_digits 4 n = encode-write_digits n (omega arith) in
    let s1 = left s (digits ++ (body ++ rest)) in
    let header : read_exact 1 header_unread s ≡ (s1, ok (first ∷ [])) =
      read_exact-append s header_unread (first ∷ []) (digits ++ (body ++ rest))
        (h ∙ ap (λ tail. first ∷ tail) (append_assoc digits body rest)) in
    let measured : read_length 5 [] s1 ≡ (left s (body ++ rest), ok digits) = rw as_digits (
      read_length-digits 3 5 4 n [] (body ++ rest) (left s (write_digits 4 n ++ (body ++ rest)))
        (omega arith) (omega arith) (omega arith) (omega arith) refl) in
    let broker_reads : RemainingLength.decode_remaining_length digits ≡ ok (n, length digits) =
      rw (append-nil digits, lt→ltb n (2 ^ 28) small) at (decode-encode n [] (omega arith) tt) in
    let read : decode_remaining_length digits ≡ ok (n, length digits) =
      client_length-same digits ∙ ap (map_err in_words) broker_reads in
    rw
      (
        ◌>>=◌,
        header,
        measured,
        read,
        read_body-append body rest (left s (body ++ rest)) refl,
        low_four first hf,
      )
      refl
