-- ===== src/Client/Ends/Reading.antt =====
-- src/bin/blitzclient.rs: `read_packet` ends, whatever comes.
use blitz_broker.Common.{
  zero, suc, ◌++◌, ◌<◌, leb, leb→lt, length-append, All-append, ◌==◌, bit_and, [], ◌∷◌, ℕ, ◌+◌, ◌≡◌,
  refl, inl, inr, List, arith, ltb, Bool-cases, length, All, IsByte, nat_eq, list_eq,
}
use blitz_broker.Client.Decode.{header_unread, length_unread, body_unread, length_too_long}
use blitz_broker.Client.Socket.{Socket}
use blitz_broker.Client.Frame.{one_byte, read_length, read_body, read_packet}
use blitz_broker.Client.Settles.{client_length-Settles}
use blitz_broker.Client.Ends.{
  IsCalm, Ends, ends_ok, Ends-weaken, Ends-bind, Ends-lift, Ends-fail_if, Ends-read_exact,
}

one_byte-IsByte : (bytes : List ℕ) → All IsByte bytes → IsByte (one_byte bytes)
one_byte-IsByte [] h = omega arith
one_byte-IsByte (b ∷ bytes) h = h.0

pub Ends-read_length :
    (fuel : ℕ) (before : List ℕ) (s : Socket)
    → All IsByte before
    → IsCalm s
    → length before + fuel ≡ 5
    → length before < 4
    → Ends 0 (length s.incoming) (All IsByte) (read_length fuel before s)
unfolding read_length
Ends-read_length zero before s hbefore hb room few = absurd (omega arith)
Ends-read_length (suc fuel) before s hbefore hb room few = Ends-weaken (
    Ends-bind {m = 0} (Ends-read_exact 1 length_unread s hb) λ s' bytes hb' h.
      let b = one_byte bytes in
      let before' = before ++ (b ∷ []) in
      let longer : length before' ≡ suc (length before) =
        omega (arith, length-append before (b ∷ [])) in
      let is_bytes : All IsByte before' =
        All-append IsByte before (b ∷ []) hbefore (one_byte-IsByte bytes h, tt) in
      elim (Bool-cases (bit_and b 0x80 == 0)) [
        | inl last ↦ rw last (ends_ok (hb', omega arith) is_bytes)
        | inr more ↦ rw more (
            Ends-bind {m = 0} (Ends-fail_if (leb 4 (length before')) length_too_long s' hb')
              λ s'' _ hb'' small.
                Ends-read_length fuel before' s'' is_bytes hb'' (omega arith)
                  (leb→lt 4 (length before') small))
      ])

pub Ends-read_body :
    (n : ℕ) (s : Socket) → IsCalm s → Ends 0 (length s.incoming) (All IsByte) (read_body n s)
unfolding read_body
Ends-read_body n s hb = elim (Bool-cases (ltb 0 n)) [
  | inl some_bytes ↦ rw some_bytes (Ends-weaken (Ends-read_exact n (body_unread n) s hb))
  | inr no_bytes ↦ rw no_bytes (ends_ok (hb, omega arith) tt)
]

abbrev pub IsPacket : ℕ × ℕ × List ℕ → Type 0
IsPacket (pkt_type, flags, body) = All IsByte body

-- A packet that is read has taken a byte at least.
pub Ends-read_packet : (s : Socket) → IsCalm s → Ends 1 (length s.incoming) IsPacket (read_packet s)
unfolding read_packet
Ends-read_packet s hb = Ends-bind {m = 0} (Ends-read_exact 1 header_unread s hb) λ s1 header hb1 _.
    Ends-bind {m = 0} (Ends-read_length 5 [] s1 tt hb1 (refl) (omega arith))
      λ s2 rl_bytes hb2 is_bytes.
        Ends-bind {m = 0} (Ends-lift s2 hb2 (client_length-Settles rl_bytes is_bytes)) λ s3 _ hb3 _.
          Ends-bind {m = 0} (Ends-read_body _ s3 hb3) λ s4 body hb4 h. ends_ok (hb4, omega arith) h
