-- ===== src/Protocol/Settles.antt =====
-- Every decoder of src/protocol.rs returns on every input: no index or slice is out of bounds, no
-- loop runs out of fuel, and what it returns is well formed. The decoders of bodies never ask for more
-- input.
pub mod Text
pub mod Bodies
pub mod Frame
use blitz_broker.Common.{
  ℕ, ◌+◌, ◌%◌, ◌/◌, take, drop, All-take, All-drop, tests, ltb, ◌/◌, ◌%◌, ◌≤◌, List, [], ◌∷◌, arith,
  ltb, tests, length, take, drop, All, All-take, All-drop, IsByte, nat_eq, list_eq,
}
use blitz_broker.Outcome.{
  Outcome, Returns-if, Returns, returns_ok, returns_err, Returns-bind, ◌>>=◌,
}
use blitz_broker.Protocol.RemainingLength.Reference.{read_digits-Returns}
use blitz_broker.Error.{ProtocolError}
use blitz_broker.Protocol.WellFormed.{IsFromClient, IsFatal}
use blitz_broker.Protocol.Decode.{decode}
use Bodies.{decode_body-Returns}
use Frame.{read_frame, read_rest, decode-read_frame}

weaken :
    {A : Type 0} {P : A → Type 0} {r : Outcome ProtocolError A}
    → Returns P IsFatal r
    → Returns P (λ _. Unit {0}) r
weaken (returns_ok h) = returns_ok h
weaken (returns_err h) = returns_err tt

-- On every list of bytes `decode` returns, with no index or slice out of bounds, no overflow and no
-- loop left unfinished; a packet that it returns is one that a client may send, and takes at least
-- two bytes and no more than there are.
pub decode-Returns :
    (buf : List ℕ)
    → All IsByte buf
    → Returns (λ (p, n). IsFromClient p × (2 ≤ n) × (n ≤ length buf)) (λ _. Unit {0}) (decode buf)
unfolding read_frame read_rest
decode-Returns [] hb = rw (decode-read_frame [] hb) (returns_err tt)
decode-Returns (byte0 ∷ rest) hb = rw (decode-read_frame (byte0 ∷ rest) hb) (
    Returns-bind (read_digits-Returns 4 rest hb.1) λ (v, n) d.
      Returns-if (ltb (length rest) (n + v)) (λ _. returns_err tt)
        λ fits.
          Returns-bind
            (weaken (
              decode_body-Returns (byte0 / 16) (byte0 % 16) (take v (drop n rest)) (omega arith)
                (All-take IsByte v (drop n rest) (All-drop IsByte n rest hb.1))))
            λ packet p. returns_ok (p, omega (arith, d.1), omega tests))
