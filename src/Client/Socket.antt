-- ===== src/Client/Socket.antt =====
-- The socket of src/bin/blitzclient.rs, and the operations of the standard library on it that the client
-- uses. Each takes the socket and gives it back, with a result.
use blitz_broker.Common.{
  ℕ, Bool, true, false, List, [], ◌∷◌, ◌++◌, ltb, if◌then◌else◌, length, take, drop, nat_eq,
  list_eq,
}
use blitz_broker.Outcome.{Outcome, ok, err, panic, out_of_fuel}
use blitz_broker.Protocol.Packet.{Str}
use blitz_broker.Client.Decode.{ClientError}

-- `incoming` is what the peer has yet to send, up to the end of the connection; `failures` says of the calls
-- of `write_all` to come whether they fail, and those behind its end do not; `print_failures` says it of the
-- calls of `println!`. `printed` are the lines on the standard output, each a topic and a text. The log on the
-- standard error is left out.
pub record Socket : Type 0 where
  pub is_reachable : Bool
  pub incoming : List ℕ
  pub failures : List Bool
  pub written : List ℕ
  pub print_failures : List Bool
  pub printed : List (Str × Str)

abbrev pub Session {ℓ} : Type ℓ → Type ℓ
Session A = Socket → Socket × Outcome ClientError A

abbrev pub go_on {ℓ κ} :
    {A : Type ℓ} {B : Type κ}
    → Socket × Outcome ClientError A
    → (A → Session B)
    → Socket × Outcome ClientError B
go_on (s, ok a) f = f a s
go_on (s, err e) f = (s, err e)
go_on (s, panic) f = (s, panic)
go_on (s, out_of_fuel) f = (s, out_of_fuel)

-- The `?` operator.
infixl 5 ◌>>=◌ ◌>>◌
abbrev pub ◌>>=◌ {ℓ κ} : {A : Type ℓ} {B : Type κ} → Session A → (A → Session B) → Session B
(m >>= f) s = go_on (m s) f

abbrev pub ◌>>◌ {κ} : {B : Type κ} → Session (Unit {0}) → Session B → Session B
m >> k = m >>= λ _. k

abbrev pub lift {ℓ} : {A : Type ℓ} → Outcome ClientError A → Session A
lift r s = (s, r)

abbrev pub pass {ℓ} : {A : Type ℓ} → A → Session A
pass a s = (s, ok a)

-- `if test { return Err(e); }`
abbrev pub fail_if : Bool → ClientError → Session (Unit {0})
fail_if true e s = (s, err e)
fail_if false e s = (s, ok tt)

-- `TcpStream::connect`
unfoldable pub dial : Session (Unit {0})
dial s = (s, if s.is_reachable then ok tt else err ClientError.connect_failed)

-- `read_exact` into a buffer of `n` bytes. Where the stream ends before, nothing of it is left.
unfoldable pub read_exact : ℕ → ClientError → Session (List ℕ)
read_exact n e s =
    if ltb (length s.incoming) n
    then (record s { incoming = [] }, err e)
    else (record s { incoming = drop n s.incoming }, ok (take n s.incoming))

abbrev pub write_next : List Bool → List ℕ → ClientError → Session (Unit {0})
write_next [] bytes e s = (record s { written = s.written ++ bytes }, ok tt)
write_next (true ∷ failures) bytes e s = (record s { failures = failures }, err e)
write_next (false ∷ failures) bytes e s =
    (record s { failures = failures; written = s.written ++ bytes }, ok tt)

-- `write_all`. What a call that fails has written of its bytes is not said.
unfoldable pub write_all : List ℕ → ClientError → Session (Unit {0})
write_all bytes e s = write_next s.failures bytes e s

abbrev pub print_next : List Bool → Str → Str → Session (Unit {0})
print_next [] topic text s = (record s { printed = s.printed ++ ((topic, text) ∷ []) }, ok tt)
print_next (true ∷ failures) topic text s = (record s { print_failures = failures }, panic)
print_next (false ∷ failures) topic text s =
    (record s { print_failures = failures; printed = s.printed ++ ((topic, text) ∷ []) }, ok tt)

-- `println!("{topic}: {text}")`, which panics if the standard output fails.
unfoldable pub print_line : Str → Str → Session (Unit {0})
print_line topic text s = print_next s.print_failures topic text s
