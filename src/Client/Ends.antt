-- ===== src/Client/Ends.antt =====
-- The operations of src/bin/blitzclient.rs on a socket whose peer closes the connection some time: they end,
-- without a panic, whatever bytes come and whichever writes fail.
pub mod Reading
pub mod Running
use blitz_broker.Common.{
  [], ◌∷◌, ℕ, ◌+◌, ◌≤◌, ◌≡◌, refl, inl, inr, Bool, true, false, List, arith, ltb, tests, Bool-cases,
  length, All, length-drop, All-take, All-drop, IsByte, nat_eq, list_eq,
}
use blitz_broker.Outcome.{Outcome, ok, err, returns_ok, returns_err}
use blitz_broker.Client.Decode.{ClientError}
use blitz_broker.Client.Socket.{
  Socket, Session, go_on, lift, fail_if, dial, read_exact, write_next, write_all, ◌>>◌,
}
use blitz_broker.Client.Settles.{Settles}
use blitz_broker.Client.Run
use blitz_broker.Client.Args

-- What is still to come are bytes, and no call of `println!` fails.
abbrev pub IsCalm : Socket → Type 0
IsCalm s = All IsByte s.incoming × All (λ fails. fails ≡ false) s.print_failures

-- Bytes are still to come, of which at least `n` of `before` are gone.
abbrev pub Reads : ℕ → ℕ → Socket → Type 0
Reads n before s = IsCalm s × (length s.incoming + n ≤ before)

-- The operation ended with a value that `P` holds of, or with an error; it has read `n` bytes if it ended
-- with a value.
pub data Ends {ℓ κ} {A : Type ℓ} (n before : ℕ) (P : A → Type κ)
    : Socket × Outcome ClientError A → Type (ℓ ⊔ κ) where
  ends_ok : {s : Socket} {a : A} → Reads n before s → P a → Ends n before P (s, ok a)
  ends_err : {s : Socket} {e : ClientError} → Reads 0 before s → Ends n before P (s, err e)

abbrev pub Anything {ℓ} : {A : Type ℓ} → A → Type 0
Anything a = Unit

-- Behind an operation that has read `n` bytes.
pub Ends-behind {ℓ κ} :
    {A : Type ℓ} {P : A → Type κ} (n : ℕ) {m before middle : ℕ} {r : Socket × Outcome ClientError A}
    → Ends m middle P r
    → middle + n ≤ before
    → Ends (n + m) before P r
Ends-behind n (ends_ok (hb, gone) h) le = ends_ok (hb, omega (arith, gone, le)) h
Ends-behind n (ends_err (hb, gone)) le = ends_err (hb, omega (arith, gone, le))

pub Ends-weaken {ℓ κ} :
    {A : Type ℓ} {P : A → Type κ} {n before : ℕ} {r : Socket × Outcome ClientError A}
    → Ends n before P r
    → Ends 0 before P r
Ends-weaken (ends_ok (hb, gone) h) = ends_ok (hb, omega arith) h
Ends-weaken (ends_err r) = ends_err r

pub Ends-done {ℓ κ} :
    {A : Type ℓ} {P : A → Type κ} {n before : ℕ} {r : Socket × Outcome ClientError A}
    → Ends n before P r
    → Ends n before Anything r
Ends-done (ends_ok r h) = ends_ok r tt
Ends-done (ends_err r) = ends_err r

pub Ends-and_then {ℓ κ ι υ} :
    {A : Type ℓ} {B : Type κ} {n m before : ℕ} {P : A → Type ι} {Q : B → Type υ}
    {r : Socket × Outcome ClientError A} {f : A → Session B}
    → Ends n before P r
    → ((s : Socket) (a : A) → Reads n before s → P a → Ends m (length s.incoming) Q (f a s))
    → Ends (n + m) before Q (go_on r f)
Ends-and_then (ends_ok {s} {a} reads h) k = Ends-behind _ (k s a reads h) reads.1
Ends-and_then (ends_err r) k = ends_err r

pub Ends-bind {ℓ κ ι υ} :
    {A : Type ℓ} {B : Type κ} {n m before : ℕ} {P : A → Type ι} {Q : B → Type υ}
    {r : Socket × Outcome ClientError A} {f : A → Session B}
    → Ends n before P r
    → ((s : Socket) (a : A) → IsCalm s → P a → Ends m (length s.incoming) Q (f a s))
    → Ends (n + m) before Q (go_on r f)
Ends-bind d k = Ends-and_then d λ s a reads h. k s a reads.0 h

pub Ends-lift {ℓ κ} :
    {A : Type ℓ} {P : A → Type κ} {r : Outcome ClientError A} (s : Socket)
    → IsCalm s
    → Settles P r
    → Ends 0 (length s.incoming) P (lift r s)
Ends-lift s hb (returns_ok h) = ends_ok (hb, omega arith) h
Ends-lift s hb (returns_err h) = ends_err (hb, omega arith)

pub Ends-fail_if :
    (test : Bool) (e : ClientError) (s : Socket)
    → IsCalm s
    → Ends 0 (length s.incoming) (λ _. test ≡ false) (fail_if test e s)
Ends-fail_if true e s hb = ends_err (hb, omega arith)
Ends-fail_if false e s hb = ends_ok (hb, omega arith) refl

pub Ends-dial : (s : Socket) → IsCalm s → Ends 0 (length s.incoming) Anything (dial s)
unfolding dial
Ends-dial s hb = elim (Bool-cases s.is_reachable) [
  | inl there ↦ rw there (ends_ok (hb, omega arith) tt)
  | inr away ↦ rw away (ends_err (hb, omega arith))
]

pub Ends-write_all :
    (bytes : List ℕ) (e : ClientError) (s : Socket)
    → IsCalm s
    → Ends 0 (length s.incoming) Anything (write_all bytes e s)
unfolding write_all
Ends-write_all bytes e s hb = writes s.failures
  where
    writes :
        (failures : List Bool) → Ends 0 (length s.incoming) Anything (write_next failures bytes e s)
    writes [] = ends_ok (hb, omega arith) tt
    writes (true ∷ failures) = ends_err (hb, omega arith)
    writes (false ∷ failures) = ends_ok (hb, omega arith) tt

pub Ends-read_exact :
    (n : ℕ) (e : ClientError) (s : Socket)
    → IsCalm s
    → Ends n (length s.incoming) (All IsByte) (read_exact n e s)
unfolding read_exact
Ends-read_exact n e s hb = elim (Bool-cases (ltb (length s.incoming) n)) [
  | inl short ↦ rw short (ends_err ((tt, hb.1), omega arith))
  | inr enough ↦ rw enough (
      ends_ok ((All-drop IsByte n s.incoming hb.0, hb.1), omega (tests, length-drop n s.incoming))
        (All-take IsByte n s.incoming hb.0))
]
