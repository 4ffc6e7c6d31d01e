-- ===== src/Env.antt =====
-- `std::env::args().collect()`, as src/main.rs and src/bin/blitzclient.rs call it, behind the program's name.
use blitz_broker.Common.{◌≡◌, refl, Option, none, some, List, [], ◌∷◌, map}
use blitz_broker.Outcome.{Outcome, ok, panic, ◌>>=◌}
use blitz_broker.Protocol.Packet.{Str}

-- An argument as the system gives it: its text, or none, if it is not Unicode.
abbrev pub OsString : Type 0
OsString = Option Str

-- It panics at an argument that is not Unicode.
unfoldable pub collect_args {ℓ} : {E : Type ℓ} → List OsString → Outcome E (List Str)
collect_args [] = ok []
collect_args (none ∷ args) = panic
collect_args (some arg ∷ args) = collect_args args >>= λ texts. ok (arg ∷ texts)

pub collect_args-some {ℓ} :
    {E : Type ℓ} (args : List Str) → collect_args {E = E} (map some args) ≡ ok args
unfolding collect_args
collect_args-some [] = refl
collect_args-some {E} (arg ∷ args) = rw (collect_args-some {E = E} args) refl
