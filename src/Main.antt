-- ===== src/Main.antt =====
-- src/main.rs: the arguments of the server. The warnings that it logs are left out.
use blitz_broker.Common.{
  ◌≤◌, zero, suc, map, Bool, ℕ, ◌+◌, ◌-◌, ◌*◌, ◌^◌, ◌<◌, ◌≡◌, refl, inl, inr, true, false, ◌&&◌,
  Option, none, some, List, [], ◌∷◌, arith, ltb, leb, ◌==◌, if◌then◌else◌, ltb→lt, leb→le, le→leb,
  Bool-cases, nat_eq, list_beq, list_eq,
}
use blitz_broker.Outcome.{Outcome, ok, ◌>>=◌}
use blitz_broker.Env.{OsString, collect_args, collect_args-some}
use blitz_broker.Protocol.Packet.{Str}
use blitz_broker.Broker.{num_broker_shards}
use blitz_broker.Broker.Shards.{start_shards, open_channels, spawn_sharded_broker}

pub record Config : Type 0 where
  pub host : Str
  pub port : ℕ
  pub num_shards : ℕ

-- `str::parse` to an unsigned integer below a bound: digits, with at most a plus sign before them.
unfoldable pub parse_digits : ℕ → ℕ → Str → Option ℕ
parse_digits bound value [] = some value
parse_digits bound value (c ∷ s) =
    let value' = value * 10 + (c - b'0') in
    let rest = parse_digits bound value' s in
    if leb b'0' c && leb c b'9' && ltb value' bound then rest else none

unfoldable pub parse_unsigned : ℕ → Str → Option ℕ
parse_unsigned bound [] = none
parse_unsigned bound (c ∷ []) = parse_digits bound 0 (c ∷ [])
parse_unsigned bound (c ∷ d ∷ s) =
    if c == b'+' then parse_digits bound 0 (d ∷ s) else parse_digits bound 0 (c ∷ d ∷ s)

abbrev pub host_flag : Str
host_flag = b'-' ∷ b'-' ∷ b'h' ∷ b'o' ∷ b's' ∷ b't' ∷ []

abbrev pub port_flag : Str
port_flag = b'-' ∷ b'-' ∷ b'p' ∷ b'o' ∷ b'r' ∷ b't' ∷ []

abbrev pub shards_flag : Str
shards_flag = b'-' ∷ b'-' ∷ b's' ∷ b'h' ∷ b'a' ∷ b'r' ∷ b'd' ∷ b's' ∷ []

abbrev pub set_port : Option ℕ → Config → Config
set_port none c = c
set_port (some p) c = record c { port = p }

abbrev set_shards : Option ℕ → Config → Config
set_shards none c = c
set_shards (some n) c = if leb 1 n then record c { num_shards = n } else c

-- The loop over the arguments; an option that stands last has no value, and does nothing.
unfoldable pub parse_from : List Str → Config → Config
parse_from [] c = c
parse_from (arg ∷ []) c = c
parse_from (arg ∷ v ∷ args) c = elim (list_beq arg host_flag) [
  | true ↦ parse_from args (record c { host = v })
  | false ↦ elim (list_beq arg port_flag) [
    | true ↦ parse_from args (set_port (parse_unsigned 65536 v) c)
    | false ↦ elim (list_beq arg shards_flag) [
      | true ↦ parse_from args (set_shards (parse_unsigned (2 ^ 64) v) c)
      | false ↦ parse_from (v ∷ args) c
    ]
  ]
]

abbrev pub defaults : Config
defaults = record {
  host = b'1' ∷ b'2' ∷ b'7' ∷ b'.' ∷ b'0' ∷ b'.' ∷ b'0' ∷ b'.' ∷ b'1' ∷ [];
  port = 1883;
  num_shards = num_broker_shards;
}

-- `parse_args`, of the arguments behind the program's name.
unfoldable pub parse_args : List OsString → Outcome (Unit {0}) Config
parse_args args = do texts ← collect_args args; ok (parse_from texts defaults)

-- A port that fits its type, and at least one shard.
pub record IsConfig (c : Config) : Type 0 where
  pub port_fits : c.port < 65536
  pub some_shards : 0 < c.num_shards

parse_digits-bound :
    (bound value : ℕ) (s : Str) (n : ℕ)
    → value < bound
    → parse_digits bound value s ≡ some n
    → n < bound
unfolding parse_digits
parse_digits-bound bound value [] n h e = let same : value ≡ n = cc in omega (arith, same)
parse_digits-bound bound value (c ∷ s) n h e =
    elim (Bool-cases (leb b'0' c && leb c b'9' && ltb (value * 10 + (c - b'0')) bound)) [
      | inl going_on ↦
          let below : value * 10 + (c - b'0') < bound = ltb→lt _ _ (ground arith) in
          parse_digits-bound bound (value * 10 + (c - b'0')) s n below (rw going_on at e)
      | inr stop ↦ absurd (cc (rw stop at e))
    ]

pub parse_unsigned-bound :
    (bound : ℕ) (s : Str) (n : ℕ) → 0 < bound → parse_unsigned bound s ≡ some n → n < bound
unfolding parse_unsigned
parse_unsigned-bound bound [] n h e = absurd (cc)
parse_unsigned-bound bound (c ∷ []) n h e = parse_digits-bound bound 0 (c ∷ []) n h e
parse_unsigned-bound bound (c ∷ d ∷ s) n h e = elim (Bool-cases (c == b'+')) [
  | inl signed ↦ parse_digits-bound bound 0 (d ∷ s) n h (rw signed at e)
  | inr plain ↦ parse_digits-bound bound 0 (c ∷ d ∷ s) n h (rw plain at e)
]

set_port-IsConfig :
    (p : Option ℕ) (c : Config)
    → ((n : ℕ) → p ≡ some n → n < 65536)
    → IsConfig c
    → IsConfig (set_port p c)
set_port-IsConfig none c h v = v
set_port-IsConfig (some n) c h v = record { port_fits = h n refl; some_shards = v.some_shards }

set_shards-IsConfig : (n : Option ℕ) (c : Config) → IsConfig c → IsConfig (set_shards n c)
set_shards-IsConfig none c v = v
set_shards-IsConfig (some n) c v = elim (Bool-cases (leb 1 n)) [
  | inl enough ↦ rw enough (record { port_fits = v.port_fits; some_shards = leb→le 1 n enough })
  | inr too_few ↦ rw too_few v
]

parse_from-IsConfig : (args : List Str) (c : Config) → IsConfig c → IsConfig (parse_from args c)
unfolding parse_from
parse_from-IsConfig [] c v = v
parse_from-IsConfig (arg ∷ []) c v = v
parse_from-IsConfig (arg ∷ w ∷ args) c v = elim (Bool-cases (list_beq arg host_flag)) [
  | inl host ↦
      rw (parse_from, host)
        (parse_from-IsConfig args _
          (record { port_fits = v.port_fits; some_shards = v.some_shards }))
  | inr no_host ↦ elim (Bool-cases (list_beq arg port_flag)) [
    | inl port ↦
        rw (parse_from, no_host, port)
          (parse_from-IsConfig args _
            (set_port-IsConfig _ c (λ n e. parse_unsigned-bound 65536 w n (omega arith) e) v))
    | inr no_port ↦ elim (Bool-cases (list_beq arg shards_flag)) [
      | inl shards ↦
          rw (parse_from, no_host, no_port, shards)
            (parse_from-IsConfig args _ (set_shards-IsConfig (parse_unsigned (2 ^ 64) w) c v))
      | inr other ↦ rw (parse_from, no_host, no_port, other) (parse_from-IsConfig (w ∷ args) c v)
    ]
  ]
]

start_shards-ok :
    (starts : ℕ → Bool) (i n : ℕ)
    → ((j : ℕ) → i ≤ j → j < i + n → starts j ≡ true)
    → start_shards starts i n ≡ ok (open_channels n)
unfolding start_shards open_channels
start_shards-ok starts i zero h = refl
start_shards-ok starts i (suc n) h =
    let later =
      start_shards-ok starts (suc i) n
        (λ j from below. h j (omega (arith, from)) (omega (arith, below))) in
    rw (h i (omega arith) (omega arith), later) refl

-- Whatever the arguments, if they are Unicode, and the warnings of the log can be written, reading them does
-- not panic and gives a port and at least one shard. Where the vector of that many channels gets its room and
-- the threads start, starting the shards does not panic either: it gives a channel for each.
pub parse_args-starts :
    (args : List Str) (reserves starts : ℕ → Bool)
    → reserves (parse_from args defaults).num_shards ≡ true
    → ((i : ℕ) → i < (parse_from args defaults).num_shards → starts i ≡ true)
    → (parse_args (map some args) ≡ ok (parse_from args defaults))
      × ((parse_from args defaults).port < 65536)
      × (0 < (parse_from args defaults).num_shards)
      × (spawn_sharded_broker reserves starts (parse_from args defaults).num_shards
          ≡ ok (open_channels (parse_from args defaults).num_shards))
unfolding parse_args spawn_sharded_broker
parse_args-starts args reserves starts room threads =
    let v =
      parse_from-IsConfig args defaults
        (record { port_fits = omega arith; some_shards = omega arith }) in
    let n = (parse_from args defaults).num_shards in
    (
      rw (collect_args-some {E = Unit {0}} args) refl,
      v.port_fits,
      v.some_shards,
      rw (le→leb 1 n v.some_shards, room)
          (start_shards-ok starts 0 n (λ i from below. threads i (omega (arith, below)))),
    )
