-- ===== src/Benchmark/Config.antt =====
-- src/bin/shard_benchmark.rs: the arguments. A value that is missing or is no number is a panic.
use blitz_broker.Common.{
  ℕ, ◌^◌, Option, none, some, List, [], ◌∷◌, if◌then◌else◌, nat_eq, list_beq, list_eq,
}
use blitz_broker.Outcome.{Outcome, ok, ◌>>=◌, or_panic}
use blitz_broker.Protocol.Packet.{Str}
use blitz_broker.Main.{parse_unsigned}

pub record BenchConfig : Type 0 where
  pub host : Str
  pub port : ℕ
  pub channels : ℕ
  pub messages_per_channel : ℕ
  pub batch_size : ℕ

abbrev host_flag : Str
host_flag = b'-' ∷ b'-' ∷ b'h' ∷ b'o' ∷ b's' ∷ b't' ∷ []

abbrev port_flag : Str
port_flag = b'-' ∷ b'-' ∷ b'p' ∷ b'o' ∷ b'r' ∷ b't' ∷ []

abbrev channels_flag : Str
channels_flag = b'-' ∷ b'-' ∷ b'c' ∷ b'h' ∷ b'a' ∷ b'n' ∷ b'n' ∷ b'e' ∷ b'l' ∷ b's' ∷ []

abbrev messages_flag : Str
messages_flag = b'-' ∷ b'-' ∷ b'm' ∷ b'e' ∷ b's' ∷ b's' ∷ b'a' ∷ b'g' ∷ b'e' ∷ b's' ∷ []

abbrev batch_size_flag : Str
batch_size_flag =
    b'-' ∷ b'-' ∷ b'b' ∷ b'a' ∷ b't' ∷ b'c' ∷ b'h' ∷ b'-' ∷ b's' ∷ b'i' ∷ b'z' ∷ b'e' ∷ []

abbrev default_config : BenchConfig
default_config = record {
  host = b'1' ∷ b'2' ∷ b'7' ∷ b'.' ∷ b'0' ∷ b'.' ∷ b'0' ∷ b'.' ∷ b'1' ∷ [];
  port = 1883;
  channels = 16;
  messages_per_channel = 1000;
  batch_size = 50;
}

-- The options that take a value; `none` for any other argument.
unfoldable option_of : Str → Option (Str → BenchConfig → Outcome (Unit {0}) BenchConfig)
option_of arg =
    if list_beq arg host_flag
    then some (λ val c. ok (record c { host = val }))
    else if list_beq arg port_flag
    then some
        (λ val c. do port ← or_panic (parse_unsigned 65536 val); ok (record c { port = port }))
    else if list_beq arg channels_flag
    then some (λ val c. do
      channels ← or_panic (parse_unsigned (2 ^ 64) val)
      ok (record c { channels = channels }))
    else if list_beq arg messages_flag
    then some (λ val c. do
      messages ← or_panic (parse_unsigned (2 ^ 64) val)
      ok (record c { messages_per_channel = messages }))
    else if list_beq arg batch_size_flag
    then some (λ val c. do
      batch_size ← or_panic (parse_unsigned (2 ^ 64) val)
      ok (record c { batch_size = batch_size }))
    else none

-- The loop over the arguments behind the program's name; `args[i]` panics behind the last.
unfoldable parse_config : List Str → BenchConfig → Outcome (Unit {0}) BenchConfig
parse_config [] c = ok c
parse_config (arg ∷ []) c = elim (option_of arg) [ none ↦ ok c | some set ↦ or_panic none ]
parse_config (arg ∷ val ∷ args) c = elim (option_of arg) [
  | none ↦ parse_config (val ∷ args) c
  | some set ↦ set val c >>= λ c'. parse_config args c'
]
