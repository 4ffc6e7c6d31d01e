-- ===== src/Examples/Starts.antt =====
-- The arguments of src/main.rs.
use blitz_broker.Common.{
  ◌^◌, true, ltb, some, Bool, map, ℕ, ◌<◌, ◌≡◌, refl, List, [], ◌∷◌, nat_eq, list_eq,
}
use blitz_broker.Outcome.{ok}
use blitz_broker.Protocol.Packet.{Str}
use blitz_broker.Broker.Shards.{open_channels, spawn_sharded_broker}
use blitz_broker.Main.{parse_from, defaults, parse_args, shards_flag, parse_args-starts}

-- `--shards 0`
abbrev no_shards : List Str
no_shards = shards_flag ∷ (b'0' ∷ []) ∷ []

-- The value is not taken.
zero_is_refused : (parse_from no_shards defaults).num_shards ≡ 4
unfolding blitz_broker.Main.parse_from blitz_broker.Main.parse_unsigned
    blitz_broker.Main.parse_digits
zero_is_refused = refl

-- There is room for 2 ^ 59 channels at most, of 16 bytes each.
abbrev reserves : ℕ → Bool
reserves n = ltb n (2 ^ 59)

parse_args-starts_example :
    (parse_args (map some no_shards) ≡ ok (parse_from no_shards defaults))
    × ((parse_from no_shards defaults).port < 65536)
    × (0 < (parse_from no_shards defaults).num_shards)
    × (spawn_sharded_broker reserves (λ i. true) (parse_from no_shards defaults).num_shards
        ≡ ok (open_channels (parse_from no_shards defaults).num_shards))
parse_args-starts_example =
    parse_args-starts no_shards reserves (λ i. true) (rw zero_is_refused refl) (λ i below. refl)
