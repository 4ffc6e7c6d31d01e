-- ===== src/Examples/Benchmarks.antt =====
-- The benchmark of src/bin/shard_benchmark.rs, with three messages in batches of two.
use blitz_broker.Common.{
  false, true, length, ◌*◌, arith, ◌+◌, ◌≤◌, ◌≡◌, refl, ◌⊎◌, none, some, List, [], ◌∷◌, nat_eq,
  list_eq,
}
use blitz_broker.Client
use blitz_broker.Benchmark
use blitz_broker.Benchmark.Batches.Ends.{batches_end}
use blitz_broker.Benchmark.Encoders.{benchmark_same}
use blitz_broker.Benchmark.Batches.{Pair, Act, busy, publisher_goes, subscriber_goes, run, start}
use blitz_broker.Benchmark.Batches.Progress.{IsThrough, GoesOn, batches_flow}

abbrev order : List Act
order = publisher_goes true ∷ publisher_goes false ∷ subscriber_goes ∷ []

abbrev reached : Pair
reached = record {
  sent = 2;
  received = 1;
  lost = 0;
  signals = 0;
  publisher = busy 0;
  subscriber = busy 1;
}

ran : run 3 2 order (start 3 2) ≡ some reached
unfolding run blitz_broker.Benchmark.Batches.step
ran = refl

batches_flow_example :
    (reached.lost ≡ 0)
    × (reached.received ≤ reached.sent)
    × (reached.sent ≤ reached.received + 2)
    × (IsThrough 3 2 reached ⊎ GoesOn 3 2 reached)
batches_flow_example = batches_flow 3 2 order reached (omega arith) ran

benchmark_same_example :
    (Benchmark.encode_connect (b'a' ∷ []) ≡ Client.encode_connect (b'a' ∷ []) 60)
    × (Benchmark.encode_subscribe 1 (b'a' ∷ []) ≡ Client.encode_subscribe 1 (b'a' ∷ []) 0)
    × (Benchmark.encode_publish (b'a' ∷ []) (7 ∷ [])
        ≡ Client.encode_publish (b'a' ∷ []) (7 ∷ []) 0 none)
    × (Benchmark.encode_disconnect ≡ Client.encode_disconnect)
benchmark_same_example = benchmark_same (b'a' ∷ []) (7 ∷ []) 1

batches_end_example : length order ≤ 6 * 3
batches_end_example = batches_end 3 2 order reached (omega arith) ran
