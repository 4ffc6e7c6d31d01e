-- ===== src/Benchmark/Encoders.antt =====
-- The encoders of src/bin/shard_benchmark.rs against those of src/bin/blitzclient.rs.
use blitz_broker.Common.{
  ap, sym, append-nil, ◌++◌, ℕ, ◌≡◌, refl, sym, ap, none, List, [], ◌++◌, append-nil, nat_eq,
  list_eq,
}
use blitz_broker.Protocol.Packet.{pt_publish, Str}
use blitz_broker.Client
use blitz_broker.Benchmark

-- The benchmark's encoders are the client's, at a keep alive of 60 seconds and at QoS 0.
pub benchmark_same :
    (text : Str) (payload : List ℕ) (packet_id : ℕ)
    → (Benchmark.encode_connect text ≡ Client.encode_connect text 60)
      × (Benchmark.encode_subscribe packet_id text ≡ Client.encode_subscribe packet_id text 0)
      × (Benchmark.encode_publish text payload ≡ Client.encode_publish text payload 0 none)
      × (Benchmark.encode_disconnect ≡ Client.encode_disconnect)
unfolding Benchmark.encode_connect Benchmark.encode_subscribe Benchmark.encode_publish
    Benchmark.encode_disconnect Benchmark.make_packet Benchmark.encode_utf8_str
    Benchmark.encode_remaining_length Client.encode_connect Client.encode_subscribe
    Client.encode_publish Client.encode_disconnect Client.make_packet Client.encode_utf8_str
    Client.encode_remaining_length
benchmark_same text payload packet_id = (
  refl,
  refl,
  ap (λ field. Benchmark.make_packet pt_publish 0 (field ++ payload))
      (sym (append-nil (Benchmark.encode_utf8_str text []))),
  refl,
)
