-- ===== src/Lib.antt =====
-- BlitzBroker, an MQTT 3.1.1 broker on the standard library alone: a model of its code and what holds of it.
--
-- The program. A connection (src/connection.rs) reads bytes from a socket, decodes packets from them
-- (src/protocol.rs) and sends messages to the broker (src/broker.rs), which is split into shards by the hash
-- of a topic. A shard keeps the subscriptions and the retained packets of its topics, and pushes packets to
-- the outbound queues (src/queue.rs) of the connections, whose writers encode them.
--
-- The files.
--   Common, Outcome, Slice, HashMap, Env: numbers, lists, and what the code uses of the standard library. A call
--     is a value of `Outcome`: a result, an `Err`, a panic, or the end of the fuel of a loop.
--   Error: `ProtocolError` of src/error.rs.
--   Protocol: src/protocol.rs. Packet has the packet types, RemainingLength and Utf8 the fields, Encode
--     and Decode the codec, Topic the filters, Stream and Settles and RoundTrip what holds of them.
--   Queue: src/queue.rs; in Wakeup at the grain of its locks.
--   Broker: `run_broker` of src/broker.rs, one message at a time (`handle`), with its pushes as a list; in
--     Spec what a shard promises, in Shards the function `ShardedBroker::send` (`send`) and the shards,
--     in Whole what the shards push together, in Senders the calls of `send` by several threads at once.
--   Connection: `dispatch_packet`, `reader_loop` and `writer_loop` of src/connection.rs, whose calls of the
--     broker and of the queue are a list of effects; in Threads `handle_connection`, as the steps of its
--     reader, of its writer (with writes that fail part way, and a wait that may miss a close) and of the
--     shards, in any order.
--   Client: src/bin/blitzclient.rs. Its encoders are in Client itself; Socket has its connection, Length and
--     Frame `read_packet`, Decode the bodies, Lossy `String::from_utf8_lossy`, Run `connect_to_broker`,
--     `run_pub` and `run_sub`, Args `parse_args` and `main`. In Understood is what the broker reads of its
--     packets, in Receives, Framing and Answers what it reads of the broker's, in Sessions, Listening,
--     Conversation and Journey what comes of both, in Starts what its arguments do, and in Settles and Ends
--     that it always comes to an end.
--   Main: the arguments of src/main.rs.
--   Benchmark: src/bin/shard_benchmark.rs. Its encoders are in Benchmark itself, its arguments in Config, the
--     batches of its threads in Batches, one step of one thread at a time, over a queue that can lose messages.
--   Examples: the theorems at concrete inputs.
--
-- Choices. A `String` is its UTF-8 bytes; a `usize` has 64 bits; a `HashMap` is a list of entries, and what
-- is proved for every such list is proved for every order of iteration; the maps of a run that starts empty
-- list their entries in the order of insertion, and what rests on that says so. The hash function of the
-- standard library is a parameter, of which nothing is assumed. A channel keeps the order of what is sent to
-- it. The loops over a body of a packet run on the length of the body as fuel, and the inner loop of the
-- reader on the length of the buffer, and one: each turn takes at least one byte. So does a turn of the
-- client's receive loop. The socket of the client is what the peer sends before the connection closes, which
-- writes fail, and which calls of `println!`; the process id is a parameter. So are the room that a vector
-- of channels gets, and which threads start. An argument of a program may be no Unicode, and is then a
-- panic.
--
-- Not modelled: the sockets, the start of threads and their joining, the texts of errors, the log and that a
-- failing write of it panics, the listener of the server (src/main.rs), and the barrier and the clock of the
-- benchmark (src/bin/shard_benchmark.rs). The pushes of a shard are a list; what a queue makes of them is in
-- Queue.
pub mod Common
pub mod Outcome
pub mod Slice
pub mod Env
pub mod Error
pub mod Protocol
pub mod Queue
pub mod HashMap
pub mod Benchmark
pub mod Broker
pub mod Connection
pub mod Client
pub mod Main
pub mod Examples
