-- ===== src/Examples.antt =====
-- The theorems at concrete inputs: packets, filters, queues, and a broker with two clients.
mod Codec
mod Topics
mod Queues
mod Brokers
mod Connections
mod Clients
mod Sessions
mod Threads
mod Benchmarks
mod Starts
