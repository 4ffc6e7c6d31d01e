-- ===== src/Protocol.antt =====
-- src/protocol.rs: the MQTT 3.1.1 wire format. A `u8` is a number below 256, and a byte slice a list
-- of them. A `String` is the list of its UTF-8 bytes.
pub mod RemainingLength
pub mod Packet
pub mod Utf8
pub mod Topic
pub mod Encode
pub mod Decode
pub mod WellFormed
pub mod Settles
pub mod Stream
pub mod RoundTrip
