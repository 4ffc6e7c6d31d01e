-- ===== src/Error.antt =====
-- src/error.rs: why a packet is refused.
use blitz_broker.Common.{ℕ, String}

pub data ProtocolError : Type 0 where
  incomplete invalid_remaining_length : ProtocolError
  unknown_packet_type : ℕ → ProtocolError
  unsupported_feature malformed_payload : String → ProtocolError
