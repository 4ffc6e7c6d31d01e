-- ===== src/Examples/Connections.antt =====
-- The reader of src/connection.rs on the bytes of a PINGREQ and of a DISCONNECT.
use blitz_broker.Common.{
  refl, some, false, ℕ, ◌≡◌, List, [], ◌∷◌, ◌++◌, arith, All, IsByte, nat_eq, list_eq,
}
use blitz_broker.Outcome.{ok}
use blitz_broker.Connection.{dispatch_packet, Effect, tear_down, reader_loop}
use blitz_broker.Protocol.Packet.{ping_req, PublishPacket, publish}
use blitz_broker.Connection.Reader.Packets.{IsSent, wire, dispatch_each, reader_dispatches}
use blitz_broker.Connection.Answers.{
  answers, requests, answer_to, asked_by, stays_open, dispatch_answers,
}
use blitz_broker.Connection.Reader.Chunks.{IsMiddle, reader_ends, reader_chunks}

abbrev pieces : List (List ℕ)
pieces = (0xC0 ∷ []) ∷ (0x00 ∷ 0xE0 ∷ []) ∷ (0x00 ∷ []) ∷ []

pieces-IsByte : All (All IsByte) pieces
pieces-IsByte = ((omega arith, tt), ((omega arith, (omega arith, tt)), ((omega arith, tt), tt)))

reader_ends_example :
    (front : List Effect) × (reader_loop 1 10 [] pieces ≡ ok (front ++ tear_down 1))
    × All IsMiddle front
reader_ends_example = reader_ends 1 10 pieces [] tt pieces-IsByte

reader_chunks_example :
    reader_loop 1 10 [] pieces ≡ reader_loop 1 10 [] ((0xC0 ∷ 0x00 ∷ 0xE0 ∷ 0x00 ∷ []) ∷ [])
reader_chunks_example =
    reader_chunks 1 10 (0xC0 ∷ []) ((0x00 ∷ 0xE0 ∷ []) ∷ (0x00 ∷ []) ∷ []) [] tt pieces-IsByte

abbrev reading : PublishPacket
reading = record {
  topic = b'a' ∷ [];
  payload = 21 ∷ [];
  qos = 1;
  retain = false;
  packet_id = some 7;
}

dispatch_answers_example :
    (answers (dispatch_packet 1 10 (publish reading)).0 ≡ answer_to (publish reading))
    × (requests (dispatch_packet 1 10 (publish reading)).0 ≡ asked_by 1 10 (publish reading))
    × ((dispatch_packet 1 10 (publish reading)).1 ≡ stays_open (publish reading))
unfolding blitz_broker.Protocol.Utf8.is_utf8 blitz_broker.Protocol.Utf8.utf8_run
    blitz_broker.Protocol.Utf8.utf8_step
dispatch_answers_example = dispatch_answers 1 10 (publish reading) (
  (refl, omega arith),
  (λ h. cc),
  refl,
  refl,
  (refl, omega arith, omega arith),
  (omega arith, tt),
)

ping_req-IsSent : IsSent ping_req
ping_req-IsSent = record { from_client = tt; not_last = refl; small = omega arith }

reader_dispatches_example :
    reader_loop 1 10 [] (wire (ping_req ∷ ping_req ∷ []) ∷ [])
    ≡ ok (dispatch_each 1 10 (ping_req ∷ ping_req ∷ []) ++ tear_down 1)
reader_dispatches_example =
    reader_dispatches 1 10 (ping_req ∷ ping_req ∷ []) (ping_req-IsSent, (ping_req-IsSent, tt))
