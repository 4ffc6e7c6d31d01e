-- ===== src/Examples/Sessions.antt =====
-- Sessions of the client of src/bin/blitzclient.rs.
use blitz_broker.Common.{
  append-nil, ℕ, ◌≤◌, ◌≡◌, refl, true, false, none, some, List, [], ◌∷◌, ◌++◌, map, arith, nat_eq,
  list_eq,
}
use blitz_broker.Outcome.{ok, err}
use blitz_broker.Protocol.Packet.{Str, PublishPacket, publish, connect, ping_req, disconnect}
use blitz_broker.Protocol.Encode.{encode}
use blitz_broker.Connection.{reader_loop, tear_down, Effect, writer_loop}
use blitz_broker.Connection.Reader.Packets.{IsSent, wire, dispatch_each}
use blitz_broker.Connection.Reader.Leaves.{reader_leaves}
use blitz_broker.Client.Decode.{unexpected_packet}
use blitz_broker.Client.Understood.{publish_packet, connect_packet}
use blitz_broker.Client.Socket.{Socket}
use blitz_broker.Client.Sessions.{
  linked, replies, answers_to, pub_packets, pub_bytes, accepts, pub_id,
}
use blitz_broker.Client.Listening.{
  IsDelivered, sub_packets, sub_bytes, run_sub_session, run_sub_early,
}
use blitz_broker.Client.Starts.{pub_line, sub_line, main_publishes, main_prints}
use blitz_broker.Client.Ends.Running.{main_exits}
use blitz_broker.Client.Run
use blitz_broker.Client.Lossy.{from_utf8_lossy, replacement}
use blitz_broker.Protocol.Topic.Matching.{topic_matches_itself}
use blitz_broker.Broker.{
  OutboundEvent, packet_event, run_broker, new_shard, register_client, publish_from,
  disconnect_client,
}
use blitz_broker.Client.Journey.{asked, published_is_printed}
use blitz_broker.Connection.Answers.{answers, requests}
use blitz_broker.Client.Conversation.{run_pub_converses}
use blitz_broker.Client.Args
use blitz_broker.Client.Args.{exit_code}

abbrev topic : Str
topic = b'a' ∷ b'/' ∷ b'b' ∷ []

abbrev message : Str
message = b'2' ∷ b'1' ∷ []

abbrev process : Str
process = b'7' ∷ []

abbrev sent : List ℕ
sent = pub_bytes process topic message 1

abbrev reading : PublishPacket
reading = record { topic = topic; payload = 0xff ∷ []; qos = 0; retain = true; packet_id = none }

connect-IsSent : IsSent (connect (connect_packet (Run.client_id_of process) 60))
unfolding Run.client_id_of blitz_broker.Protocol.Utf8.is_utf8 blitz_broker.Protocol.Utf8.utf8_run
    blitz_broker.Protocol.Utf8.utf8_step blitz_broker.Protocol.Utf8.encode_utf8_string
    blitz_broker.Slice.u16_to_be_bytes blitz_broker.Protocol.Encode.connect_body
connect-IsSent = record {
  from_client = (refl, refl, omega arith, (refl, omega arith));
  not_last = refl;
  small = omega arith;
}

publish-IsSent : IsSent (publish (publish_packet topic message 1 (some 1)))
unfolding blitz_broker.Protocol.Utf8.is_utf8 blitz_broker.Protocol.Utf8.utf8_run
    blitz_broker.Protocol.Utf8.utf8_step blitz_broker.Protocol.Utf8.encode_utf8_string
    blitz_broker.Slice.u16_to_be_bytes
publish-IsSent = record {
  from_client = (
    (refl, omega arith),
    (λ h. cc),
    refl,
    refl,
    (refl, omega arith, omega arith),
    (omega arith, (omega arith, tt)),
  );
  not_last = refl;
  small = omega arith;
}

reading-IsDelivered : IsDelivered reading
unfolding blitz_broker.Protocol.Utf8.is_utf8 blitz_broker.Protocol.Utf8.utf8_run
    blitz_broker.Protocol.Utf8.utf8_step blitz_broker.Protocol.Utf8.encode_utf8_string
    blitz_broker.Slice.u16_to_be_bytes
reading-IsDelivered =
    (((refl, omega arith), (λ h. cc), refl, refl, refl, (omega arith, tt)), omega arith)

reader_leaves_example :
    reader_loop 1 10 [] ((wire (ping_req ∷ []) ++ (encode disconnect ++ (7 ∷ []))) ∷ [])
    ≡ ok (dispatch_each 1 10 (ping_req ∷ []) ++ tear_down 1)
reader_leaves_example =
    reader_leaves 1 10 (ping_req ∷ []) (7 ∷ [])
      ((record { from_client = tt; not_last = refl; small = omega arith }), tt) (omega arith, tt)

run_sub_session_example :
    Run.run_sub process topic (
      linked (replies (answers_to (sub_packets process topic) ++ map publish (reading ∷ []))) [] [])
    ≡ (linked [] (sub_bytes process topic) ((topic, 0xef ∷ 0xbf ∷ 0xbd ∷ []) ∷ []), ok tt)
unfolding blitz_broker.Client.Lossy.from_utf8_lossy blitz_broker.Client.Lossy.lossy
    blitz_broker.Client.Lossy.lossy_step blitz_broker.Protocol.Utf8.utf8_step
run_sub_session_example = run_sub_session process topic (reading ∷ []) (reading-IsDelivered, tt)

run_sub_early_example :
    Run.run_sub process topic (linked (replies (accepts ∷ publish reading ∷ [])) [] [])
    ≡ (linked (replies []) (sub_bytes process topic) [], err (unexpected_packet 9 3))
run_sub_early_example = run_sub_early process topic reading [] reading-IsDelivered

main_publishes_example :
    Args.main process
      (map some (pub_line topic (b'8' ∷ b'0' ∷ []) topic message (b'1' ∷ [])))
      (linked (replies (answers_to (pub_packets process topic message 1))) [] [])
    ≡ (linked [] sent [], exit_code 0)
unfolding blitz_broker.Main.parse_unsigned blitz_broker.Main.parse_digits
main_publishes_example =
    main_publishes process topic (b'8' ∷ b'0' ∷ []) topic message (b'1' ∷ []) 80 1 refl refl
      (omega arith)

main_prints_example :
    Args.main process (map some (sub_line topic (b'8' ∷ b'0' ∷ []) topic)) (
      linked (replies (answers_to (sub_packets process topic) ++ map publish (reading ∷ []))) [] [])
    ≡ (linked [] (sub_bytes process topic) ((topic, 0xef ∷ 0xbf ∷ 0xbd ∷ []) ∷ []), exit_code 0)
unfolding blitz_broker.Main.parse_unsigned blitz_broker.Main.parse_digits
    blitz_broker.Client.Lossy.from_utf8_lossy blitz_broker.Client.Lossy.lossy
    blitz_broker.Client.Lossy.lossy_step blitz_broker.Protocol.Utf8.utf8_step
main_prints_example =
    main_prints process topic (b'8' ∷ b'0' ∷ []) topic 80 (reading ∷ []) refl
      (reading-IsDelivered, tt)

-- What is no text gives way to U+FFFD: once for a character cut off, once for each byte that begins none.
lossy_cuts :
    from_utf8_lossy (0xe2 ∷ 0x82 ∷ 0x41 ∷ 0xf0 ∷ 0x80 ∷ 0xc3 ∷ [])
    ≡ replacement ++ (0x41 ∷ (replacement ++ (replacement ++ replacement)))
unfolding blitz_broker.Client.Lossy.from_utf8_lossy blitz_broker.Client.Lossy.lossy
    blitz_broker.Client.Lossy.lossy_step blitz_broker.Protocol.Utf8.utf8_step
lossy_cuts = refl

abbrev garbage : Socket
garbage = record {
  is_reachable = true;
  incoming = 32 ∷ 255 ∷ 3 ∷ [];
  failures = false ∷ true ∷ [];
  written = [];
  print_failures = false ∷ [];
  printed = [];
}

main_exits_example :
    (code : ℕ) × (code ≤ 1)
    × ((Args.main process (map some (sub_line topic (b'8' ∷ b'0' ∷ []) topic)) garbage).1
        ≡ exit_code code)
main_exits_example =
    main_exits process (sub_line topic (b'8' ∷ b'0' ∷ []) topic) garbage
      (omega arith, (omega arith, (omega arith, tt))) (refl, tt)

run_pub_converses_example :
    (effects : List Effect) × (reader_loop 1 10 [] (sent ∷ []) ≡ ok effects)
    × (requests effects
        ≡ register_client 1 (Run.client_id_of process) 10
          ∷ publish_from 1 (publish_packet topic message 1 (pub_id 1))
          ∷ disconnect_client 1
          ∷ [])
    × (Run.run_pub process topic message 1 (linked (replies (answers effects)) [] [])
        ≡ (linked [] sent [], ok tt))
run_pub_converses_example =
    run_pub_converses 1 10 process topic message 1 sent [] (omega arith)
      (connect-IsSent, (publish-IsSent, tt)) (append-nil sent)

message-IsDelivered : IsDelivered (publish_packet topic message 1 (pub_id 1))
unfolding blitz_broker.Protocol.Utf8.is_utf8 blitz_broker.Protocol.Utf8.utf8_run
    blitz_broker.Protocol.Utf8.utf8_step blitz_broker.Protocol.Utf8.encode_utf8_string
    blitz_broker.Slice.u16_to_be_bytes
message-IsDelivered = (
  (
    (refl, omega arith),
    (λ h. cc),
    refl,
    refl,
    (refl, omega arith, omega arith),
    (omega arith, (omega arith, tt)),
  ),
  omega arith,
)

published_is_printed_example :
    (events : List OutboundEvent) × ((run_broker
        (asked 1 2 10 20 process process topic topic message 1)
        new_shard).1
      ≡ map (λ event. (10, event)) events)
    × (Run.run_sub process topic (
          linked
            (writer_loop (map packet_event (answers_to (sub_packets process topic)) ++ events))
            []
            [])
        ≡ (linked [] (sub_bytes process topic) ((topic, message) ∷ []), ok tt))
unfolding blitz_broker.Protocol.Utf8.is_utf8
published_is_printed_example =
    published_is_printed 1 2 10 20 process process topic topic message 1 refl message-IsDelivered
      refl (topic_matches_itself topic)
