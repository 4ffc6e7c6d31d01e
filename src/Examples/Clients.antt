-- ===== src/Examples/Clients.antt =====
-- Packets of the client of src/bin/blitzclient.rs, read by the broker.
use blitz_broker.Common.{true, some, ◌≡◌, refl, none, [], ◌∷◌, ◌++◌, arith, length, nat_eq, list_eq}
use blitz_broker.Outcome.{ok}
use blitz_broker.Protocol.Packet.{PublishPacket, Str, connect, subscribe, publish}
use blitz_broker.Protocol.Decode.{decode}
use blitz_broker.Client.{encode_connect, encode_subscribe, encode_publish}
use blitz_broker.Slice.{u16_to_be_bytes}
use blitz_broker.Protocol.Encode.{publish_flags}
use blitz_broker.Client.Understood.{
  connect_packet, subscribe_packet, publish_packet, broker_reads_publish, broker_reads_subscribe,
  broker_reads_connect,
}

abbrev topic : Str
topic = b'a' ∷ b'/' ∷ b'b' ∷ []

broker_reads_publish_example :
    decode (encode_publish topic (21 ∷ []) 1 none ++ [])
    ≡ ok (
      publish (publish_packet topic (21 ∷ []) 1 none),
      length (encode_publish topic (21 ∷ []) 1 none),
    )
unfolding blitz_broker.Protocol.Utf8.is_utf8 blitz_broker.Protocol.Utf8.utf8_run
    blitz_broker.Protocol.Utf8.utf8_step blitz_broker.Protocol.Utf8.encode_utf8_string
    blitz_broker.Slice.u16_to_be_bytes
broker_reads_publish_example =
    broker_reads_publish topic (21 ∷ []) 1 none []
      (
        (refl, omega arith),
        (λ h. cc),
        refl,
        refl,
        (refl, omega arith, omega arith),
        (omega arith, tt),
      )
      (omega arith) tt

broker_reads_subscribe_example :
    decode (encode_subscribe 7 topic 1 ++ [])
    ≡ ok (subscribe (subscribe_packet 7 topic 1), length (encode_subscribe 7 topic 1))
unfolding blitz_broker.Protocol.Utf8.is_utf8 blitz_broker.Protocol.Utf8.utf8_run
    blitz_broker.Protocol.Utf8.utf8_step blitz_broker.Protocol.Utf8.encode_utf8_string
    blitz_broker.Slice.u16_to_be_bytes blitz_broker.Protocol.Topic.validate_topic_filter
    blitz_broker.Protocol.Topic.validate_levels blitz_broker.Protocol.Topic.split
    blitz_broker.Protocol.Encode.push_subscriptions
broker_reads_subscribe_example =
    broker_reads_subscribe 7 topic 1 [] (omega arith)
      (omega arith, omega arith, ((((refl, omega arith), refl), omega arith), tt)) (omega arith) tt

broker_reads_connect_example :
    decode (encode_connect topic 60 ++ [])
    ≡ ok (connect (connect_packet topic 60), length (encode_connect topic 60))
unfolding blitz_broker.Protocol.Utf8.is_utf8 blitz_broker.Protocol.Utf8.utf8_run
    blitz_broker.Protocol.Utf8.utf8_step blitz_broker.Protocol.Utf8.encode_utf8_string
    blitz_broker.Slice.u16_to_be_bytes blitz_broker.Protocol.Encode.connect_body
broker_reads_connect_example =
    broker_reads_connect topic 60 [] (refl, refl, omega arith, (refl, omega arith)) (omega arith) tt

abbrev reading : PublishPacket
reading = record { topic = topic; payload = 21 ∷ []; qos = 1; retain = true; packet_id = some 7 }
