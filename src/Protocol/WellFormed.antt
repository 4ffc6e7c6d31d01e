-- ===== src/Protocol/WellFormed.antt =====
-- What a packet that `decode` of src/protocol.rs returns is promised to be.
use blitz_broker.Common.{
  IsByte, String, ℕ, ◌≤◌, ◌<◌, ◌≡◌, ◌≢◌, true, false, Option, none, some, [], length, All, nat_eq,
  contains, list_eq,
}
use blitz_broker.Outcome.{ok, err, Returns, returns_err}
use blitz_broker.Error.{ProtocolError, incomplete, malformed_payload, unsupported_feature}
use blitz_broker.Protocol.Utf8.{is_utf8}
use blitz_broker.Protocol.Topic.{validate_topic_filter, plus, hash}
use blitz_broker.Protocol.Decode.{mqtt}
use blitz_broker.Protocol.Packet.{
  Str, ConnectPacket, SubscribePacket, UnsubscribePacket, PublishPacket, PubAckPacket, MqttPacket,
  connect, subscribe, unsubscribe, publish, pub_ack, ping_req, disconnect,
}

-- An error that more input does not mend.
abbrev pub IsFatal : ProtocolError → Type 0
IsFatal e = e ≢ incomplete

-- A `u16`.
abbrev pub IsWord : ℕ → Type 0
IsWord n = n < 65536

-- UTF-8 that fits a length prefix.
abbrev pub IsText : Str → Type 0
IsText s = (is_utf8 s ≡ true) × (length s ≤ 65535)

abbrev pub IsFilter : Str → Type 0
IsFilter s = IsText s × (validate_topic_filter s ≡ ok tt)

abbrev pub IsSubscription : Str × ℕ → Type 0
IsSubscription (topic, qos) = IsFilter topic × (qos ≤ 2)

-- A packet identifier goes with QoS 1, and is not 0.
abbrev pub HasIdFor : ℕ → Option ℕ → Type 0
HasIdFor qos none = qos ≡ 0
HasIdFor qos (some id) = (qos ≡ 1) × (0 < id) × IsWord id

abbrev pub IsConnect : ConnectPacket → Type 0
IsConnect p =
    (p.protocol_name ≡ mqtt)
    × (p.protocol_level ≡ 4)
    × IsWord p.keep_alive_secs
    × IsText p.client_id

abbrev pub IsSubscribe : SubscribePacket → Type 0
IsSubscribe p =
    IsWord p.packet_id × (0 < length p.subscriptions) × All IsSubscription p.subscriptions

abbrev pub IsUnsubscribe : UnsubscribePacket → Type 0
IsUnsubscribe p = IsWord p.packet_id × (0 < length p.topic_filters) × All IsFilter p.topic_filters

abbrev pub IsPublish : PublishPacket → Type 0
IsPublish p =
    IsText p.topic
    × (p.topic ≢ [])
    × (contains p.topic plus ≡ false)
    × (contains p.topic hash ≡ false)
    × HasIdFor p.qos p.packet_id
    × All IsByte p.payload

abbrev pub IsPubAck : PubAckPacket → Type 0
IsPubAck p = (0 < p.packet_id) × IsWord p.packet_id

-- A packet that a client may send.
abbrev pub IsFromClient : MqttPacket → Type 0
IsFromClient (connect p) = IsConnect p
IsFromClient (subscribe p) = IsSubscribe p
IsFromClient (unsubscribe p) = IsUnsubscribe p
IsFromClient (publish p) = IsPublish p
IsFromClient (pub_ack p) = IsPubAck p
IsFromClient ping_req = Unit
IsFromClient disconnect = Unit
IsFromClient _ = ⊥

pub malformed-IsFatal : (s : String) → IsFatal (malformed_payload s)
malformed-IsFatal s e = cc

pub unsupported-IsFatal : (s : String) → IsFatal (unsupported_feature s)
unsupported-IsFatal s e = cc

pub malformed-Returns {κ ι} :
    {A : Type κ} {P : A → Type ι} (s : String) → Returns P IsFatal (err (malformed_payload s))
malformed-Returns s = returns_err (malformed-IsFatal s)
