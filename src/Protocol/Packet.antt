-- ===== src/Protocol/Packet.antt =====
-- The packet types of src/protocol.rs.
use blitz_broker.Common.{ℕ, Bool, Option, List, nat_eq, list_eq}

-- A `String` or `&str`, as its UTF-8 bytes.
abbrev pub Str : Type 0
Str = List ℕ

pub record ConnectPacket : Type 0 where
  pub protocol_name : Str
  pub protocol_level : ℕ
  pub clean_session : Bool
  pub keep_alive_secs : ℕ
  pub client_id : Str

pub data ConnectReturnCode : Type 0 where
  accepted unacceptable_protocol_version identifier_rejected server_unavailable : ConnectReturnCode
  bad_username_or_password not_authorized : ConnectReturnCode

-- `return_code as u8`
unfoldable pub return_code_byte : ConnectReturnCode → ℕ
return_code_byte accepted = 0
return_code_byte unacceptable_protocol_version = 1
return_code_byte identifier_rejected = 2
return_code_byte server_unavailable = 3
return_code_byte bad_username_or_password = 4
return_code_byte not_authorized = 5

pub record ConnAckPacket : Type 0 where
  pub session_present : Bool
  pub return_code : ConnectReturnCode

pub record SubscribePacket : Type 0 where
  pub packet_id : ℕ
  pub subscriptions : List (Str × ℕ)

pub record SubAckPacket : Type 0 where
  pub packet_id : ℕ
  pub return_codes : List ℕ

pub record UnsubscribePacket : Type 0 where
  pub packet_id : ℕ
  pub topic_filters : List Str

pub record UnsubAckPacket : Type 0 where
  pub packet_id : ℕ

pub record PublishPacket : Type 0 where
  pub topic : Str
  pub payload : List ℕ
  pub qos : ℕ
  pub retain : Bool
  pub packet_id : Option ℕ

pub record PubAckPacket : Type 0 where
  pub packet_id : ℕ

pub data MqttPacket : Type 0 where
  connect : ConnectPacket → MqttPacket
  conn_ack : ConnAckPacket → MqttPacket
  subscribe : SubscribePacket → MqttPacket
  sub_ack : SubAckPacket → MqttPacket
  unsubscribe : UnsubscribePacket → MqttPacket
  unsub_ack : UnsubAckPacket → MqttPacket
  publish : PublishPacket → MqttPacket
  pub_ack : PubAckPacket → MqttPacket
  ping_req ping_resp disconnect : MqttPacket

abbrev pub pt_connect : ℕ
pt_connect = 1

abbrev pub pt_connack : ℕ
pt_connack = 2

abbrev pub pt_publish : ℕ
pt_publish = 3

abbrev pub pt_puback : ℕ
pt_puback = 4

abbrev pub pt_subscribe : ℕ
pt_subscribe = 8

abbrev pub pt_suback : ℕ
pt_suback = 9

abbrev pub pt_unsubscribe : ℕ
pt_unsubscribe = 10

abbrev pub pt_unsuback : ℕ
pt_unsuback = 11

abbrev pub pt_pingreq : ℕ
pt_pingreq = 12

abbrev pub pt_pingresp : ℕ
pt_pingresp = 13

abbrev pub pt_disconnect : ℕ
pt_disconnect = 14
