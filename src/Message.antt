-- ===== src/Message.antt =====
-- internal/mqttc/types.go: the messages, the subscriptions and the status of a connection.
-- A `time.Time` is the number of nanoseconds since Go's zero time, so that `After` is `<`.
use mqttview.Common.{ℕ, Bool, false, Option, none, List, [], Bytes}

abbrev pub Time : Type 0
Time = ℕ

-- A nil pointer is `none`, a map an association list, a byte or a counter a number.
pub record MessageProps : Type 0 where
  pub content_type : Bytes
  pub response_topic : Bytes
  pub correlation_data : Bytes
  pub payload_format : Option ℕ
  pub message_expiry : Option ℕ
  pub user : List (Bytes × Bytes)

pub record Message : Type 0 where
  pub connection_id : Bytes
  pub topic : Bytes
  pub payload : Bytes
  pub qos : ℕ
  pub retain : Bool
  pub duplicate : Bool
  pub received_at : Time
  pub seq : ℕ
  pub truncated : Bool
  pub props : Option MessageProps

-- The zero value, which fills an unused slot of a ring.
abbrev pub zero_message : Message
zero_message = record {
  connection_id = [];
  topic = [];
  payload = [];
  qos = 0;
  retain = false;
  duplicate = false;
  received_at = 0;
  seq = 0;
  truncated = false;
  props = none;
}
