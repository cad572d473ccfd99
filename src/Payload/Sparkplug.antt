-- ===== src/Payload/Sparkplug.antt =====
-- internal/payload/sparkplug.go: topics of the Sparkplug namespace and the decoding of payloads.
-- Floats and dates are printed by the standard library, from their bits and from milliseconds.
pub mod Render
pub mod Decode
pub mod Total
pub mod Reading
pub mod Signed
use mqttview.Common.{
  ℕ, zero, suc, ◌+◌, ◌-◌, ◌*◌, ◌^◌, ◌%◌, Bool, true, false, not, ◌&&◌, ◌||◌, Option, none, some,
  List, [], ◌∷◌, ◌++◌, Bytes, codes, has_prefix, drop_prefix, split, ℤ, pos, negsuc, get_elem?,
  length, ltb, leb, ◌==◌, if◌then◌else◌,
}
use mqttview.Common.Decimal.{format_uint, format_int}
use mqttview.Topic.{slash, is_empty}
use mqttview.Payload.Reader.{
  PayloadError, Read, ok, err, Reader, ◌>>=◌, give, wire_varint, wire_i64, wire_bytes, wire_i32,
  tag, varint, fixed32, fixed64, read_bytes, skip,
}

abbrev pub sparkplug_topic_prefix : Bytes
sparkplug_topic_prefix = codes "spBv1.0/"

pub record SparkplugTopic : Type 0 where
  pub group : Bytes
  pub message_type : Bytes
  pub edge_node : Bytes
  pub device : Bytes

unfoldable pub topic_of_parts : List Bytes → Option SparkplugTopic
topic_of_parts (group ∷ message_type ∷ edge_node ∷ []) =
    if is_empty group || is_empty message_type || is_empty edge_node
    then none
    else some
        (record { group = group; message_type = message_type; edge_node = edge_node; device = [] })
topic_of_parts (group ∷ message_type ∷ edge_node ∷ device ∷ []) =
    if is_empty group || is_empty message_type || is_empty edge_node
    then none
    else some (record {
      group = group;
      message_type = message_type;
      edge_node = edge_node;
      device = device;
    })
topic_of_parts _ = none

-- `none` where the bool is false.
unfoldable pub parse_sparkplug_topic : Bytes → Option SparkplugTopic
unfolding topic_of_parts
parse_sparkplug_topic topic =
    if has_prefix topic sparkplug_topic_prefix
    then topic_of_parts (split slash (drop_prefix topic sparkplug_topic_prefix))
    else none

unfoldable pub looks_like_sparkplug : Bytes → Bool
unfolding parse_sparkplug_topic
looks_like_sparkplug topic = elim (parse_sparkplug_topic topic) [ none ↦ false | some _ ↦ true ]

-- The names of the data types, by their indices.
abbrev pub data_type_names : List Bytes
data_type_names =
    codes "Unknown"
    ∷ codes "Int8"
    ∷ codes "Int16"
    ∷ codes "Int32"
    ∷ codes "Int64"
    ∷ codes "UInt8"
    ∷ codes "UInt16"
    ∷ codes "UInt32"
    ∷ codes "UInt64"
    ∷ codes "Float"
    ∷ codes "Double"
    ∷ codes "Boolean"
    ∷ codes "String"
    ∷ codes "DateTime"
    ∷ codes "Text"
    ∷ codes "UUID"
    ∷ codes "DataSet"
    ∷ codes "Bytes"
    ∷ codes "File"
    ∷ codes "Template"
    ∷ codes "PropertySet"
    ∷ codes "PropertySetList"
    ∷ codes "Int8Array"
    ∷ codes "Int16Array"
    ∷ codes "Int32Array"
    ∷ codes "Int64Array"
    ∷ codes "UInt8Array"
    ∷ codes "UInt16Array"
    ∷ codes "UInt32Array"
    ∷ codes "UInt64Array"
    ∷ codes "FloatArray"
    ∷ codes "DoubleArray"
    ∷ codes "BooleanArray"
    ∷ codes "StringArray"
    ∷ codes "DateTimeArray"
    ∷ []

unfoldable pub data_type_name : ℕ → Bytes
unfolding format_uint
data_type_name datatype = elim (get_elem? data_type_names datatype) [
  | some name ↦ name
  | none ↦ codes "datatype " ++ format_uint datatype
]

-- Milliseconds since 1970.
unfoldable pub millis : ℕ → ℕ
millis v = if ltb (2 ^ 53) v then 0 else v

unfoldable pub byte_count : ℕ → Bytes
unfolding format_uint
byte_count n = if n == 1 then codes "1 byte" else format_uint n ++ codes " bytes"

pub record SparkplugMetric : Type 0 where
  pub name : Bytes
  pub alias : ℕ
  pub has_alias : Bool
  pub data_type : Bytes
  pub value : Bytes
  pub note : Bytes
  pub is_null : Bool
  pub is_historical : Bool
  pub is_transient : Bool
  pub timestamp : Option ℕ

-- The arm of the oneof that arrived, by its field number; the other arms hold their zero value.
pub record MetricValue : Type 0 where
  pub kind : ℕ
  pub u32 : ℕ
  pub u64 : ℕ
  pub f32 : ℕ
  pub f64 : ℕ
  pub str : Bytes
  pub blob : Bytes
  pub nested : Bytes

abbrev pub zero_value : MetricValue
zero_value = record {
  kind = 0;
  u32 = 0;
  u64 = 0;
  f32 = 0;
  f64 = 0;
  str = [];
  blob = [];
  nested = [];
}

-- The integer that a `w`-bit two's complement number stands for, of the lowest `w` bits.
unfoldable pub signed_bits : ℕ → ℕ → ℤ
signed_bits w n =
    let low = n % 2 ^ w in if ltb low (2 ^ (w - 1)) then pos low else negsuc (2 ^ w - low - 1)

unfoldable pub format_bool : Bool → Bytes
format_bool true = codes "true"
format_bool false = codes "false"

unfoldable pub unknown_type_note : ℕ → Bytes
unfolding format_uint
unknown_type_note datatype =
    codes "datatype " ++ (format_uint datatype ++ codes " is not one this build knows")

-- What strconv and time print.
pub record Formats : Type 0 where
  pub float32 : ℕ → Bytes
  pub float64 : ℕ → Bytes
  pub date_time : ℕ → Bytes
