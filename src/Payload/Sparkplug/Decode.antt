-- ===== src/Payload/Sparkplug/Decode.antt =====
-- internal/payload/sparkplug.go: decodeMetric and DecodeSparkplug.
use mqttview.Common.{
  ℕ, ◌^◌, ◌%◌, true, false, not, ◌&&◌, Option, none, some, List, [], ◌∷◌, ◌++◌, Bytes, codes,
  length, ◌==◌, if◌then◌else◌,
}
use mqttview.Payload.Reader.{
  PayloadError, Reader, ◌>>=◌, give, fail, wire_varint, wire_i64, wire_bytes, wire_i32, varint,
  fixed32, fixed64, read_bytes, skip, read_fields,
}
use mqttview.Payload.Sparkplug.{
  data_type_name, millis, byte_count, SparkplugMetric, MetricValue, zero_value, Formats,
}
use mqttview.Payload.Sparkplug.Render.{
  payload_timestamp, payload_metrics, payload_seq, payload_uuid, payload_body, metric_name,
  metric_alias, metric_timestamp, metric_datatype, metric_is_historical, metric_is_transient,
  metric_is_null, metric_int, metric_long, metric_float, metric_double, metric_bool, metric_string,
  metric_bytes, metric_data_set, metric_template, render_value,
}

-- The variables of `decodeMetric`; no value is `hasVal` false.
pub record MetricState : Type 0 where
  pub metric : SparkplugMetric
  pub datatype : ℕ
  pub value : Option MetricValue

abbrev pub new_metric : MetricState
new_metric = record {
  metric = record {
    name = [];
    alias = 0;
    has_alias = false;
    data_type = [];
    value = [];
    note = [];
    is_null = false;
    is_historical = false;
    is_transient = false;
    timestamp = none;
  };
  datatype = 0;
  value = none;
}

unfoldable pub metric_field : ℕ → ℕ → MetricState → Reader MetricState
unfolding varint fixed32 fixed64 read_bytes skip millis byte_count
metric_field field wire s =
    let m = s.metric in
    let value = λ (v : MetricValue). record s { value = some v } in
    if (field == metric_name) && (wire == wire_bytes)
    then read_bytes >>= (λ b. give (record s { metric = record m { name = b } }))
    else if (field == metric_alias) && (wire == wire_varint)
    then varint >>= (λ v. give (record s { metric = record m { alias = v; has_alias = true } }))
    else if (field == metric_timestamp) && (wire == wire_varint)
    then varint >>= (λ v. give (record s { metric = record m { timestamp = some (millis v) } }))
    else if (field == metric_datatype) && (wire == wire_varint)
    then varint >>= (λ v. give (record s { datatype = v % 2 ^ 32 }))
    else if (field == metric_is_historical) && (wire == wire_varint)
    then varint >>= (λ v. give (record s { metric = record m { is_historical = not (v == 0) } }))
    else if (field == metric_is_transient) && (wire == wire_varint)
    then varint >>= (λ v. give (record s { metric = record m { is_transient = not (v == 0) } }))
    else if (field == metric_is_null) && (wire == wire_varint)
    then varint >>= (λ v. give (record s { metric = record m { is_null = not (v == 0) } }))
    else if (field == metric_int) && (wire == wire_varint)
    then varint >>= (λ v. give (value (record zero_value { kind = metric_int; u32 = v % 2 ^ 32 })))
    else if (field == metric_long) && (wire == wire_varint)
    then varint >>= (λ v. give (value (record zero_value { kind = metric_long; u64 = v })))
    else if (field == metric_float) && (wire == wire_i32)
    then fixed32 >>= (λ v. give (value (record zero_value { kind = metric_float; f32 = v })))
    else if (field == metric_double) && (wire == wire_i64)
    then fixed64 >>= (λ v. give (value (record zero_value { kind = metric_double; f64 = v })))
    else if (field == metric_bool) && (wire == wire_varint)
    then varint >>= (λ v. give (value (record zero_value { kind = metric_bool; u64 = v })))
    else if (field == metric_string) && (wire == wire_bytes)
    then read_bytes >>= (λ b. give (value (record zero_value { kind = metric_string; str = b })))
    else if (field == metric_bytes) && (wire == wire_bytes)
    then read_bytes >>= (λ b. give (value (record zero_value { kind = metric_bytes; blob = b })))
    else if (field == metric_data_set) && (wire == wire_bytes)
    then read_bytes >>= (λ b.
      give (value (record zero_value { kind = metric_data_set; nested = byte_count (length b) })))
    else if (field == metric_template) && (wire == wire_bytes)
    then read_bytes >>= (λ b.
      give (value (record zero_value { kind = metric_template; nested = byte_count (length b) })))
    else skip wire >>= (λ _. give s)

-- What `decodeMetric` does after its loop.
unfoldable pub finish_metric : Formats → MetricState → SparkplugMetric
unfolding render_value data_type_name
finish_metric formats s =
    let m = record s.metric { data_type = data_type_name s.datatype } in
    if m.is_null then record m { note = codes "null" } else elim s.value [
      | none ↦ record m { note = codes "no value in this message" }
      | some v ↦
          let (value, note) = render_value formats s.datatype v in
          record m { value = value; note = note }
    ]

unfoldable pub finished :
    Formats → MetricState × Option PayloadError → SparkplugMetric × Option PayloadError
unfolding finish_metric
finished formats (s, none) = (finish_metric formats s, none)
finished formats (s, some e) = (s.metric, some e)

unfoldable pub decode_metric : Formats → Bytes → SparkplugMetric × Option PayloadError
unfolding metric_field finished read_fields
decode_metric formats raw = finished formats (read_fields metric_field (length raw) new_metric raw)

-- A nil slice of metrics is the empty list.
pub record SparkplugPayload : Type 0 where
  pub timestamp : Option ℕ
  pub seq : Option ℕ
  pub uuid : Bytes
  pub metrics : List SparkplugMetric
  pub body_bytes : ℕ

abbrev pub empty_payload : SparkplugPayload
empty_payload = record { timestamp = none; seq = none; uuid = []; metrics = []; body_bytes = 0 }

-- `out.Metrics = append(out.Metrics, m)`, unless the metric did not decode.
unfoldable pub add_metric :
    SparkplugPayload → SparkplugMetric × Option PayloadError → Reader SparkplugPayload
add_metric out (m, none) = give (record out { metrics = out.metrics ++ m ∷ [] })
add_metric out (m, some e) = fail e

unfoldable pub payload_field : Formats → ℕ → ℕ → SparkplugPayload → Reader SparkplugPayload
unfolding varint read_bytes skip millis decode_metric add_metric
payload_field formats field wire out =
    if (field == payload_timestamp) && (wire == wire_varint)
    then varint >>= (λ v. give (record out { timestamp = some (millis v) }))
    else if (field == payload_metrics) && (wire == wire_bytes)
    then read_bytes >>= (λ b. add_metric out (decode_metric formats b))
    else if (field == payload_seq) && (wire == wire_varint)
    then varint >>= (λ v. give (record out { seq = some v }))
    else if (field == payload_uuid) && (wire == wire_bytes)
    then read_bytes >>= (λ b. give (record out { uuid = b }))
    else if (field == payload_body) && (wire == wire_bytes)
    then read_bytes >>= (λ b. give (record out { body_bytes = length b }))
    else skip wire >>= (λ _. give out)

-- What was decoded, also where an error ended it, and the error.
unfoldable pub decode_sparkplug : Formats → Bytes → SparkplugPayload × Option PayloadError
unfolding payload_field read_fields
decode_sparkplug formats raw = read_fields (payload_field formats) (length raw) empty_payload raw
