-- ===== src/Payload/Sparkplug/Render.antt =====
-- internal/payload/sparkplug.go: the field numbers of payloads and metrics, and renderValue.
use mqttview.Common.{
  ℕ, not, ◌||◌, Option, none, some, [], ◌++◌, Bytes, codes, length, ◌==◌, if◌then◌else◌,
}
use mqttview.Common.Decimal.{format_uint, format_int}
use mqttview.Payload.Sparkplug.{
  millis, byte_count, MetricValue, signed_bits, format_bool, unknown_type_note, Formats,
}

-- Field numbers of a payload and of a metric.
abbrev pub payload_timestamp : ℕ
payload_timestamp = 1

abbrev pub payload_metrics : ℕ
payload_metrics = 2

abbrev pub payload_seq : ℕ
payload_seq = 3

abbrev pub payload_uuid : ℕ
payload_uuid = 4

abbrev pub payload_body : ℕ
payload_body = 5

abbrev pub metric_name : ℕ
metric_name = 1

abbrev pub metric_alias : ℕ
metric_alias = 2

abbrev pub metric_timestamp : ℕ
metric_timestamp = 3

abbrev pub metric_datatype : ℕ
metric_datatype = 4

abbrev pub metric_is_historical : ℕ
metric_is_historical = 5

abbrev pub metric_is_transient : ℕ
metric_is_transient = 6

abbrev pub metric_is_null : ℕ
metric_is_null = 7

abbrev pub metric_int : ℕ
metric_int = 10

abbrev pub metric_long : ℕ
metric_long = 11

abbrev pub metric_float : ℕ
metric_float = 12

abbrev pub metric_double : ℕ
metric_double = 13

abbrev pub metric_bool : ℕ
metric_bool = 14

abbrev pub metric_string : ℕ
metric_string = 15

abbrev pub metric_bytes : ℕ
metric_bytes = 16

abbrev pub metric_data_set : ℕ
metric_data_set = 17

abbrev pub metric_template : ℕ
metric_template = 18

-- How the data type says that a value is read; `none` where its index is unknown.
unfoldable pub render_known : Formats → ℕ → MetricValue → Option (Bytes × Bytes)
unfolding signed_bits format_int format_uint format_bool millis byte_count
render_known formats datatype v =
    if datatype == 1
    then some (format_int (signed_bits 8 v.u32), [])
    else if datatype == 2
    then some (format_int (signed_bits 16 v.u32), [])
    else if datatype == 3
    then some (format_int (signed_bits 32 v.u32), [])
    else if datatype == 4
    then some (format_int (signed_bits 64 v.u64), [])
    else if (datatype == 5) || (datatype == 6) || (datatype == 7)
    then some (format_uint v.u32, [])
    else if datatype == 8
    then some (format_uint v.u64, [])
    else if datatype == 9
    then some (formats.float32 v.f32, [])
    else if datatype == 10
    then some (formats.float64 v.f64, [])
    else if datatype == 11
    then some (format_bool (not (v.u64 == 0)), [])
    else if (datatype == 12) || (datatype == 14) || (datatype == 15)
    then some (v.str, [])
    else if datatype == 13
    then some (formats.date_time (millis v.u64), [])
    else if (datatype == 17) || (datatype == 18)
    then some ([], byte_count (length v.blob) ++ codes ", not shown")
    else if datatype == 16
    then some ([], codes "a dataset (" ++ (v.nested ++ codes "), not expanded"))
    else if datatype == 19
    then some ([], codes "a template (" ++ (v.nested ++ codes "), not expanded"))
    else none

-- The value and the note.
unfoldable pub render_value : Formats → ℕ → MetricValue → Bytes × Bytes
unfolding render_known unknown_type_note
render_value formats datatype v =
    let note = unknown_type_note datatype in
    elim (render_known formats datatype v) [
      | some shown ↦ shown
      | none ↦
          if v.kind == metric_int
          then (format_uint v.u32, note)
          else if v.kind == metric_long
          then (format_uint v.u64, note)
          else if v.kind == metric_float
          then (formats.float32 v.f32, note)
          else if v.kind == metric_double
          then (formats.float64 v.f64, note)
          else if v.kind == metric_bool
          then (format_bool (not (v.u64 == 0)), note)
          else if v.kind == metric_string
          then (v.str, note)
          else if v.kind == metric_bytes
          then ([], byte_count (length v.blob) ++ (codes ", " ++ note))
          else ([], note)
    ]
