-- ===== src/Payload/Sparkplug/Total.antt =====
-- The decoders end by themselves on any bytes.
use mqttview.Common.{ℕ, ap, ◌≢◌, Option, none, some, Bytes, length, arith}
use mqttview.Payload.Reader.{PayloadError, read_fields}
use mqttview.Payload.Progress.{
  IsReader, give-IsReader, fail-IsReader, skip-IsReader, read_fields_total, readers,
}
use mqttview.Payload.Sparkplug.{Formats, SparkplugMetric}
use mqttview.Payload.Sparkplug.Decode.{
  MetricState, new_metric, metric_field, decode_metric, finished, SparkplugPayload, empty_payload,
  add_metric, payload_field, decode_sparkplug,
}

metric_field-IsReader : (field wire : ℕ) (s : MetricState) → IsReader (metric_field field wire s)
unfolding metric_field
metric_field-IsReader field wire s = search (readers, skip-IsReader) depth 60 fits 4000

finished_total :
    (formats : Formats) (p : MetricState × Option PayloadError)
    → p.1 ≢ some PayloadError.out_of_rounds
    → (finished formats p).1 ≢ some PayloadError.out_of_rounds
unfolding finished
finished_total formats (s, none) h = h
finished_total formats (s, some e) h = h

decode_metric_total :
    (formats : Formats) (raw : Bytes)
    → (decode_metric formats raw).1 ≢ some PayloadError.out_of_rounds
unfolding decode_metric
decode_metric_total formats raw =
    finished_total formats (read_fields metric_field (length raw) new_metric raw) (
      read_fields_total metric_field metric_field-IsReader (length raw) new_metric raw
        (omega arith))

add_metric-IsReader :
    (out : SparkplugPayload) (p : SparkplugMetric × Option PayloadError)
    → p.1 ≢ some PayloadError.out_of_rounds
    → IsReader (add_metric out p)
unfolding add_metric
add_metric-IsReader out (m, none) h = give-IsReader _
add_metric-IsReader out (m, some e) h = fail-IsReader e (λ q. h (ap some q))

payload_field-IsReader :
    (formats : Formats) (field wire : ℕ) (out : SparkplugPayload)
    → IsReader (payload_field formats field wire out)
unfolding payload_field
payload_field-IsReader formats field wire out =
    let metric = λ (b : Bytes).
      add_metric-IsReader out (decode_metric formats b) (decode_metric_total formats b) in
    search (readers, skip-IsReader, metric) depth 60 fits 4000

-- `DecodeSparkplug` ends on any bytes: its loops, and those of `decodeMetric` within, are given as
-- many rounds as there are bytes, and these never run out.
pub decode_sparkplug_total :
    (formats : Formats) (raw : Bytes)
    → (decode_sparkplug formats raw).1 ≢ some PayloadError.out_of_rounds
unfolding decode_sparkplug
decode_sparkplug_total formats raw =
    read_fields_total (payload_field formats) (payload_field-IsReader formats) (length raw)
      empty_payload raw (omega arith)
