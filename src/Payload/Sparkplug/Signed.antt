-- ===== src/Payload/Sparkplug/Signed.antt =====
-- Payloads with a reading of a signed type, from the integer to what is shown.
use mqttview.Common.{
  ℕ, ◌%◌, ◌^◌, ◌<◌, u64_mod, ◌≡◌, refl, ap, ◌∙◌, none, some, [], ◌∷◌, ◌++◌, Bytes, ℤ, length, arith,
}
use mqttview.Payload.Reader.{ok, >>=-ok, varint, read_bytes}
use mqttview.Payload.Varint.{encode_varint, varint-encode_varint}
use mqttview.Payload.Fields.{
  number_field, bytes_field, read_bytes-append, Decodes-nil, Decodes-number, Decodes-bytes,
}
use mqttview.Payload.Sparkplug.{Formats, SparkplugMetric}
use mqttview.Payload.Sparkplug.Decode.{
  decode_metric, SparkplugPayload, empty_payload, add_metric, payload_field, decode_sparkplug,
}
use mqttview.Payload.Sparkplug.Reading.{
  Fits, twos_complement, SignedType, bits, capacity, signed_metric, reading,
  decode_metric-signed_metric,
}

-- A payload with a sequence number and one metric.
abbrev pub signed_payload : ℕ → Bytes → Bytes
signed_payload seq metric = bytes_field 2 metric ++ (number_field 3 seq ++ [])

read_metric :
    (formats : Formats) (out : SparkplugPayload) (metric rest : Bytes) (m : SparkplugMetric)
    → length metric < u64_mod
    → decode_metric formats metric ≡ (m, none)
    → payload_field formats 2 2 out (encode_varint (length metric) ++ (metric ++ rest))
      ≡ ok (record out { metrics = out.metrics ++ m ∷ [] }) rest
unfolding payload_field
read_metric formats out metric rest m h e =
    >>=-ok read_bytes _ (encode_varint (length metric) ++ (metric ++ rest))
      (read_bytes-append metric rest h)
    ∙ ap (λ p. add_metric out p rest) e
    ∙ unfold add_metric in refl

read_seq :
    (formats : Formats) (out : SparkplugPayload) (seq : ℕ) (rest : Bytes)
    → seq < u64_mod
    → payload_field formats 3 0 out (encode_varint seq ++ rest)
      ≡ ok (record out { seq = some seq }) rest
unfolding payload_field
read_seq formats out seq rest h =
    >>=-ok varint _ (encode_varint seq ++ rest) (varint-encode_varint seq rest h)

-- A payload with one metric of a signed type is decoded without an error to its sequence number,
-- the metric's name and type, and the decimal of the integer whose two's complement the metric
-- carries in its lowest bits, whatever the bits above these are; the integer has to fit its type,
-- the carried number and the sequence number theirs, and the lengths 64 bits.
pub decode_sparkplug-signed :
    (formats : Formats) (seq : ℕ) (name : Bytes) (t : SignedType) (z : ℤ) (v : ℕ)
    → seq < u64_mod
    → length name < u64_mod
    → length (signed_metric name t v) < u64_mod
    → v < capacity t
    → Fits (bits t) z
    → v % 2 ^ bits t ≡ twos_complement (bits t) z
    → decode_sparkplug formats (signed_payload seq (signed_metric name t v))
      ≡ (record empty_payload { seq = some seq; metrics = reading name t z ∷ [] }, none)
unfolding decode_sparkplug
decode_sparkplug-signed formats seq name t z v hs hn hm c f e =
    let metric = signed_metric name t v in
    let decoded = decode_metric-signed_metric formats name t z v hn c f e in
    let with_metric = record empty_payload { metrics = reading name t z ∷ [] } in
    let whole = record with_metric { seq = some seq } in
    let step = payload_field formats in
    (Decodes-bytes step 2 metric empty_payload with_metric whole (number_field 3 seq ++ [])
        (omega arith) (omega arith)
        (read_metric formats empty_payload metric (number_field 3 seq ++ []) (reading name t z) hm
          decoded)
        (Decodes-number step 3 seq with_metric whole whole [] (omega arith) (omega arith)
          (read_seq formats with_metric seq [] hs) (Decodes-nil step whole))).decoded
      (length (signed_payload seq metric)) (omega arith)
