-- ===== src/Payload/Sparkplug/Reading.antt =====
-- Metrics of the signed types, from the integer to what is shown.
use mqttview.Common.{
  ℕ, ◌-◌, ◌%◌, ◌^◌, ◌<◌, u64_mod, ◌≡◌, refl, ap, ◌∙◌, none, some, [], ◌++◌, Bytes, codes, ℤ, pos,
  negsuc, length, arith,
}
use mqttview.Common.Decimal.{format_int}
use mqttview.Payload.Reader.{ok, >>=-ok, varint, read_bytes}
use mqttview.Payload.Varint.{encode_varint, varint-encode_varint}
use mqttview.Payload.Fields.{
  number_field, bytes_field, read_bytes-append, Decodes, Decodes-nil, Decodes-number, Decodes-bytes,
}
use mqttview.Payload.Sparkplug.{Formats, SparkplugMetric, MetricValue, zero_value, signed_bits}
use mqttview.Payload.Sparkplug.Decode.{
  MetricState, new_metric, metric_field, decode_metric, finish_metric, finished,
}
use mqttview.Payload.Sparkplug.Render.{render_value}

-- Whether an integer has a twos complement form of `w` bits, and that form.
abbrev pub Fits : ℕ → ℤ → Type 0
Fits w (pos n) = n < 2 ^ (w - 1)
Fits w (negsuc n) = n < 2 ^ (w - 1)

abbrev pub twos_complement : ℕ → ℤ → ℕ
twos_complement w (pos n) = n
twos_complement w (negsuc n) = 2 ^ w - n - 1

-- The data types whose readings are signed: their index, their bits and the field that holds them.
pub data SignedType : Type 0 where
  int8 int16 int32 int64 : SignedType

abbrev pub index : SignedType → ℕ
index int8 = 1
index int16 = 2
index int32 = 3
index int64 = 4

abbrev pub bits : SignedType → ℕ
bits int8 = 8
bits int16 = 16
bits int32 = 32
bits int64 = 64

abbrev pub carrier : SignedType → ℕ
carrier int64 = 11
carrier _ = 10

-- What the carrier can hold.
abbrev pub capacity : SignedType → ℕ
capacity int64 = u64_mod
capacity _ = 2 ^ 32

abbrev pub type_name : SignedType → Bytes
type_name int8 = codes "Int8"
type_name int16 = codes "Int16"
type_name int32 = codes "Int32"
type_name int64 = codes "Int64"

carried : SignedType → ℕ → MetricValue
carried int64 v = record zero_value { kind = 11; u64 = v }
carried _ v = record zero_value { kind = 10; u32 = v }

signed_bits-twos_complement :
    (t : SignedType) (z : ℤ) (v : ℕ)
    → Fits (bits t) z
    → v % 2 ^ bits t ≡ twos_complement (bits t) z
    → signed_bits (bits t) v ≡ z
unfolding signed_bits
signed_bits-twos_complement int8 (pos n) v f e = ground (arith, f, e)
signed_bits-twos_complement int8 (negsuc n) v f e = ground (arith, f, e)
signed_bits-twos_complement int16 (pos n) v f e = ground (arith, f, e)
signed_bits-twos_complement int16 (negsuc n) v f e = ground (arith, f, e)
signed_bits-twos_complement int32 (pos n) v f e = ground (arith, f, e)
signed_bits-twos_complement int32 (negsuc n) v f e = ground (arith, f, e)
signed_bits-twos_complement int64 (pos n) v f e = ground (arith, f, e)
signed_bits-twos_complement int64 (negsuc n) v f e = ground (arith, f, e)

render_value-signed :
    (formats : Formats) (t : SignedType) (v : ℕ)
    → render_value formats (index t) (carried t v) ≡ (format_int (signed_bits (bits t) v), [])
unfolding render_value carried
render_value-signed formats int8 v = refl
render_value-signed formats int16 v = refl
render_value-signed formats int32 v = refl
render_value-signed formats int64 v = refl

-- A metric with a name and a signed reading, as a publisher writes it.
abbrev pub signed_metric : Bytes → SignedType → ℕ → Bytes
signed_metric name t v =
    bytes_field 1 name ++ (number_field 4 (index t) ++ (number_field (carrier t) v ++ []))

-- What it reads.
abbrev pub reading : Bytes → SignedType → ℤ → SparkplugMetric
reading name t z = record new_metric.metric {
  name = name;
  data_type = type_name t;
  value = format_int z;
}

index_fits : (t : SignedType) → index t % 2 ^ 32 ≡ index t
index_fits int8 = refl
index_fits int16 = refl
index_fits int32 = refl
index_fits int64 = refl

index-lt : (t : SignedType) → index t < u64_mod
index-lt int8 = omega arith
index-lt int16 = omega arith
index-lt int32 = omega arith
index-lt int64 = omega arith

capacity-le : (t : SignedType) (v : ℕ) → v < capacity t → v < u64_mod
capacity-le int8 v h = omega arith
capacity-le int16 v h = omega arith
capacity-le int32 v h = omega arith
capacity-le int64 v h = h

-- How `decodeMetric` reads the fields of such a metric.
read_name :
    (s : MetricState) (name rest : Bytes)
    → length name < u64_mod
    → metric_field 1 2 s (encode_varint (length name) ++ (name ++ rest))
      ≡ ok (record s { metric = record s.metric { name = name } }) rest
unfolding metric_field
read_name s name rest h =
    >>=-ok read_bytes _ (encode_varint (length name) ++ (name ++ rest))
      (read_bytes-append name rest h)

read_datatype :
    (s : MetricState) (t : SignedType) (rest : Bytes)
    → metric_field 4 0 s (encode_varint (index t) ++ rest)
      ≡ ok (record s { datatype = index t }) rest
unfolding metric_field
read_datatype s t rest =
    >>=-ok varint _ (encode_varint (index t) ++ rest)
      (varint-encode_varint (index t) rest (index-lt t))
    ∙ ap (λ (k : ℕ). ok (record s { datatype = k }) rest) (index_fits t)

read_value :
    (s : MetricState) (t : SignedType) (v : ℕ) (rest : Bytes)
    → v < capacity t
    → metric_field (carrier t) 0 s (encode_varint v ++ rest)
      ≡ ok (record s { value = some (carried t v) }) rest
unfolding metric_field carried
read_value s int8 v rest h =
    >>=-ok varint _ (encode_varint v ++ rest) (varint-encode_varint v rest (omega arith))
    ∙ ap (λ (k : ℕ). ok (record s { value = some (carried int8 k) }) rest) (omega arith)
read_value s int16 v rest h =
    >>=-ok varint _ (encode_varint v ++ rest) (varint-encode_varint v rest (omega arith))
    ∙ ap (λ (k : ℕ). ok (record s { value = some (carried int16 k) }) rest) (omega arith)
read_value s int32 v rest h =
    >>=-ok varint _ (encode_varint v ++ rest) (varint-encode_varint v rest (omega arith))
    ∙ ap (λ (k : ℕ). ok (record s { value = some (carried int32 k) }) rest) (omega arith)
read_value s int64 v rest h =
    >>=-ok varint _ (encode_varint v ++ rest) (varint-encode_varint v rest h)

carrier_bounds : (t : SignedType) → (0 < carrier t) × (carrier t < 2 ^ 61)
carrier_bounds int8 = omega arith
carrier_bounds int16 = omega arith
carrier_bounds int32 = omega arith
carrier_bounds int64 = omega arith

abbrev read_state : Bytes → SignedType → ℕ → MetricState
read_state name t v = record {
  metric = record new_metric.metric { name = name };
  datatype = index t;
  value = some (carried t v);
}

signed_metric-Decodes :
    (name : Bytes) (t : SignedType) (v : ℕ)
    → length name < u64_mod
    → v < capacity t
    → Decodes metric_field new_metric (signed_metric name t v) (read_state name t v)
signed_metric-Decodes name t v h c =
    let named = record new_metric { metric = record new_metric.metric { name = name } } in
    let typed = record named { datatype = index t } in
    let last = number_field (carrier t) v ++ [] in
    Decodes-bytes metric_field 1 name new_metric named (read_state name t v)
      (number_field 4 (index t) ++ last) (omega arith) (omega arith)
      (read_name new_metric name (number_field 4 (index t) ++ last) h)
      (Decodes-number metric_field 4 (index t) named typed (read_state name t v) last (omega arith)
        (omega arith) (read_datatype named t last)
        (Decodes-number metric_field (carrier t) v typed (read_state name t v) (read_state name t v)
          [] (carrier_bounds t).0 (carrier_bounds t).1 (read_value typed t v [] c)
          (Decodes-nil metric_field (read_state name t v))))

finish_metric-reading :
    (formats : Formats) (name : Bytes) (t : SignedType) (v : ℕ)
    → finish_metric formats (read_state name t v) ≡ reading name t (signed_bits (bits t) v)
unfolding finish_metric carried
finish_metric-reading formats name int8 v = refl
finish_metric-reading formats name int16 v = refl
finish_metric-reading formats name int32 v = refl
finish_metric-reading formats name int64 v = refl

pub decode_metric-signed_metric :
    (formats : Formats) (name : Bytes) (t : SignedType) (z : ℤ) (v : ℕ)
    → length name < u64_mod
    → v < capacity t
    → Fits (bits t) z
    → v % 2 ^ bits t ≡ twos_complement (bits t) z
    → decode_metric formats (signed_metric name t v) ≡ (reading name t z, none)
unfolding decode_metric finished
decode_metric-signed_metric formats name t z v h c f e =
    let run =
      (signed_metric-Decodes name t v h c).decoded (length (signed_metric name t v))
        (omega arith) in
    ap (finished formats) run
    ∙ ap (λ m. (m, none))
        (finish_metric-reading formats name t v
          ∙ ap (reading name t) (signed_bits-twos_complement t z v f e))
