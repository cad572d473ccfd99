-- ===== src/Witness/Payloads.antt =====
-- The results about internal/payload at concrete inputs.
use mqttview.Common.{
  ◌≡◌, refl, ◌≢◌, ◌⊎◌, ◌<◌, ◌^◌, Bool, false, none, some, [], ◌∷◌, ◌++◌, Bytes, codes, length,
  negsuc, arith, has_prefix,
}
use mqttview.Payload.Reader.{PayloadError, ok, varint}
use mqttview.Payload.Varint.{encode_varint, groups, varint-encode_varint}
use mqttview.Payload.Sparkplug.{Formats}
use mqttview.Payload.Sparkplug.Decode.{empty_payload, decode_sparkplug}
use mqttview.Payload.Sparkplug.Total.{decode_sparkplug_total}
use mqttview.Payload.Sparkplug.Reading.{int8, signed_metric, reading}
use mqttview.Payload.Sparkplug.Signed.{signed_payload, decode_sparkplug-signed}
use mqttview.Payload.Detect.{
  IsRendered, IsServed, image_signatures, safe_media_type, detect, image_media_type,
  detect-safe_media_type,
}

abbrev plain : Formats
plain = record { float32 = λ v. []; float64 = λ v. []; date_time = λ v. [] }

varint-encode_varint_example : varint (encode_varint 300 ++ codes "x") ≡ ok 300 (codes "x")
varint-encode_varint_example = varint-encode_varint 300 (codes "x") (omega arith)

encoded_300 : encode_varint 300 ≡ 0xac ∷ 0x02 ∷ []
unfolding groups
encoded_300 = refl

decode_sparkplug_total_example :
    (decode_sparkplug plain (0x18 ∷ 0x80 ∷ [])).1 ≢ some PayloadError.out_of_rounds
decode_sparkplug_total_example = decode_sparkplug_total plain (0x18 ∷ 0x80 ∷ [])

cut_short : (decode_sparkplug plain (0x18 ∷ 0x80 ∷ [])).1 ≡ some PayloadError.truncated
unfolding decode_sparkplug
cut_short = refl

abbrev minus_five : Bytes
minus_five = signed_metric (codes "cellar") int8 4_294_967_291

minus_five_short : length minus_five < 2 ^ 64
unfolding groups
minus_five_short = omega arith

decode_sparkplug-signed_example : decode_sparkplug plain (signed_payload 7 minus_five) ≡ (
  record empty_payload { seq = some 7; metrics = reading (codes "cellar") int8 (negsuc 4) ∷ [] },
  none,
)
decode_sparkplug-signed_example =
    decode_sparkplug-signed plain 7 (codes "cellar") int8 (negsuc 4) 4_294_967_291 (omega arith)
      (omega arith) minus_five_short (omega arith) (omega arith) (omega arith)

abbrev never : Bytes → Bool
never _ = false

detect-safe_media_type_example :
    ((safe_media_type (codes "BM1") ≡ codes "application/octet-stream")
      ⊎ IsRendered (safe_media_type (codes "BM1")) (codes "BM1") image_signatures)
    × IsServed
        (safe_media_type (codes "BM1"))
        (codes "BM1")
        (detect never (codes "cam") (codes "BM1"))
detect-safe_media_type_example = detect-safe_media_type never (codes "cam") (codes "BM1")

bitmap : safe_media_type (codes "BM1") ≡ codes "image/bmp"
unfolding safe_media_type image_media_type has_prefix
bitmap = refl
