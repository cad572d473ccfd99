-- ===== src/Payload/Detect.antt =====
-- internal/payload/detect.go: what a payload appears to be. `json.Valid` is a parameter.
use mqttview.Common.{
  ℕ, ◌+◌, Bool, true, false, not, ◌&&◌, ◌||◌, Option, none, some, List, [], ◌∷◌, ◌++◌, ◌≡◌, refl,
  inl, inr, ◌⊎◌, Bytes, codes, bytes_eq, has_prefix, length, take, drop, ltb, ◌==◌, if◌then◌else◌,
  if_both, Bool-cases, arith,
}
use mqttview.Strings.{trim_space}
use mqttview.Topic.Utf8.{valid_string}
use mqttview.Payload.Sparkplug.{looks_like_sparkplug}

pub data Kind : Type 0 where
  empty json text image sparkplug binary : Kind

-- An empty media type is none.
pub record Detected : Type 0 where
  pub kind : Kind
  pub media_type : Bytes
  pub size : ℕ

-- `offset12` is `none` where the slice is nil.
pub record ImageSignature : Type 0 where
  pub media_type : Bytes
  pub prefix : Bytes
  pub offset12 : Option Bytes

abbrev pub image_signatures : List ImageSignature
image_signatures =
    record {
      media_type = codes "image/png";
      prefix = 0x89 ∷ (codes "PNG" ++ 0x0d ∷ 0x0a ∷ 0x1a ∷ 0x0a ∷ []);
      offset12 = none;
    }
    ∷ record { media_type = codes "image/jpeg"; prefix = 0xff ∷ 0xd8 ∷ 0xff ∷ []; offset12 = none }
    ∷ record { media_type = codes "image/gif"; prefix = codes "GIF87a"; offset12 = none }
    ∷ record { media_type = codes "image/gif"; prefix = codes "GIF89a"; offset12 = none }
    ∷ record { media_type = codes "image/bmp"; prefix = codes "BM"; offset12 = none }
    ∷ record {
      media_type = codes "image/webp";
      prefix = codes "RIFF";
      offset12 = some (codes "WEBP");
    }
    ∷ []

-- The test of the second marker. `raw[8:12]`.
unfoldable pub has_marker : Bytes → Option Bytes → Bool
has_marker raw none = true
has_marker raw (some marker) =
    not (ltb (length raw) (12 + length marker)) && bytes_eq (take 4 (drop 8 raw)) marker

unfoldable pub carries : Bytes → ImageSignature → Bool
unfolding has_marker
carries raw sig = has_prefix raw sig.prefix && has_marker raw sig.offset12

unfoldable pub find_signature : Bytes → List ImageSignature → Option Bytes
unfolding carries
find_signature raw [] = none
find_signature raw (sig ∷ sigs) =
    if carries raw sig then some sig.media_type else find_signature raw sigs

-- `none` where the bool is false.
unfoldable pub image_media_type : Bytes → Option Bytes
unfolding find_signature
image_media_type raw = find_signature raw image_signatures

unfoldable pub opens_document : Bytes → Bool
opens_document [] = false
opens_document (b ∷ _) = (b == b'{') || (b == b'[')

-- The loop of `isText`. In valid UTF-8 the runes below 0x80 are the bytes below 0x80.
unfoldable pub is_plain : Bytes → Bool
is_plain [] = true
is_plain (b ∷ bytes) =
    let rest = is_plain bytes in
    if (b == 9) || (b == 10) || (b == 13)
    then rest
    else if ltb b 0x20 || (b == 0x7f)
    then false
    else rest

unfoldable pub is_text : Bytes → Bool
unfolding is_plain
is_text raw = if not (valid_string raw) then false else is_plain raw

unfoldable pub served : Option Bytes → Bytes
served (some media_type) = media_type
served none = codes "application/octet-stream"

unfoldable pub safe_media_type : Bytes → Bytes
unfolding served
safe_media_type raw = served (image_media_type raw)

module _ (json_valid : Bytes → Bool) where
  unfoldable pub is_json : Bytes → Bool
  unfolding opens_document
  is_json raw = let trimmed = trim_space raw in opens_document trimmed && json_valid trimmed

  unfoldable pub kind_of : Bytes → Kind
  unfolding is_json is_text
  kind_of raw = if is_json raw then json else if is_text raw then text else binary

  unfoldable pub by_signature : Bytes → Option Bytes → Detected
  unfolding kind_of
  by_signature raw (some media_type) = record {
    kind = image;
    media_type = media_type;
    size = length raw;
  }
  by_signature raw none = record { kind = kind_of raw; media_type = []; size = length raw }

  unfoldable pub detect : Bytes → Bytes → Detected
  unfolding by_signature
  detect topic raw =
      let found : Kind → Detected = λ k. record { kind = k; media_type = []; size = length raw } in
      if length raw == 0
      then found empty
      else if looks_like_sparkplug topic
      then found sparkplug
      else by_signature raw (image_media_type raw)

-- One of the formats that are rendered: its media type, and a payload that carries its marks.
abbrev pub IsRendered : Bytes → Bytes → List ImageSignature → Type 0
IsRendered media_type raw [] = ⊥
IsRendered media_type raw (sig ∷ sigs) =
    ((media_type ≡ sig.media_type) × (has_prefix raw sig.prefix ≡ true))
    ⊎ IsRendered media_type raw sigs

find_signature-IsRendered :
    (raw media_type : Bytes) (sigs : List ImageSignature)
    → find_signature raw sigs ≡ some media_type
    → IsRendered media_type raw sigs
unfolding find_signature carries
find_signature-IsRendered raw media_type [] e = cc
find_signature-IsRendered raw media_type (sig ∷ sigs) e = elim (Bool-cases (carries raw sig)) [
  | inl y ↦ inl (ground (arith, y, e), ground (arith, y))
  | inr y ↦ inr (find_signature-IsRendered raw media_type sigs (ground (arith, y, e)))
]

image_media_type-IsRendered :
    (raw media_type : Bytes)
    → image_media_type raw ≡ some media_type
    → IsRendered media_type raw image_signatures
unfolding image_media_type
image_media_type-IsRendered raw media_type e =
    find_signature-IsRendered raw media_type image_signatures e

served-IsRendered :
    (raw : Bytes) (o : Option Bytes)
    → image_media_type raw ≡ o
    → (served o ≡ codes "application/octet-stream") ⊎ IsRendered (served o) raw image_signatures
unfolding served
served-IsRendered raw none e = inl refl
served-IsRendered raw (some t) e = inr (image_media_type-IsRendered raw t e)

-- What holds of the media type that is detected, where `media_type` is the one that is served.
abbrev pub IsServed : Bytes → Bytes → Detected → Type 0
IsServed media_type raw d =
    (d.media_type ≡ [])
    ⊎ ((d.kind ≡ image) × (d.media_type ≡ media_type) × IsRendered media_type raw image_signatures)

by_signature-IsServed :
    (json_valid : Bytes → Bool) (raw : Bytes) (o : Option Bytes)
    → image_media_type raw ≡ o
    → IsServed (served o) raw (by_signature json_valid raw o)
unfolding served by_signature
by_signature-IsServed json_valid raw none e = inl refl
by_signature-IsServed json_valid raw (some t) e =
    inr (refl, refl, image_media_type-IsRendered raw t e)

-- A payload is served as `application/octet-stream`, or as the media type of a format on the list
-- whose prefix it has; `Detect` gives no media type but for an image, and then the one served.
pub detect-safe_media_type :
    (json_valid : Bytes → Bool) (topic raw : Bytes)
    → ((safe_media_type raw ≡ codes "application/octet-stream")
        ⊎ IsRendered (safe_media_type raw) raw image_signatures)
      × IsServed (safe_media_type raw) raw (detect json_valid topic raw)
unfolding safe_media_type detect
detect-safe_media_type json_valid topic raw = (
  served-IsRendered raw (image_media_type raw) refl,
  if_both (IsServed (served (image_media_type raw)) raw) (length raw == 0) (inl refl) (
      if_both (IsServed (served (image_media_type raw)) raw) (looks_like_sparkplug topic) (inl refl)
        (by_signature-IsServed json_valid raw (image_media_type raw) refl)),
)
