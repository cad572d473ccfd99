-- ===== src/Payload/Varint.antt =====
-- The varint that protobuf's specification writes is the one that the reader reads.
use mqttview.Common.{
  ℕ, zero, suc, ◌+◌, ◌*◌, ◌/◌, ◌%◌, ◌^◌, ◌<◌, u64_mod, ◌≡◌, ap, ◌∙◌, inl, inr, [], ◌∷◌, ◌++◌, Bytes,
  ltb, if◌then◌else◌, Bool-cases, arith,
}
use native.Mathlib.Nat.{div-add-mod}
use native.Mathlib.Numerals.{towards_suc}
use mqttview.Payload.Reader.{ok, varint, varint_loop}

-- Seven bits to a byte, the lowest first; every byte but the last has its top bit set. The first
-- argument is how many bytes may still follow.
unfoldable pub groups : ℕ → ℕ → Bytes
groups zero w = w ∷ []
groups (suc more) w =
    let rest = groups more (w / 128) in if ltb w 128 then w ∷ [] else (128 + w % 128) ∷ rest

abbrev pub encode_varint : ℕ → Bytes
encode_varint v = groups 9 v

next_shift : (s : ℕ) → 2 ^ (s + 7) ≡ 128 * 2 ^ s
next_shift s = simp towards_suc (omega arith)

-- A number of seven bits and more, moved up by `s` bits.
moved : (w s : ℕ) → w * 2 ^ s ≡ w % 128 * 2 ^ s + w / 128 * 2 ^ (s + 7)
moved w s =
    let whole = ap (λ (t : ℕ). t * 2 ^ s) (div-add-mod w 128) in
    let up = ap (λ (t : ℕ). w / 128 * t) (next_shift s) in omega arith

varint_loop-last :
    (b v s : ℕ) (rest : Bytes)
    → b < 128
    → s < 64
    → v + b * 2 ^ s < u64_mod
    → varint_loop v s (b ∷ rest) ≡ ok (v + b * 2 ^ s) rest
unfolding varint_loop
varint_loop-last b v s rest hb hs fits = let low : b % 128 ≡ b = omega arith in ground (arith, low)

varint_loop-more :
    (g v s : ℕ) (rest : Bytes)
    → g < 128
    → s < 64
    → v + g * 2 ^ s < u64_mod
    → varint_loop v s ((128 + g) ∷ rest) ≡ varint_loop (v + g * 2 ^ s) (s + 7) rest
unfolding varint_loop
varint_loop-more g v s rest hg hs fits =
    let low : (128 + g) % 128 ≡ g = omega arith in ground (arith, low)

varint_loop-groups :
    (more w v s : ℕ) (rest : Bytes)
    → w < 128 ^ suc more
    → s + 7 * more < 64
    → v + w * 2 ^ s < u64_mod
    → varint_loop v s (groups more w ++ rest) ≡ ok (v + w * 2 ^ s) rest
unfolding groups
varint_loop-groups zero w v s rest hw hs fits =
    varint_loop-last w v s rest (omega arith) (omega arith) fits
varint_loop-groups (suc more) w v s rest hw hs fits = elim (Bool-cases (ltb w 128)) [
  | inl y ↦ rw y (varint_loop-last w v s rest (ground arith) (omega arith) fits)
  | inr y ↦
      let m = moved w s in
      rw y (
        varint_loop-more (w % 128) v s (groups more (w / 128) ++ rest) (omega arith) (omega arith)
          (omega arith)
        ∙ varint_loop-groups more (w / 128) (v + w % 128 * 2 ^ s) (s + 7) rest (omega arith)
            (omega arith) (omega arith)
        ∙ ap (λ (x : ℕ). ok x rest) (omega arith))
]

-- `varint` reads back any number below 2^64 from its protobuf encoding, and leaves what follows.
pub varint-encode_varint :
    (v : ℕ) (rest : Bytes) → v < u64_mod → varint (encode_varint v ++ rest) ≡ ok v rest
unfolding varint
varint-encode_varint v rest h =
    varint_loop-groups 9 v 0 0 rest (omega arith) (omega arith) (omega arith)
    ∙ ap (λ (x : ℕ). ok x rest) (omega arith)
