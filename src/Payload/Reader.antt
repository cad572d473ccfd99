-- ===== src/Payload/Reader.antt =====
-- internal/payload/protowire.go: the reader of protobuf messages. A reader is the bytes that are
-- left, `buf[pos:]`, which is all that a method looks at.
use mqttview.Common.{
  ℕ, zero, suc, ◌+◌, ◌*◌, ◌/◌, ◌%◌, ◌^◌, u64_mod, ◌≡◌, ap, Bool, true, false, Option, none, some,
  [], ◌∷◌, Bytes, length, take, drop, ltb, leb, ◌==◌, if◌then◌else◌,
}

-- `out_of_rounds` is no error of the code: the loops of the decoder never meet it.
pub data PayloadError : Type 0 where
  truncated field_zero varint_overflow deprecated_group unknown_wire out_of_rounds : PayloadError

-- What a method returns, with the bytes that it left.
pub data Read {ℓ} (A : Type ℓ) : Type ℓ where
  ok : A → Bytes → Read A
  err : PayloadError → Read A

abbrev pub Reader {ℓ} : Type ℓ → Type ℓ
Reader A = Bytes → Read A

infixl 5 ◌>>=◌
abbrev pub ◌>>=◌ {ℓ κ} : {A : Type ℓ} {B : Type κ} → Reader A → (A → Reader B) → Reader B
◌>>=◌ m f bytes = elim (m bytes) [ ok a rest ↦ f a rest | err e ↦ err e ]

-- A chain goes on where its first reader succeeded.
pub >>=-ok {ℓ κ} :
    {A : Type ℓ} {B : Type κ} (m : Reader A) (f : A → Reader B) (bytes : Bytes) {a : A}
    {rest : Bytes}
    → m bytes ≡ ok a rest
    → (m >>= f) bytes ≡ f a rest
>>=-ok {B} m f bytes e =
    ap (λ r. elim r as (λ _. Read B) [ ok a rest ↦ f a rest | err e ↦ err e ]) e

abbrev pub give {ℓ} : {A : Type ℓ} → A → Reader A
give a rest = ok a rest

abbrev pub fail {ℓ} : {A : Type ℓ} → PayloadError → Reader A
fail e rest = err e

abbrev pub wire_varint : ℕ
wire_varint = 0

abbrev pub wire_i64 : ℕ
wire_i64 = 1

abbrev pub wire_bytes : ℕ
wire_bytes = 2

abbrev pub wire_s_group : ℕ
wire_s_group = 3

abbrev pub wire_e_group : ℕ
wire_e_group = 4

abbrev pub wire_i32 : ℕ
wire_i32 = 5

unfoldable pub done : Bytes → Bool
done [] = true
done (_ ∷ _) = false

-- The loop of `varint`. The groups stand at different bits, so that the `|=` is a sum; the shift
-- loses what is beyond 64 bits.
unfoldable pub varint_loop : ℕ → ℕ → Reader ℕ
varint_loop v shift [] = err truncated
varint_loop v shift (b ∷ bytes) =
    let sum = v + b % 128 * 2 ^ shift % u64_mod in
    let rest = varint_loop sum (shift + 7) bytes in
    if leb 64 shift then err varint_overflow else if ltb b 0x80 then ok sum bytes else rest

unfoldable pub varint : Reader ℕ
unfolding varint_loop
varint bytes = varint_loop 0 0 bytes

-- The field number and the wire type.
unfoldable pub tag : Reader (ℕ × ℕ)
unfolding varint
tag = do v ← varint; if v / 8 == 0 then fail field_zero else give (v / 8, v % 8)

-- A little-endian number.
unfoldable pub little_endian : Bytes → ℕ
little_endian [] = 0
little_endian (b ∷ bytes) = b + 256 * little_endian bytes

unfoldable pub fixed : ℕ → Reader ℕ
unfolding little_endian
fixed size bytes =
    if ltb (length bytes) size
    then err truncated
    else ok (little_endian (take size bytes)) (drop size bytes)

unfoldable pub fixed32 : Reader ℕ
unfolding fixed
fixed32 = fixed 4

unfoldable pub fixed64 : Reader ℕ
unfolding fixed
fixed64 = fixed 8

unfoldable pub cut : ℕ → Reader Bytes
cut n bytes = if ltb (length bytes) n then err truncated else ok (take n bytes) (drop n bytes)

unfoldable pub read_bytes : Reader Bytes
unfolding varint cut
read_bytes = do n ← varint; cut n

unfoldable pub skip : ℕ → Reader (Unit {0})
unfolding varint fixed64 read_bytes fixed32
skip wire =
    if wire == wire_varint
    then varint >>= (λ _. give tt)
    else if wire == wire_i64
    then fixed64 >>= (λ _. give tt)
    else if wire == wire_bytes
    then read_bytes >>= (λ _. give tt)
    else if wire == wire_i32
    then fixed32 >>= (λ _. give tt)
    else if wire == wire_s_group
    then fail deprecated_group
    else if wire == wire_e_group
    then fail deprecated_group
    else fail unknown_wire

-- The end of a round, with the rest of the loop.
unfoldable pub go_on {ℓ} :
    {A : Type ℓ} → A → (A → Bytes → A × Option PayloadError) → Read A → A × Option PayloadError
go_on out loop (ok out' rest) = loop out' rest
go_on out loop (err e) = (out, some e)

-- The loop of a decoder: what was decoded, also where an error ended it, and the error. Each round
-- reads a byte or more, so the number of bytes is enough rounds.
module _ {ℓ} {A : Type ℓ} (read_field : ℕ → ℕ → A → Reader A) where
  unfoldable pub read_round : A → Reader A
  unfolding tag
  read_round out = do (field, wire) ← tag; read_field field wire out

  unfoldable pub read_fields : ℕ → A → Bytes → A × Option PayloadError
  unfolding read_round go_on
  read_fields rounds out [] = (out, none)
  read_fields zero out (_ ∷ _) = (out, some out_of_rounds)
  read_fields (suc rounds) out (b ∷ bytes) =
      go_on out (read_fields rounds) (read_round out (b ∷ bytes))
