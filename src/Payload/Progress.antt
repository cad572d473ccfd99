-- ===== src/Payload/Progress.antt =====
-- What a reader leaves is no longer than what it was given, and no read fails for want of rounds.
use mqttview.Common.{
  ℕ, zero, suc, ◌+◌, ◌-◌, ◌*◌, ◌/◌, ◌%◌, ◌^◌, ◌≤◌, u64_mod, ◌≢◌, inl, inr, Bool, true, false, some,
  [], ◌∷◌, Bytes, length, length-drop, ltb, leb, ◌==◌, if◌then◌else◌, Bool-cases, arith,
}
use mqttview.Payload.Reader.{
  Reader, Read, ok, err, PayloadError, ◌>>=◌, give, fail, varint, varint_loop, tag, fixed, fixed32,
  fixed64, cut, read_bytes, skip, read_round, read_fields, go_on,
}

abbrev pub Shorter {ℓ} : {A : Type ℓ} → ℕ → Read A → Type 0
Shorter n (ok _ rest) = length rest ≤ n
Shorter n (err e) = e ≢ PayloadError.out_of_rounds

pub record IsReader {ℓ} {A : Type ℓ} (m : Reader A) : Type ℓ where
  pub shorter : (bytes : Bytes) → Shorter (length bytes) (m bytes)

pub give-IsReader {ℓ} : {A : Type ℓ} (a : A) → IsReader (give a)
give-IsReader a = record { shorter = λ bytes. omega arith }

pub fail-IsReader {ℓ} :
    {A : Type ℓ} (e : PayloadError) → e ≢ PayloadError.out_of_rounds → IsReader (fail {A = A} e)
fail-IsReader e n = record { shorter = λ bytes. n }

pub if-IsReader {ℓ} :
    {A : Type ℓ} (test : Bool) {m n : Reader A}
    → IsReader m
    → IsReader n
    → IsReader (if test then m else n)
if-IsReader true h g = h
if-IsReader false h g = g

Shorter-le {ℓ} : {A : Type ℓ} (r : Read A) (m n : ℕ) → m ≤ n → Shorter m r → Shorter n r
Shorter-le (ok a rest) m n h s = omega arith
Shorter-le (err e) m n h s = s

Shorter-bind {ℓ κ} :
    {A : Type ℓ} {B : Type κ} (n : ℕ) (r : Read A) (f : A → Reader B)
    → Shorter n r
    → ((a : A) → IsReader (f a))
    → Shorter n (elim r as (λ _. Read B) [ ok a rest ↦ f a rest | err e ↦ err e ])
Shorter-bind n (ok a rest) f s g = Shorter-le (f a rest) (length rest) n s ((g a).shorter rest)
Shorter-bind n (err e) f s g = s

pub >>=-IsReader {ℓ κ} :
    {A : Type ℓ} {B : Type κ} {m : Reader A} {f : A → Reader B}
    → IsReader m
    → ((a : A) → IsReader (f a))
    → IsReader (m >>= f)
>>=-IsReader {m} {f} h g = record {
  shorter = λ bytes. Shorter-bind (length bytes) (m bytes) f (h.shorter bytes) g;
}

varint_loop-Shorter : (v s : ℕ) (bytes : Bytes) → Shorter (length bytes - 1) (varint_loop v s bytes)
unfolding varint_loop
varint_loop-Shorter v s [] = λ e. cc
varint_loop-Shorter v s (b ∷ bytes) =
    let sum = v + b % 128 * 2 ^ s % u64_mod in
    let ih =
      Shorter-le (varint_loop sum (s + 7) bytes) (length bytes - 1) (suc (length bytes) - 1)
        (omega arith) (varint_loop-Shorter sum (s + 7) bytes) in
    elim (Bool-cases (leb 64 s)) [
      | inl y ↦ rw y (λ e. cc)
      | inr y ↦ elim (Bool-cases (ltb b 0x80)) [
        | inl z ↦ rw (y, z) (omega arith)
        | inr z ↦ rw (y, z) ih
      ]
    ]

pub varint-IsReader : IsReader varint
unfolding varint
varint-IsReader = record {
  shorter = λ bytes.
      Shorter-le (varint_loop 0 0 bytes) (length bytes - 1) (length bytes) (omega arith)
        (varint_loop-Shorter 0 0 bytes);
}

fixed-IsReader : (size : ℕ) → IsReader (fixed size)
unfolding fixed
fixed-IsReader size = record {
  shorter = λ bytes. elim (Bool-cases (ltb (length bytes) size)) [
    | inl y ↦ rw y (λ e. cc)
    | inr y ↦ rw y (let l = length-drop size bytes in omega arith)
  ];
}

cut-IsReader : (n : ℕ) → IsReader (cut n)
unfolding cut
cut-IsReader n = record {
  shorter = λ bytes. elim (Bool-cases (ltb (length bytes) n)) [
    | inl y ↦ rw y (λ e. cc)
    | inr y ↦ rw y (let l = length-drop n bytes in omega arith)
  ];
}

pub fixed32-IsReader : IsReader fixed32
unfolding fixed32
fixed32-IsReader = fixed-IsReader 4

pub fixed64-IsReader : IsReader fixed64
unfolding fixed64
fixed64-IsReader = fixed-IsReader 8

pub read_bytes-IsReader : IsReader read_bytes
unfolding read_bytes
read_bytes-IsReader = >>=-IsReader varint-IsReader cut-IsReader

pub deprecated-IsReader {ℓ} : {A : Type ℓ} → IsReader (fail {A = A} PayloadError.deprecated_group)
deprecated-IsReader = fail-IsReader PayloadError.deprecated_group (λ e. cc)

pub unknown-IsReader {ℓ} : {A : Type ℓ} → IsReader (fail {A = A} PayloadError.unknown_wire)
unknown-IsReader = fail-IsReader PayloadError.unknown_wire (λ e. cc)

pub ruleset readers = (
  if-IsReader, >>=-IsReader, give-IsReader, deprecated-IsReader, unknown-IsReader, varint-IsReader,
  fixed32-IsReader, fixed64-IsReader, read_bytes-IsReader,
)

pub skip-IsReader : (wire : ℕ) → IsReader (skip wire)
unfolding skip
skip-IsReader wire = search readers depth 20

-- A tag takes a byte at least.
tag-Shorter : (bytes : Bytes) → Shorter (length bytes - 1) (tag bytes)
unfolding tag
tag-Shorter bytes =
    Shorter-bind (length bytes - 1) (varint bytes) _
      (unfold varint in varint_loop-Shorter 0 0 bytes)
      (λ v.
        if-IsReader (v / 8 == 0) (fail-IsReader PayloadError.field_zero (λ e. cc))
          (give-IsReader (v / 8, v % 8)))

module _ {ℓ} {A : Type ℓ} (read_field : ℕ → ℕ → A → Reader A)
    (steps : (field wire : ℕ) (out : A) → IsReader (read_field field wire out)) where
  read_round-Shorter :
      (out : A) (bytes : Bytes) → Shorter (length bytes - 1) (read_round read_field out bytes)
  unfolding read_round
  read_round-Shorter out bytes =
      Shorter-bind (length bytes - 1) (tag bytes) _ (tag-Shorter bytes) (λ p. steps p.0 p.1 out)

  -- The rest of the loop, after a round that left `r`.
  after :
      (out : A) (rounds : ℕ)
      → ((out' : A) (rest : Bytes)
          → length rest ≤ rounds
          → (read_fields read_field rounds out' rest).1 ≢ some PayloadError.out_of_rounds)
      → {n : ℕ} (r : Read A) → Shorter n r
      → suc n ≤ suc rounds
      → (go_on out (read_fields read_field rounds) r).1 ≢ some PayloadError.out_of_rounds
  unfolding go_on
  after out rounds loop (ok out' rest) s h = loop out' rest (omega arith)
  after out rounds loop (err e) s h = λ q. s (cc)

  pub read_fields_total :
      (rounds : ℕ) (out : A) (bytes : Bytes)
      → length bytes ≤ rounds
      → (read_fields read_field rounds out bytes).1 ≢ some PayloadError.out_of_rounds
  unfolding read_fields
  read_fields_total zero out [] h = λ e. cc
  read_fields_total (suc rounds) out [] h = λ e. cc
  read_fields_total zero out (b ∷ bytes) h = absurd (omega arith)
  read_fields_total (suc rounds) out (b ∷ bytes) h =
      after out rounds (λ out' rest k. read_fields_total rounds out' rest k)
        (read_round read_field out (b ∷ bytes)) (read_round-Shorter out (b ∷ bytes)) (omega arith)
