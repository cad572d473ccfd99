-- ===== src/Payload/Fields.antt =====
-- Fields as protobuf's specification writes them, and how a decoder's loop reads them.
use mqttview.Common.{
  ℕ, zero, suc, ◌+◌, ◌*◌, ◌/◌, ◌%◌, ◌^◌, ◌≤◌, ◌<◌, u64_mod, ◌≡◌, refl, sym, ap, ◌∙◌, none, [], ◌∷◌,
  ◌++◌, append_assoc, subst, Bytes, length, length-append, take, drop, arith,
}
use mqttview.Payload.Reader.{
  Reader, ok, >>=-ok, tag, varint, cut, read_bytes, read_fields, read_round, go_on,
}
use mqttview.Payload.Varint.{encode_varint, varint-encode_varint, groups}

-- Protobuf's encoding of a field that holds a number, and of one that holds bytes.
abbrev pub number_field : ℕ → ℕ → Bytes
number_field field v = encode_varint (field * 8) ++ encode_varint v

abbrev pub bytes_field : ℕ → Bytes → Bytes
bytes_field field b = encode_varint (field * 8 + 2) ++ (encode_varint (length b) ++ b)

take-append : (a b : Bytes) → take (length a) (a ++ b) ≡ a
take-append [] b = refl
take-append (x ∷ a) b = ap (◌∷◌ x) (take-append a b)

drop-append : (a b : Bytes) → drop (length a) (a ++ b) ≡ b
drop-append [] b = refl
drop-append (x ∷ a) b = drop-append a b

pub tag-encode_varint :
    (field wire : ℕ) (rest : Bytes)
    → 0 < field
    → field < 2 ^ 61
    → wire < 8
    → tag (encode_varint (field * 8 + wire) ++ rest) ≡ ok (field, wire) rest
unfolding tag
tag-encode_varint field wire rest h g k =
    let got = varint-encode_varint (field * 8 + wire) rest (omega arith) in
    let q : (field * 8 + wire) / 8 ≡ field = omega arith in
    let r : (field * 8 + wire) % 8 ≡ wire = omega arith in
    >>=-ok varint _ (encode_varint (field * 8 + wire) ++ rest) got ∙ rw (q, r) (ground arith)

pub read_bytes-append :
    (b rest : Bytes)
    → length b < u64_mod
    → read_bytes (encode_varint (length b) ++ (b ++ rest)) ≡ ok b rest
unfolding read_bytes cut
read_bytes-append b rest h =
    let got = varint-encode_varint (length b) (b ++ rest) h in
    let l = length-append b rest in
    >>=-ok varint cut (encode_varint (length b) ++ (b ++ rest)) got
    ∙ rw (take-append b rest, drop-append b rest) (ground (arith, l))

groups_pos : (more w : ℕ) → 0 < length (groups more w)
unfolding groups
groups_pos zero w = omega arith
groups_pos (suc more) w = ground arith

module _ {ℓ} {A : Type ℓ} (read_field : ℕ → ℕ → A → Reader A) where
  -- The loop decodes `bytes` from `out` to `end` without an error.
  pub record Decodes (out : A) (bytes : Bytes) (end : A) : Type ℓ where
    pub decoded :
        (rounds : ℕ) → length bytes ≤ rounds → read_fields read_field rounds out bytes ≡ (end, none)

  pub Decodes-nil : (out : A) → Decodes out [] out
  Decodes-nil out = record { decoded = nothing }
    where
      nothing : (rounds : ℕ) → 0 ≤ rounds → read_fields read_field rounds out [] ≡ (out, none)
      nothing rounds h = unfold read_fields in refl

  Decodes-field :
      (out next end : A) (bytes rest : Bytes)
      → read_round read_field out bytes ≡ ok next rest
      → length rest < length bytes
      → Decodes next rest end
      → Decodes out bytes end
  unfolding read_fields
  Decodes-field out next end [] rest e h d = absurd (omega arith)
  Decodes-field out next end (b ∷ bytes) rest e h d = record { decoded = more }
    where
      more :
          (rounds : ℕ)
          → suc (length bytes) ≤ rounds
          → read_fields read_field rounds out (b ∷ bytes) ≡ (end, none)
      more zero k = absurd (omega arith)
      more (suc rounds) k =
          ap (go_on out (read_fields read_field rounds)) e ∙ d.decoded rounds (omega arith)

  -- One round over a field, from what the field's reader does.
  pub Decodes-tag :
      (field wire : ℕ) (out next end : A) (body rest : Bytes)
      → 0 < field
      → field < 2 ^ 61
      → wire < 8
      → read_field field wire out (body ++ rest) ≡ ok next rest
      → Decodes next rest end
      → Decodes out (encode_varint (field * 8 + wire) ++ (body ++ rest)) end
  unfolding read_round
  Decodes-tag field wire out next end body rest h g k e d =
      let t = tag-encode_varint field wire (body ++ rest) h g k in
      let l = length-append (encode_varint (field * 8 + wire)) (body ++ rest) in
      let l' = length-append body rest in
      let some_bytes = groups_pos 9 (field * 8 + wire) in
      Decodes-field out next end (encode_varint (field * 8 + wire) ++ (body ++ rest)) rest
        (>>=-ok tag _ (encode_varint (field * 8 + wire) ++ (body ++ rest)) t ∙ e) (omega arith) d

  pub Decodes-number :
      (field v : ℕ) (out next end : A) (rest : Bytes)
      → 0 < field
      → field < 2 ^ 61
      → read_field field 0 out (encode_varint v ++ rest) ≡ ok next rest
      → Decodes next rest end
      → Decodes out (number_field field v ++ rest) end
  Decodes-number field v out next end rest h g e d =
      let same : field * 8 + 0 ≡ field * 8 = omega arith in
      subst (λ bytes. Decodes out bytes end)
        (ap (λ (k : ℕ). encode_varint k ++ (encode_varint v ++ rest)) same
          ∙ sym (append_assoc (encode_varint (field * 8)) (encode_varint v) rest))
        (Decodes-tag field 0 out next end (encode_varint v) rest h g (omega arith) e d)

  pub Decodes-bytes :
      (field : ℕ) (b : Bytes) (out next end : A) (rest : Bytes)
      → 0 < field
      → field < 2 ^ 61
      → read_field field 2 out (encode_varint (length b) ++ (b ++ rest)) ≡ ok next rest
      → Decodes next rest end
      → Decodes out (bytes_field field b ++ rest) end
  Decodes-bytes field b out next end rest h g e d =
      let l = append_assoc (encode_varint (length b)) b rest in
      subst (λ bytes. Decodes out bytes end)
        (sym (append_assoc (encode_varint (field * 8 + 2)) (encode_varint (length b) ++ b) rest))
        (Decodes-tag field 2 out next end (encode_varint (length b) ++ b) rest h g (omega arith)
          (ap (read_field field 2 out) l ∙ e) d)
