-- ===== src/Plc/Mapping/Keys.antt =====
-- A mapping's key in the store can be read back.
use mqttview.Common.{
  ℕ, ◌≡◌, ◌≢◌, refl, sym, ap, ◌∙◌, inl, inr, true, false, not, Option, none, some, [], ◌∷◌, ◌++◌,
  Bytes, contains_byte, has_prefix, drop_prefix, has_prefix-append, drop_prefix-append,
  has_prefix→append, ◌==◌, ==_iff, if◌then◌else◌, if_inv, arith,
}
use mqttview.Plc.Mapping.{mapping_key, mapping_key_prefix, bar, cut_bar, named, parse_mapping_key}

cut_bar-append :
    (id name : Bytes) → contains_byte bar id ≡ false → cut_bar (id ++ bar ∷ name) ≡ some (id, name)
unfolding cut_bar contains_byte
cut_bar-append [] name h = refl
cut_bar-append (b ∷ id) name h =
    let other : (b == bar) ≡ false = ground arith in
    let free : contains_byte bar id ≡ false = ground arith in
    let ih = cut_bar-append id name free in rw (other, ih) refl

joined :
    (b : ℕ) (s before after : Bytes) (o : Option (Bytes × Bytes))
    → ((x y : Bytes) → o ≡ some (x, y) → s ≡ x ++ bar ∷ y)
    → (if b == bar then some ([], s) else elim o as (λ _. Option (Bytes × Bytes)) [
      | none ↦ none
      | some (x, y) ↦ some (b ∷ x, y)
    ])
      ≡ some (before, after)
    → b ∷ s ≡ before ++ bar ∷ after
joined b s before after none ih e =
    elim (if_inv (b == bar) (some ([], s)) none (some (before, after)) e) [
      | inl (y, same) ↦
          let at : b ≡ bar = (==_iff b bar).0 y in
          let first : [] ≡ before = cc in
          let rest : s ≡ after = cc in rw (at, sym first, sym rest) refl
      | inr (n, bad) ↦ absurd (ground arith)
    ]
joined b s before after (some (x, y)) ih e =
    elim (if_inv (b == bar) (some ([], s)) (some (b ∷ x, y)) (some (before, after)) e) [
      | inl (found, same) ↦
          let at : b ≡ bar = (==_iff b bar).0 found in
          let first : [] ≡ before = cc in
          let rest : s ≡ after = cc in rw (at, sym first, sym rest) refl
      | inr (n, other) ↦
          let first : b ∷ x ≡ before = cc in
          let rest : y ≡ after = cc in rw (sym first, sym rest) (ap (◌∷◌ b) (ih x y refl))
    ]

-- What `strings.Index` finds is where the text can be cut.
cut_bar-joins :
    (s before after : Bytes) → cut_bar s ≡ some (before, after) → s ≡ before ++ bar ∷ after
unfolding cut_bar
cut_bar-joins [] before after e = absurd (ground arith)
cut_bar-joins (b ∷ s) before after e = joined b s before after (cut_bar s) (cut_bar-joins s) e

full_name :
    (i id n name : Bytes) (b : ℕ)
    → ◌≡◌ {A = Option (Bytes × Bytes)} (some (i, b ∷ n)) (some (id, name))
    → name ≡ []
    → ⊥
full_name i id n name b e z =
    let same : b ∷ n ≡ name = cc in let empty : b ∷ n ≡ [] = same ∙ z in ground arith

parsed : (s : Bytes) → parse_mapping_key (mapping_key_prefix ++ s) ≡ named (cut_bar s)
unfolding parse_mapping_key
parsed s = rw (has_prefix-append mapping_key_prefix s, drop_prefix-append mapping_key_prefix s) refl

named-cons :
    (o : Option (Bytes × Bytes)) (id name : Bytes)
    → named o ≡ some (id, name)
    → (o ≡ some (id, name)) × (name ≢ [])
unfolding named
named-cons none id name e = absurd (ground arith)
named-cons (some (i, [])) id name e = absurd (ground arith)
named-cons (some (i, b ∷ n)) id name e = (e, λ z. absurd (full_name i id n name b e z))

-- A key is read back as the connection and the name that it was built from, if the connection has no
-- `|` and the name is not empty, whatever the name holds; and what is read from a key builds that
-- key again.
pub parse_mapping_key-mapping_key :
    ((id name : Bytes)
      → contains_byte bar id ≡ false
      → name ≢ []
      → parse_mapping_key (mapping_key id name) ≡ some (id, name))
    × ((key id name : Bytes) → parse_mapping_key key ≡ some (id, name) → mapping_key id name ≡ key)
unfolding parse_mapping_key mapping_key
parse_mapping_key-mapping_key = (read_back, built_again)
  where
    read_back :
        (id name : Bytes)
        → contains_byte bar id ≡ false
        → name ≢ []
        → parse_mapping_key (mapping_key id name) ≡ some (id, name)
    read_back id [] free full = absurd (full refl)
    read_back id (b ∷ name) free full =
        parsed (id ++ bar ∷ b ∷ name)
        ∙ ap named (cut_bar-append id (b ∷ name) free)
        ∙ (unfold named in refl)

    built_again :
        (key id name : Bytes) → parse_mapping_key key ≡ some (id, name) → mapping_key id name ≡ key
    built_again key id name e =
        elim (if_inv (not (has_prefix key mapping_key_prefix)) none
          (named (cut_bar (drop_prefix key mapping_key_prefix))) (some (id, name)) e) [
            | inl (y, bad) ↦ absurd (ground arith)
            | inr (n, later) ↦
                let there : has_prefix key mapping_key_prefix ≡ true = ground arith in
                let (cut, full) =
                  named-cons (cut_bar (drop_prefix key mapping_key_prefix)) id name later in
                sym (
                  has_prefix→append key mapping_key_prefix there
                  ∙ ap (◌++◌ mapping_key_prefix)
                      (cut_bar-joins (drop_prefix key mapping_key_prefix) id name cut))
          ]
