-- ===== src/Topic/Validity.antt =====
-- What `ValidateTopic` and `ValidateFilter` accept.
use mqttview.Common.{
  ◌≤◌, ◌≡◌, refl, ◌≢◌, ◌↔◌, ◌⊎◌, inl, inr, true, false, none, List, [], ◌∷◌, Bytes, bytes_eq,
  bytes_eq_iff, contains_byte, split, length, Bool-cases, arith, sym, ap, ◌∙◌,
}
use mqttview.Topic.{max_topic_bytes, slash, hash, plus, has_wild, check_levels, validate_filter}
use mqttview.Topic.Utf8.{valid_string}

-- A level without a wildcard, or one that is all of a `+`.
abbrev pub IsLevel : Bytes → Type 0
IsLevel l = (l ≡ plus) ⊎ (has_wild l ≡ false)

-- Levels with the wildcards where MQTT permits them: `#` only as the last.
pub data HasLevels : List Bytes → Type 0 where
  empty : HasLevels []
  hash_end : {l : Bytes} → l ≡ hash → HasLevels (l ∷ [])
  level : {l : Bytes} {ls : List Bytes} → IsLevel l → HasLevels ls → HasLevels (l ∷ ls)

pub record IsFilter (f : Bytes) : Type 0 where
  pub nonempty : f ≢ []
  pub fits : length f ≤ max_topic_bytes
  pub utf8 : valid_string f ≡ true
  pub no_null : contains_byte 0 f ≡ false
  pub levels : HasLevels (split slash f)

hash-not-plus : bytes_eq hash plus ≡ false
unfolding bytes_eq
hash-not-plus = refl

has_wild-hash : has_wild hash ≡ true
unfolding has_wild
has_wild-hash = refl

pub hash-not-level : (l : Bytes) → l ≡ hash → IsLevel l → ⊥
hash-not-level l e (inl p) = cc ((bytes_eq_iff hash plus).1 (sym e ∙ p), hash-not-plus)
hash-not-level l e (inr w) = cc (ap has_wild e, has_wild-hash)

pub level-ne-hash : (l : Bytes) → IsLevel l → bytes_eq l hash ≡ false
level-ne-hash l i = elim (Bool-cases (bytes_eq l hash)) [
  | inl e ↦ absurd (hash-not-level l ((bytes_eq_iff l hash).0 e) i)
  | inr ne ↦ ne
]

check_levels→HasLevels : (ls : List Bytes) → check_levels ls ≡ none → HasLevels ls
unfolding check_levels
check_levels→HasLevels [] h = empty
check_levels→HasLevels (l ∷ []) h = elim (Bool-cases (bytes_eq l hash)) [
  | inl e ↦ hash_end ((bytes_eq_iff l hash).0 e)
  | inr ne ↦ level (ground (arith, bytes_eq_iff l plus)) empty
]
check_levels→HasLevels (l ∷ m ∷ ls) h =
    level (ground (arith, bytes_eq_iff l plus)) (check_levels→HasLevels (m ∷ ls) (ground arith))

HasLevels→check_levels : {ls : List Bytes} → HasLevels ls → check_levels ls ≡ none
unfolding check_levels
HasLevels→check_levels empty = refl
HasLevels→check_levels (hash_end {l} e) = ground (arith, bytes_eq_iff l hash)
HasLevels→check_levels (level {l} {ls = []} h r) =
    ground (arith, bytes_eq_iff l plus, bytes_eq_iff l hash)
HasLevels→check_levels (level {l} {ls = m ∷ ls} h r) = ground (
  arith,
  bytes_eq_iff l plus,
  bytes_eq_iff l hash,
  λ (e : l ≡ hash). hash-not-level l e h,
  HasLevels→check_levels r,
)

accepted : (f : Bytes) → validate_filter f ≡ none → IsFilter f
unfolding validate_filter
accepted [] h = cc
accepted (b ∷ s) h = record {
  nonempty = λ e. cc;
  fits = ground arith;
  utf8 = ground arith;
  no_null = ground arith;
  levels = check_levels→HasLevels (split slash (b ∷ s)) (ground arith);
}

accepts : (f : Bytes) → IsFilter f → validate_filter f ≡ none
unfolding validate_filter
accepts [] i = absurd (i.nonempty refl)
accepts (b ∷ s) i = ground (arith, HasLevels→check_levels i.levels)

-- `ValidateFilter` accepts a filter exactly if it is not empty, has at most 65535 bytes, is valid
-- UTF-8 without a null byte, and has its wildcards where MQTT permits them: `+` as a whole level,
-- `#` as the whole last level.
pub validate_filter-IsFilter : (f : Bytes) → (validate_filter f ≡ none) ↔ IsFilter f
validate_filter-IsFilter f = (accepted f, accepts f)
