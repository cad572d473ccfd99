-- ===== src/Topic/Matching.antt =====
-- What `MatchFilter` decides.
use mqttview.Common.{
  ◌==◌, ℕ, ◌≡◌, refl, ap, ◌≢◌, ◌↔◌, inl, inr, true, false, ◌&&◌, none, List, [], ◌∷◌, Bytes, codes,
  bytes_eq, bytes_eq_iff, has_prefix, split, split_injective, split-cons, push_byte, All,
  Bool-cases, arith,
}
use mqttview.Topic.{
  slash, hash, plus, has_wild, validate_topic, validate_filter, match_levels, starts_reserved,
  starts_wild, match_filter,
}
use mqttview.Topic.Validity.{
  HasLevels, hash_end, level, IsFilter, validate_filter-IsFilter, hash-not-level, level-ne-hash,
}

-- MQTT's matching of a filter's levels against a topic's: `#` takes all that is left, the parent
-- level included, and `+` takes one level.
pub data Matches : List Bytes → List Bytes → Type 0 where
  done : Matches [] []
  rest : {f : Bytes} {tl : List Bytes} → f ≡ hash → Matches (f ∷ []) tl
  any : {f t : Bytes} {fl tl : List Bytes} → f ≡ plus → Matches fl tl → Matches (f ∷ fl) (t ∷ tl)
  same : {f t : Bytes} {fl tl : List Bytes} → f ≡ t → Matches fl tl → Matches (f ∷ fl) (t ∷ tl)

match_levels_sound :
    {fl : List Bytes} (tl : List Bytes) → HasLevels fl → match_levels fl tl ≡ true → Matches fl tl
unfolding match_levels
match_levels_sound [] HasLevels.empty h = done
match_levels_sound (t ∷ tl) HasLevels.empty h = cc
match_levels_sound tl (hash_end e) h = rest e
match_levels_sound [] (level {l} i v) h = absurd (hash-not-level l ((bytes_eq_iff l hash).0 h) i)
match_levels_sound (t ∷ tl) (level {l} {ls} i v) h = elim (Bool-cases (bytes_eq l plus)) [
  | inl e ↦
      any ((bytes_eq_iff l plus).0 e) (match_levels_sound tl v (ground (arith, level-ne-hash l i)))
  | inr ne ↦
      same (ground (arith, level-ne-hash l i, bytes_eq_iff l t))
        (match_levels_sound tl v (ground (arith, level-ne-hash l i)))
]

match_levels_complete : {fl tl : List Bytes} → Matches fl tl → match_levels fl tl ≡ true
unfolding match_levels
match_levels_complete done = refl
match_levels_complete (rest {f} {tl = []} e) = (bytes_eq_iff f hash).1 e
match_levels_complete (rest {f} {tl = t ∷ tl} e) = ground (arith, bytes_eq_iff f hash)
match_levels_complete (any {f} e m) = ground (arith, bytes_eq_iff f plus, match_levels_complete m)
match_levels_complete (same {f} {t} e m) = ground (arith, bytes_eq_iff f t, match_levels_complete m)

-- Levels match themselves, and none of them is wild if they start with `$`.
Matches-refl : (ls : List Bytes) → Matches ls ls
Matches-refl [] = done
Matches-refl (l ∷ ls) = same refl (Matches-refl ls)

reserved-hash : has_prefix hash (codes "$") ≡ false
unfolding has_prefix
reserved-hash = refl

reserved-plus : has_prefix plus (codes "$") ≡ false
unfolding has_prefix
reserved-plus = refl

reserved-not-wild : (ls : List Bytes) → (starts_reserved ls && starts_wild ls) ≡ false
unfolding starts_reserved starts_wild
reserved-not-wild [] = refl
reserved-not-wild (l ∷ ls) =
    ground (arith, bytes_eq_iff l hash, bytes_eq_iff l plus, reserved-hash, reserved-plus)

-- For a filter that `ValidateFilter` accepts, `MatchFilter` answers true exactly if the topic's
-- levels match the filter's by MQTT's rules and the filter does not begin with a wildcard while
-- the topic begins with `$`.
pub match_filter-Matches :
    (filter topic : Bytes)
    → validate_filter filter ≡ none
    → (match_filter filter topic ≡ true) ↔ (
        Matches (split slash filter) (split slash topic)
        × ((starts_reserved (split slash topic) && starts_wild (split slash filter)) ≡ false))
unfolding match_filter
match_filter-Matches f t h = (sound, complete)
  where
    levels : HasLevels (split slash f)
    levels = ((validate_filter-IsFilter f).0 h).levels

    sound :
        match_filter f t ≡ true
        → Matches (split slash f) (split slash t)
          × ((starts_reserved (split slash t) && starts_wild (split slash f)) ≡ false)
    sound e = elim (Bool-cases (bytes_eq f t)) [
      | inl p ↦ rw ((bytes_eq_iff f t).0 p) (Matches-refl _, reserved-not-wild _)
      | inr p ↦ (match_levels_sound (split slash t) levels (ground arith), ground arith)
    ]

    complete :
        Matches (split slash f) (split slash t)
          × ((starts_reserved (split slash t) && starts_wild (split slash f)) ≡ false)
        → match_filter f t ≡ true
    complete (m, r) = ground (arith, match_levels_complete m)

abbrev Plain : Bytes → Type 0
Plain l = has_wild l ≡ false

Plain-push :
    (b : ℕ) (parts : List Bytes)
    → (b == b'+') ≡ false
    → (b == b'#') ≡ false
    → All Plain parts
    → All Plain (push_byte b parts)
unfolding has_wild push_byte
Plain-push b [] p q h = (ground arith, tt)
Plain-push b (l ∷ ls) p q h = (ground arith, h.1)

-- The levels of a text without wildcards have none.
Plain-nil : Plain []
unfolding has_wild
Plain-nil = refl

Plain-cons :
    (b : ℕ) (s : Bytes) → Plain (b ∷ s) → Plain s × ((b == b'+') ≡ false) × ((b == b'#') ≡ false)
unfolding has_wild
Plain-cons b s h = (ground arith, ground arith, ground arith)

Plain-levels : (s : Bytes) → Plain s → All Plain (split slash s)
Plain-levels [] h = unfold split in (Plain-nil, tt)
Plain-levels (b ∷ s) h =
    let (p, q, r) = Plain-cons b s h in
    elim (Bool-cases (b == slash)) [
      | inl e ↦ rw (split-cons, e) (Plain-nil, Plain-levels s p)
      | inr e ↦ rw (split-cons, e) (Plain-push b (split slash s) q r (Plain-levels s p))
    ]

plain→HasLevels : (ls : List Bytes) → All Plain ls → HasLevels ls
plain→HasLevels [] h = HasLevels.empty
plain→HasLevels (l ∷ ls) h = level (inr h.0) (plain→HasLevels ls h.1)

Plain-ne-plus : (l : Bytes) → Plain l → l ≢ plus
unfolding has_wild
Plain-ne-plus l h e = let w : has_wild plus ≡ true = refl in cc (ap has_wild e)

-- Levels without wildcards match nothing but themselves.
Plain-Matches : {ls tl : List Bytes} → All Plain ls → Matches ls tl → tl ≡ ls
Plain-Matches h done = refl
Plain-Matches h (rest {f} e) = absurd (hash-not-level f e (inr h.0))
Plain-Matches h (any {f} e m) = absurd (Plain-ne-plus f h.0 e)
Plain-Matches h (same e m) = cc (Plain-Matches h.1 m)

module _ (t : Bytes) (valid : validate_topic t ≡ none) where
  topic-Plain : Plain t
  unfolding validate_topic
  topic-Plain = ground arith

  topic-IsFilter : IsFilter t
  unfolding validate_topic
  topic-IsFilter = record {
    nonempty = λ e. nonempty t valid e;
    fits = ground arith;
    utf8 = ground arith;
    no_null = ground arith;
    levels = plain→HasLevels (split slash t) (Plain-levels t topic-Plain);
  }
    where
      nonempty : (s : Bytes) → validate_topic s ≡ none → s ≢ []
      nonempty [] h e = cc
      nonempty (_ ∷ _) h e = cc

  topic_matches : (u : Bytes) → match_filter t u ≡ true → u ≡ t
  topic_matches u e =
      let valid' = (validate_filter-IsFilter t).1 topic-IsFilter in
      split_injective slash u t
        (Plain-Matches (Plain-levels t topic-Plain) ((match_filter-Matches t u valid').0 e).0)

-- A topic that `ValidateTopic` accepts is accepted as a filter, and as a filter it matches that
-- topic and no other.
pub topic_as_filter :
    (t : Bytes)
    → validate_topic t ≡ none
    → (validate_filter t ≡ none) × ((u : Bytes) → (match_filter t u ≡ true) ↔ (u ≡ t))
unfolding match_filter
topic_as_filter t h = (
  (validate_filter-IsFilter t).1 (topic-IsFilter t h),
  λ u. (topic_matches t h u, λ e. ground (arith, bytes_eq_iff t u)),
)
