-- ===== src/Common/Text.antt =====
-- Go strings and byte slices as lists of byte values, and what the program uses of `strings`.
use Prim.Native.Nat.{ℕ}
use Prim.Native.Char.{code}
use Prim.Native.String.{String}
use mathlib.Core.Path.{◌≡◌, refl, ap, sym, ◌∙◌}
use mathlib.Core.Logic.{◌↔◌, ◌≢◌, inl, inr}
use mathlib.Core.Bool.{Bool, true, false, ◌&&◌, ◌||◌}
use mathlib.Core.List.{List, [], ◌∷◌, ◌++◌}
use native.Mathlib.Omega.{arith}
use mqttview.Common.Tests.{◌==◌, ltb, if◌then◌else◌, Bool-cases}

abbrev pub Bytes : Type 0
Bytes = List ℕ

-- The bytes of a literal in ASCII.
abbrev pub codes : String → Bytes
codes String.[] = []
codes (String.◌∷◌ c s) = code c ∷ codes s

unfoldable pub bytes_eq : Bytes → Bytes → Bool
bytes_eq [] [] = true
bytes_eq [] (_ ∷ _) = false
bytes_eq (_ ∷ _) [] = false
bytes_eq (a ∷ as') (b ∷ bs) = (a == b) && bytes_eq as' bs

-- Go's `<` on strings.
unfoldable pub bytes_lt : Bytes → Bytes → Bool
bytes_lt s [] = false
bytes_lt [] (_ ∷ _) = true
bytes_lt (a ∷ s) (b ∷ t) = ltb a b || ((a == b) && bytes_lt s t)

pub bytes_eq→eq : (s t : Bytes) → bytes_eq s t ≡ true → s ≡ t
unfolding bytes_eq
bytes_eq→eq [] [] h = refl
bytes_eq→eq [] (_ ∷ _) h = cc
bytes_eq→eq (_ ∷ _) [] h = cc
bytes_eq→eq (a ∷ s) (b ∷ t) h = ground (arith, bytes_eq→eq s t)

pub bytes_eq_refl : (s : Bytes) → bytes_eq s s ≡ true
unfolding bytes_eq
bytes_eq_refl [] = refl
bytes_eq_refl (a ∷ s) = ground (arith, bytes_eq_refl s)

pub bytes_eq_iff : (s t : Bytes) → (bytes_eq s t ≡ true) ↔ (s ≡ t)
bytes_eq_iff s t = (bytes_eq→eq s t, λ e. rw e (bytes_eq_refl t))

-- Whether a byte occurs, as `strings.ContainsRune` finds an ASCII character.
unfoldable pub contains_byte : ℕ → Bytes → Bool
contains_byte c [] = false
contains_byte c (b ∷ s) = (b == c) || contains_byte c s

unfoldable pub has_prefix : Bytes → Bytes → Bool
has_prefix s [] = true
has_prefix [] (_ ∷ _) = false
has_prefix (b ∷ s) (p ∷ ps) = (b == p) && has_prefix s ps

-- `strings.Contains`
unfoldable pub contains_text : Bytes → Bytes → Bool
unfolding has_prefix
contains_text [] part = has_prefix [] part
contains_text (b ∷ s) part = has_prefix (b ∷ s) part || contains_text s part

-- What follows a prefix, as `strings.TrimPrefix` and `strings.CutPrefix` cut it when it is there.
unfoldable pub drop_prefix : Bytes → Bytes → Bytes
drop_prefix s [] = s
drop_prefix [] (_ ∷ _) = []
drop_prefix (b ∷ s) (_ ∷ ps) = drop_prefix s ps

pub has_prefix-append : (p s : Bytes) → has_prefix (p ++ s) p ≡ true
unfolding has_prefix
has_prefix-append [] s = refl
has_prefix-append (b ∷ p) s = ground (arith, has_prefix-append p s)

pub drop_prefix-append : (p s : Bytes) → drop_prefix (p ++ s) p ≡ s
unfolding drop_prefix
drop_prefix-append [] s = refl
drop_prefix-append (b ∷ p) s = drop_prefix-append p s

pub has_prefix→append : (s p : Bytes) → has_prefix s p ≡ true → s ≡ p ++ drop_prefix s p
unfolding has_prefix drop_prefix
has_prefix→append s [] h = refl
has_prefix→append [] (_ ∷ _) h = cc
has_prefix→append (b ∷ s) (p ∷ ps) h = ground (arith, has_prefix→append s ps)

-- `strings.Split` at a one-byte separator: always at least one part.
unfoldable pub push_byte : ℕ → List Bytes → List Bytes
push_byte b [] = (b ∷ []) ∷ []
push_byte b (part ∷ parts) = (b ∷ part) ∷ parts

unfoldable pub split : ℕ → Bytes → List Bytes
unfolding push_byte
split c [] = [] ∷ []
split c (b ∷ s) = let parts = split c s in if b == c then [] ∷ parts else push_byte b parts

pub split-cons :
    (c b : ℕ) (s : Bytes)
    → split c (b ∷ s) ≡ (if b == c then [] ∷ split c s else push_byte b (split c s))
unfolding split
split-cons c b s = refl

-- `strings.Join` with a one-byte separator.
unfoldable pub join : ℕ → List Bytes → Bytes
join c [] = []
join c (part ∷ []) = part
join c (part ∷ next ∷ parts) = part ++ c ∷ join c (next ∷ parts)

pub split-ne-nil : (c : ℕ) (s : Bytes) → split c s ≢ []
unfolding split
split-ne-nil c [] h = cc
split-ne-nil c (b ∷ s) h = nil_case (split c s) (split-ne-nil c s) h
  where
    nil_case :
        (parts : List Bytes)
        → parts ≢ []
        → (if b == c then [] ∷ parts else push_byte b parts) ≡ []
        → ⊥
    nil_case [] n h = n refl
    nil_case (p ∷ ps) n h = ground arith

join-push_byte :
    (c b : ℕ) (parts : List Bytes) → parts ≢ [] → join c (push_byte b parts) ≡ b ∷ join c parts
unfolding join push_byte
join-push_byte c b [] h = absurd (h refl)
join-push_byte c b (p ∷ []) h = refl
join-push_byte c b (p ∷ q ∷ ps) h = refl

join-nil-cons : (c : ℕ) (parts : List Bytes) → parts ≢ [] → join c ([] ∷ parts) ≡ c ∷ join c parts
unfolding join
join-nil-cons c [] h = absurd (h refl)
join-nil-cons c (p ∷ ps) h = refl

-- Joining what `split` cut gives the text back.
pub join-split : (c : ℕ) (s : Bytes) → join c (split c s) ≡ s
unfolding split join
join-split c [] = refl
join-split c (b ∷ s) = ground (
  arith,
  join-push_byte c b (split c s) (split-ne-nil c s),
  join-nil-cons c (split c s) (split-ne-nil c s),
  join-split c s,
)

-- Two texts with the same parts are one.
pub split_injective : (c : ℕ) (s t : Bytes) → split c s ≡ split c t → s ≡ t
split_injective c s t e = sym (join-split c s) ∙ ap (join c) e ∙ join-split c t

pub bytes_eq_ne : (s t : Bytes) → s ≢ t → bytes_eq s t ≡ false
bytes_eq_ne s t n = elim (Bool-cases (bytes_eq s t)) [
  | inl y ↦ absurd (n (bytes_eq→eq s t y))
  | inr y ↦ y
]
