-- ===== src/Strings.antt =====
-- What the program uses of Go's strings package on bytes: `TrimSpace`, and `ToLower` where the
-- result is compared with ASCII letters.
use mqttview.Common.{
  ℕ, zero, suc, ◌+◌, Bool, ◌&&◌, ◌||◌, Option, none, some, [], ◌∷◌, reverse, map, Bytes, length,
  leb, ◌==◌, if◌then◌else◌,
}

-- `unicode.IsSpace` below 128.
abbrev is_ascii_space : ℕ → Bool
is_ascii_space b = b == 32 || (leb 9 b && leb b 13)

-- U+0085 and U+00A0, by their two bytes.
abbrev is_space2 : ℕ → ℕ → Bool
is_space2 a b = a == 194 && (b == 133 || b == 160)

-- U+1680, U+2000 to U+200A, U+2028, U+2029, U+202F, U+205F and U+3000, by their three bytes.
abbrev is_space3 : ℕ → ℕ → ℕ → Bool
is_space3 a b c =
    (a == 225 && b == 154 && c == 128)
    || (a == 226 && b == 128 && (leb c 138 && leb 128 c || c == 168 || c == 169 || c == 175))
    || (a == 226 && b == 129 && c == 159)
    || (a == 227 && b == 128 && c == 128)

-- What is left behind a space at the front, or `none` where there is none.
unfoldable drop_first : Bytes → Option Bytes
drop_first [] = none
drop_first (a ∷ []) = if is_ascii_space a then some [] else none
drop_first (a ∷ b ∷ []) =
    if is_ascii_space a then some (b ∷ []) else if is_space2 a b then some [] else none
drop_first (a ∷ b ∷ c ∷ rest) =
    if is_ascii_space a
    then some (b ∷ c ∷ rest)
    else if is_space2 a b
    then some (c ∷ rest)
    else if is_space3 a b c
    then some rest
    else none

-- The same from the back, on the reversed bytes.
unfoldable drop_last : Bytes → Option Bytes
drop_last [] = none
drop_last (a ∷ []) = if is_ascii_space a then some [] else none
drop_last (a ∷ b ∷ []) =
    if is_ascii_space a then some (b ∷ []) else if is_space2 b a then some [] else none
drop_last (a ∷ b ∷ c ∷ rest) =
    if is_ascii_space a
    then some (b ∷ c ∷ rest)
    else if is_space2 b a
    then some (c ∷ rest)
    else if is_space3 c b a
    then some rest
    else none

unfoldable drop_all : (Bytes → Option Bytes) → ℕ → Bytes → Bytes
drop_all f zero s = s
drop_all f (suc fuel) s = elim (f s) [ none ↦ s | some rest ↦ drop_all f fuel rest ]

-- Each space is a byte or more, so that the length is enough fuel.
unfoldable pub trim_space : Bytes → Bytes
unfolding drop_all drop_first drop_last
trim_space s =
    let left = drop_all drop_first (length s) s in
    reverse (drop_all drop_last (length left) (reverse left))

-- A letter outside ASCII is left as it is, where Go maps it to its lower case: the two agree on
-- whether the result is a text of ASCII letters other than `i` and `k`.
unfoldable pub to_lower : Bytes → Bytes
to_lower s = map (λ b. if leb 65 b && leb b 90 then b + 32 else b) s
