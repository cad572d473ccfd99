-- ===== src/Topic.antt =====
-- internal/mqttc/topic.go: which topics and filters are accepted, and when a filter matches.
-- `Utf8` models what the code uses of unicode/utf8.
pub mod Utf8
pub mod Validity
pub mod Matching
use Utf8.{valid_string}
use mqttview.Common.{
  ℕ, ◌≡◌, Bool, true, false, not, ◌&&◌, ◌||◌, Option, none, some, List, [], ◌∷◌, Bytes, codes,
  bytes_eq, contains_byte, has_prefix, split, length, ltb, if◌then◌else◌,
}

pub data TopicError : Type 0 where
  empty too_long bad_utf8 has_wildcard has_null hash_not_last wildcard_in_level : TopicError

abbrev pub max_topic_bytes : ℕ
max_topic_bytes = 65535

abbrev pub slash : ℕ
slash = b'/'

abbrev pub hash : Bytes
hash = codes "#"

abbrev pub plus : Bytes
plus = codes "+"

-- `strings.ContainsAny(s, "+#")`
unfoldable pub has_wild : Bytes → Bool
unfolding contains_byte
has_wild s = contains_byte b'+' s || contains_byte b'#' s

abbrev pub is_empty : Bytes → Bool
is_empty [] = true
is_empty (_ ∷ _) = false

-- `none` is a nil error.
unfoldable pub validate_topic : Bytes → Option TopicError
validate_topic topic =
    if is_empty topic
    then some empty
    else if ltb max_topic_bytes (length topic)
    then some too_long
    else if not (valid_string topic)
    then some bad_utf8
    else if has_wild topic
    then some has_wildcard
    else if contains_byte 0 topic
    then some has_null
    else none

-- The loop of `ValidateFilter`; `i != len(levels)-1` says that levels are left.
unfoldable pub check_levels : List Bytes → Option TopicError
check_levels [] = none
check_levels (level ∷ []) =
    if bytes_eq level hash
    then none
    else if bytes_eq level plus
    then none
    else if has_wild level
    then some wildcard_in_level
    else none
check_levels (level ∷ next ∷ levels) =
    let rest = check_levels (next ∷ levels) in
    if bytes_eq level hash
    then some hash_not_last
    else if bytes_eq level plus
    then rest
    else if has_wild level
    then some wildcard_in_level
    else rest

unfoldable pub validate_filter : Bytes → Option TopicError
validate_filter filter =
    if is_empty filter
    then some empty
    else if ltb max_topic_bytes (length filter)
    then some too_long
    else if not (valid_string filter)
    then some bad_utf8
    else if contains_byte 0 filter
    then some has_null
    else check_levels (split slash filter)

-- The loop of `MatchFilter` and its last line: the second list holds `tl[i:]`, so it is empty
-- where `i >= len(tl)`, and both are empty at the end exactly if the lengths agree.
unfoldable pub match_levels : List Bytes → List Bytes → Bool
match_levels [] [] = true
match_levels [] (_ ∷ _) = false
match_levels (f ∷ fl) [] = bytes_eq f hash
match_levels (f ∷ fl) (t ∷ tl) =
    let rest = match_levels fl tl in
    if bytes_eq f hash
    then true
    else if not (bytes_eq f plus) && not (bytes_eq f t)
    then false
    else rest

-- `len(tl) > 0 && strings.HasPrefix(tl[0], "$")`
unfoldable pub starts_reserved : List Bytes → Bool
starts_reserved [] = false
starts_reserved (t ∷ _) = has_prefix t (codes "$")

-- `len(fl) > 0 && (fl[0] == "#" || fl[0] == "+")`
unfoldable pub starts_wild : List Bytes → Bool
starts_wild [] = false
starts_wild (f ∷ _) = bytes_eq f hash || bytes_eq f plus

unfoldable pub match_filter : Bytes → Bytes → Bool
match_filter filter topic =
    if bytes_eq filter topic
    then true
    else if starts_reserved (split slash topic) && starts_wild (split slash filter)
    then false
    else match_levels (split slash filter) (split slash topic)
