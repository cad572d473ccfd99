-- ===== src/Api/Series.antt =====
-- internal/api/topic_history.go: the fields of a topic's payloads that can be charted, and the series
-- of the numbers at one. A float is its bits; their parsing, json.Unmarshal and strings.ToUpper are
-- parameters. A set of paths is a list of them.
pub mod Charted
use mqttview.Common.{
  ℕ, zero, suc, ◌+◌, Bool, true, false, not, ◌&&◌, Option, none, some, List, [], ◌∷◌, ◌++◌, Bytes,
  codes, bytes_eq, split, is_some, ltb, if◌then◌else◌,
}
use mqttview.Strings.{trim_space}
use mqttview.Topic.{is_empty}
use mqttview.Message.{Message, Time}

-- What `json.Unmarshal` makes of a document. An object's keys are in some order.
mutual
  pub data Json : Type 0 where
    null array : Json
    number : ℕ → Json
    boolean : Bool → Json
    text : Bytes → Json
    object : Members → Json

  pub data Members : Type 0 where
    no_members : Members
    member : Bytes → Json → Members → Members

-- What the standard library does.
pub record Numbers : Type 0 where
  pub parse_float : Bytes → Option ℕ
  pub is_finite : ℕ → Bool
  pub to_upper : Bytes → Bytes
  pub unmarshal : Bytes → Option Json
  pub one : ℕ
  pub nought : ℕ

abbrev pub dot : ℕ
dot = b'.'

unfoldable pub finite : Numbers → ℕ → Option ℕ
finite numbers v = if numbers.is_finite v then some v else none

abbrev pub is_word : Bytes → List Bytes → Bool
is_word s [] = false
is_word s (w ∷ ws) = if bytes_eq s w then true else is_word s ws

unfoldable pub parse_word : Numbers → Bytes → Option ℕ
parse_word numbers upper =
    if is_word upper (codes "ON" ∷ codes "TRUE" ∷ codes "OPEN" ∷ codes "OPENING" ∷ [])
    then some numbers.one
    else if is_word upper (codes "OFF" ∷ codes "FALSE" ∷ codes "CLOSED" ∷ codes "CLOSING" ∷ [])
    then some numbers.nought
    else none

unfoldable pub parse_number : Numbers → Bytes → Option ℕ
unfolding finite parse_word
parse_number numbers s = elim (numbers.parse_float s) [
  | some v ↦ finite numbers v
  | none ↦ parse_word numbers (numbers.to_upper (trim_space s))
]

unfoldable pub get_member : Bytes → Members → Option Json
get_member key no_members = none
get_member key (member held value rest) =
    if bytes_eq held key then some value else get_member key rest

-- The loop of `numericAt`, and its switch.
unfoldable pub find_path : List Bytes → Json → Option Json
unfolding get_member
find_path [] doc = some doc
find_path (key ∷ keys) (object members) = elim (get_member key members) [
  | none ↦ none
  | some value ↦ find_path keys value
]
find_path (key ∷ keys) doc = none

unfoldable pub number_of : Numbers → Json → Option ℕ
unfolding finite parse_number
number_of numbers (number v) = finite numbers v
number_of numbers (text s) = parse_number numbers s
number_of numbers (boolean true) = some numbers.one
number_of numbers (boolean false) = some numbers.nought
number_of numbers doc = none

abbrev pub number_there : Numbers → Option Json → Option ℕ
number_there numbers none = none
number_there numbers (some doc) = number_of numbers doc

abbrev pub number_in : Numbers → List Bytes → Option Json → Option ℕ
number_in numbers keys none = none
number_in numbers keys (some doc) = number_there numbers (find_path keys doc)

unfoldable pub numeric_at : Numbers → Bytes → Bytes → Option ℕ
unfolding parse_number find_path number_of
numeric_at numbers payload field =
    if is_empty field
    then parse_number numbers (trim_space payload)
    else number_in numbers (split dot field) (numbers.unmarshal payload)

abbrev pub under : Bytes → Bytes → Bytes
under prefix key = if is_empty prefix then key else prefix ++ dot ∷ key

abbrev pub max_depth : ℕ
max_depth = 6

-- The paths that `walkNumericPaths` adds for one member, and for the members of an object.
unfoldable mutual
  pub member_paths : Numbers → Bytes → ℕ → Json → List Bytes
  member_paths numbers path depth (object members) =
      if ltb max_depth (depth + 1) then [] else walk_paths numbers path (depth + 1) members
  member_paths numbers path depth null = []
  member_paths numbers path depth array = []
  member_paths numbers path depth (number v) =
      if is_some (number_of numbers (number v)) then path ∷ [] else []
  member_paths numbers path depth (boolean v) =
      if is_some (number_of numbers (boolean v)) then path ∷ [] else []
  member_paths numbers path depth (text v) =
      if is_some (number_of numbers (text v)) then path ∷ [] else []

  pub walk_paths : Numbers → Bytes → ℕ → Members → List Bytes
  walk_paths numbers prefix depth no_members = []
  walk_paths numbers prefix depth (member key value rest) =
      member_paths numbers (under prefix key) depth value ++ walk_paths numbers prefix depth rest

abbrev pub document_paths : Numbers → Option Json → List Bytes
document_paths numbers (some (object members)) = walk_paths numbers [] 0 members
document_paths numbers _ = []

unfoldable pub collect_numeric_paths : Numbers → Bytes → List Bytes
unfolding parse_number walk_paths
collect_numeric_paths numbers payload =
    if is_some (parse_number numbers (trim_space payload))
    then [] ∷ []
    else document_paths numbers (numbers.unmarshal payload)

-- The points of `handleTopicSeries`, and how many messages it skips.
pub record Series : Type 0 where
  pub points : List (Time × ℕ)
  pub skipped : ℕ

abbrev pub add_point : Time → Option ℕ → Series → Series
add_point at none s = record s { skipped = s.skipped + 1 }
add_point at (some v) s = record s { points = (at, v) ∷ s.points }

abbrev pub too_old : Option Time → Time → Bool
too_old none at = false
too_old (some since) at = ltb at since

unfoldable pub series : Numbers → Bytes → Option Time → List Message → Series
unfolding numeric_at
series numbers field since [] = record { points = []; skipped = 0 }
series numbers field since (m ∷ ms) =
    let rest = series numbers field since ms in
    if too_old since m.received_at
    then rest
    else add_point m.received_at (numeric_at numbers m.payload field) rest
