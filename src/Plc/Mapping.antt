-- ===== src/Plc/Mapping.antt =====
-- internal/plugins/plc/mapping.go: the descriptions that people give to points, their keys in the
-- plugin's store, and how they and the PLC's own descriptions combine. A connection's state is the
-- part of `connState` that this file uses; `decode` stands for the decoding of a stored mapping, with
-- `none` for its error.
pub mod Keys
pub mod Described
use mqttview.Common.{
  ℕ, Bool, true, false, not, ◌&&◌, ◌||◌, Option, none, some, List, [], ◌∷◌, ◌++◌, map, foldl, Bytes,
  codes, bytes_eq, has_prefix, drop_prefix, lookup, insert, delete, ◌==◌, if◌then◌else◌,
}
use mqttview.Strings.{trim_space}
use mqttview.Topic.{is_empty}

pub record Mapping : Type 0 where
  pub name : Bytes
  pub label : Bytes
  pub location : Bytes
  pub type : Bytes
  pub notes : Bytes

unfoldable pub empty : Mapping → Bool
empty m = is_empty m.label && is_empty m.location && is_empty m.type && is_empty m.notes

abbrev pub mapping_key_prefix : Bytes
mapping_key_prefix = codes "map:"

abbrev pub bar : ℕ
bar = 124

unfoldable pub mapping_key : Bytes → Bytes → Bytes
mapping_key id name = mapping_key_prefix ++ id ++ bar ∷ name

-- What stands before and behind the first `|`.
unfoldable pub cut_bar : Bytes → Option (Bytes × Bytes)
cut_bar [] = none
cut_bar (b ∷ s) =
    let rest = cut_bar s in
    if b == bar
    then some ([], s)
    else (elim rest [ none ↦ none | some (before, after) ↦ some (b ∷ before, after) ])

unfoldable pub named : Option (Bytes × Bytes) → Option (Bytes × Bytes)
named none = none
named (some (id, [])) = none
named (some (id, b ∷ name)) = some (id, b ∷ name)

unfoldable pub parse_mapping_key : Bytes → Option (Bytes × Bytes)
unfolding cut_bar named
parse_mapping_key key =
    if not (has_prefix key mapping_key_prefix)
    then none
    else named (cut_bar (drop_prefix key mapping_key_prefix))

-- What the PLC publishes about a point.
pub record SensorMeta : Type 0 where
  pub name : Bytes
  pub location : Bytes
  pub type : Bytes
  pub alarm_zone : Bool

pub record ConnState : Type 0 where
  pub meta : List (Bytes × SensorMeta)
  pub mappings : List (Bytes × Mapping)

abbrev pub Registry : Type 0
Registry = List (Bytes × ConnState)

-- `state`: a connection's state, which is made where there is none.
unfoldable pub existing : Option ConnState → ConnState
existing none = record { meta = []; mappings = [] }
existing (some c) = c

unfoldable pub state : Registry → Bytes → ConnState
unfolding existing
state r id = existing (lookup id r)

unfoldable pub set_mapping : Bytes → Bytes → Mapping → Registry → Registry
unfolding state empty
set_mapping id name m r =
    let name' = trim_space name in
    let c = state r id in
    if is_empty name'
    then r
    else if empty m
    then insert id (record c { mappings = delete name' c.mappings }) r
    else insert id (record c { mappings = insert name' (record m { name = name' }) c.mappings }) r

unfoldable pub mappings_of : ConnState → List Mapping
mappings_of c = map (λ x. x.1) c.mappings

unfoldable pub mappings : Registry → Bytes → List Mapping
unfolding mappings_of
mappings [] id = []
mappings ((j, c) ∷ r) id =
    let rest = mappings r id in
    if not (is_empty id) && not (bytes_eq j id) then rest else mappings_of c ++ rest

module _ (decode : Bytes → Option Mapping) where
  -- One stored entry of `LoadMappings`, with whether it was unreadable.
  unfoldable pub load_mapping : Registry × Bool → Bytes × Bytes → Registry × Bool
  unfolding parse_mapping_key state
  load_mapping (r, failed) (key, raw) = elim (parse_mapping_key key) [
    | none ↦ (r, failed)
    | some (id, name) ↦ elim (decode raw) [
      | none ↦ (r, true)
      | some m ↦
          let c = state r id in
          (
            insert id (record c { mappings = insert name (record m { name = name }) c.mappings }) r,
            failed,
          )
    ]
  ]

  unfoldable pub load_mappings : List (Bytes × Bytes) → Registry → Registry × Bool
  unfolding load_mapping
  load_mappings stored r = foldl load_mapping (r, false) stored

pub record Description : Type 0 where
  pub label : Bytes
  pub location : Bytes
  pub sensor_type : Bytes
  pub alarm_zone : Bool
  pub known : Bool

unfoldable pub published : Option SensorMeta → Description
published none = record {
  label = [];
  location = [];
  sensor_type = [];
  alarm_zone = false;
  known = false;
}
published (some m) = record {
  label = m.name;
  location = m.location;
  sensor_type = m.type;
  alarm_zone = m.alarm_zone;
  known = true;
}

abbrev pub prefer : Bytes → Bytes → Bytes
prefer entered other = if is_empty entered then other else entered

unfoldable pub entered : Option Mapping → Description → Description
entered none d = d
entered (some m) d = record {
  label = prefer m.label d.label;
  location = prefer m.location d.location;
  sensor_type = prefer m.type d.sensor_type;
  alarm_zone = d.alarm_zone;
  known = true;
}

unfoldable pub describe_point : ConnState → Bytes → Description
unfolding published entered
describe_point c name = entered (lookup name c.mappings) (published (lookup name c.meta))
