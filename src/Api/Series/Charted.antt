-- ===== src/Api/Series/Charted.antt =====
-- Every field that is offered can be charted.
use mqttview.Common.{
  ℕ, ◌+◌, ◌≡◌, refl, sym, ap, ◌∙◌, inl, inr, true, false, none, some, List, [], ◌∷◌, ◌++◌,
  append_assoc, Bytes, bytes_eq, bytes_eq_iff, bytes_eq_refl, split, push_byte, contains_byte,
  is_some, All, All-append, All-map, if_both, ltb, if◌then◌else◌, Bool-cases, arith, subst,
}
use mqttview.Topic.{is_empty}
use mqttview.Strings.{trim_space}
use mqttview.Api.Series.{
  Json, Members, null, array, number, boolean, text, object, no_members, member, Numbers, dot,
  parse_number, get_member, find_path, number_of, number_there, numeric_at, under, max_depth,
  member_paths, walk_paths, document_paths, collect_numeric_paths,
}

-- A key that can be part of a path.
pub record IsKey (key : Bytes) : Type 0 where
  pub not_empty : is_empty key ≡ false
  pub no_dot : contains_byte dot key ≡ false

-- All keys of a document can be part of a path, and those of one object are distinct.
unfoldable mutual
  pub IsKeyed : Json → Type 0
  IsKeyed (object members) = AreKeyed members
  IsKeyed doc = Unit {0}

  pub AreKeyed : Members → Type 0
  AreKeyed no_members = Unit {0}
  AreKeyed (member key value rest) =
      IsKey key × (get_member key rest ≡ none) × IsKeyed value × AreKeyed rest

split_key : (key : Bytes) → contains_byte dot key ≡ false → split dot key ≡ key ∷ []
unfolding split contains_byte push_byte
split_key [] h = refl
split_key (b ∷ key) h = let ih = split_key key (ground (arith, h)) in ground (arith, h, ih)

split_key-append :
    (key rest : Bytes)
    → contains_byte dot key ≡ false
    → split dot (key ++ dot ∷ rest) ≡ key ∷ split dot rest
unfolding split contains_byte push_byte
split_key-append [] rest h = refl
split_key-append (b ∷ key) rest h =
    let ih = split_key-append key rest (ground (arith, h)) in ground (arith, h, ih)

-- A path below a prefix at which a document has a number.
record IsCharted (numbers : Numbers) (prefix : Bytes) (doc : Json) (path : Bytes) : Type 0 where
  field : Bytes
  below : path ≡ under prefix field
  not_empty : is_empty field ≡ false
  found : is_some (number_there numbers (find_path (split dot field) doc)) ≡ true

find_path-member :
    (key k : Bytes) (value : Json) (rest : Members) (keys : List Bytes)
    → find_path (k ∷ keys) (object (member key value rest))
      ≡ (if bytes_eq key k then find_path keys value else find_path (k ∷ keys) (object rest))
unfolding find_path get_member
find_path-member key k value rest keys = ground arith

is_empty-append : (s t : Bytes) → is_empty s ≡ false → is_empty (s ++ t) ≡ false
is_empty-append [] t h = absurd (ground (arith, h))
is_empty-append (b ∷ s) t h = refl

-- A member that holds no object, where it has a number.
own_path :
    (numbers : Numbers) (prefix key : Bytes) (value : Json) (rest : Members)
    → IsKey key
    → All
        (IsCharted numbers prefix (object (member key value rest)))
        (if is_some (number_of numbers value) then under prefix key ∷ [] else [])
unfolding find_path get_member
own_path numbers prefix key value rest h = elim (Bool-cases (is_some (number_of numbers value))) [
  | inl y ↦ rw y (
    record {
      field = key;
      below = refl;
      not_empty = h.not_empty;
      found =
          rw (split_key key h.no_dot, find_path-member key key value rest [], bytes_eq_refl key) y;
    },
    tt,
  )
  | inr y ↦ rw y tt
]

under-under :
    (prefix key field : Bytes)
    → is_empty key ≡ false
    → under (under prefix key) field ≡ under prefix (key ++ dot ∷ field)
under-under [] [] field h = absurd (ground (arith, h))
under-under [] (b ∷ key) field h = refl
under-under (a ∷ prefix) key field h = ap (◌∷◌ a) (append_assoc prefix (dot ∷ key) (dot ∷ field))

-- A path of an object that a member holds.
inner_path :
    (numbers : Numbers) (prefix key : Bytes) (value : Json) (rest : Members) (path : Bytes)
    → IsKey key
    → IsCharted numbers (under prefix key) value path
    → IsCharted numbers prefix (object (member key value rest)) path
unfolding find_path get_member
inner_path numbers prefix key value rest path h c = record {
  field = key ++ dot ∷ c.field;
  below = c.below ∙ under-under prefix key c.field h.not_empty;
  not_empty = is_empty-append key (dot ∷ c.field) h.not_empty;
  found =
      rw
        (
          split_key-append key c.field h.no_dot,
          find_path-member key key value rest (split dot c.field),
          bytes_eq_refl key,
        )
        c.found;
}

-- A member that is there is not hidden by one with another key.
still_found :
    (numbers : Numbers) (key : Bytes) (value : Json) (rest : Members) (keys : List Bytes)
    → get_member key rest ≡ none
    → is_some (number_there numbers (find_path keys (object rest))) ≡ true
    → is_some (number_there numbers (find_path keys (object (member key value rest)))) ≡ true
unfolding find_path get_member number_of
still_found numbers key value rest [] h e = cc
still_found numbers key value rest (k ∷ keys) h e = elim (Bool-cases (bytes_eq key k)) [
  | inl y ↦
      let gone : get_member k rest ≡ none =
        subst (λ (x : Bytes). get_member x rest ≡ none) ((bytes_eq_iff key k).0 y) h in
      absurd (ground (arith, gone, e))
  | inr y ↦ rw (find_path-member key k value rest keys, y) e
]

-- A path of the members that follow.
later_path :
    (numbers : Numbers) (prefix key : Bytes) (value : Json) (rest : Members) (path : Bytes)
    → get_member key rest ≡ none
    → IsCharted numbers prefix (object rest) path
    → IsCharted numbers prefix (object (member key value rest)) path
later_path numbers prefix key value rest path h c = record {
  field = c.field;
  below = c.below;
  not_empty = c.not_empty;
  found = still_found numbers key value rest (split dot c.field) h c.found;
}

member_walked :
    (numbers : Numbers) (prefix key : Bytes) (value : Json) (rest : Members) (depth : ℕ)
    → get_member key rest ≡ none
    → All
        (IsCharted numbers prefix (object (member key value rest)))
        (member_paths numbers (under prefix key) depth value)
    → All (IsCharted numbers prefix (object rest)) (walk_paths numbers prefix depth rest)
    → All
        (IsCharted numbers prefix (object (member key value rest)))
        (walk_paths numbers prefix depth (member key value rest))
unfolding walk_paths
member_walked numbers prefix key value rest depth h own later =
    All-append (IsCharted numbers prefix (object (member key value rest)))
      (member_paths numbers (under prefix key) depth value) (walk_paths numbers prefix depth rest)
      own
      (All-map (IsCharted numbers prefix (object rest))
        (IsCharted numbers prefix (object (member key value rest)))
        (walk_paths numbers prefix depth rest)
        (λ path c. later_path numbers prefix key value rest path h c) later)

walk_paths-IsCharted :
    (numbers : Numbers) (prefix : Bytes) (depth : ℕ) (members : Members)
    → AreKeyed members
    → All (IsCharted numbers prefix (object members)) (walk_paths numbers prefix depth members)
unfolding walk_paths AreKeyed
walk_paths-IsCharted numbers prefix depth no_members h = tt
walk_paths-IsCharted numbers prefix depth (member key null rest) h =
    member_walked numbers prefix key null rest depth h.1 tt
      (walk_paths-IsCharted numbers prefix depth rest h.3)
walk_paths-IsCharted numbers prefix depth (member key array rest) h =
    member_walked numbers prefix key array rest depth h.1 tt
      (walk_paths-IsCharted numbers prefix depth rest h.3)
walk_paths-IsCharted numbers prefix depth (member key (number v) rest) h =
    member_walked numbers prefix key (number v) rest depth h.1
      (own_path numbers prefix key (number v) rest h.0)
      (walk_paths-IsCharted numbers prefix depth rest h.3)
walk_paths-IsCharted numbers prefix depth (member key (boolean v) rest) h =
    member_walked numbers prefix key (boolean v) rest depth h.1
      (own_path numbers prefix key (boolean v) rest h.0)
      (walk_paths-IsCharted numbers prefix depth rest h.3)
walk_paths-IsCharted numbers prefix depth (member key (text v) rest) h =
    member_walked numbers prefix key (text v) rest depth h.1
      (own_path numbers prefix key (text v) rest h.0)
      (walk_paths-IsCharted numbers prefix depth rest h.3)
walk_paths-IsCharted numbers prefix depth (member key (object members) rest) h =
    member_walked numbers prefix key (object members) rest depth h.1
      (if_both (All (IsCharted numbers prefix (object (member key (object members) rest))))
        (ltb max_depth (depth + 1)) tt
        (All-map (IsCharted numbers (under prefix key) (object members))
          (IsCharted numbers prefix (object (member key (object members) rest)))
          (walk_paths numbers (under prefix key) (depth + 1) members)
          (λ path c. inner_path numbers prefix key (object members) rest path h.0 c)
          (walk_paths-IsCharted numbers (under prefix key) (depth + 1) members h.2)))
      (walk_paths-IsCharted numbers prefix depth rest h.3)

document_paths-numeric :
    (numbers : Numbers) (payload : Bytes) (doc : Json)
    → IsKeyed doc
    → numbers.unmarshal payload ≡ some doc
    → All
        (λ (field : Bytes). is_some (numeric_at numbers payload field) ≡ true)
        (document_paths numbers (some doc))
unfolding IsKeyed
document_paths-numeric numbers payload null h e = tt
document_paths-numeric numbers payload array h e = tt
document_paths-numeric numbers payload (number v) h e = tt
document_paths-numeric numbers payload (boolean v) h e = tt
document_paths-numeric numbers payload (text v) h e = tt
document_paths-numeric numbers payload (object members) h e =
    All-map (IsCharted numbers [] (object members))
      (λ (field : Bytes). is_some (numeric_at numbers payload field) ≡ true)
      (walk_paths numbers [] 0 members)
      (λ path c.
        subst (λ (x : Bytes). is_some (numeric_at numbers payload x) ≡ true) (sym c.below)
          (unfold numeric_at in rw (c.not_empty, e) c.found))
      (walk_paths-IsCharted numbers [] 0 members h)

-- Every path that `collectNumericPaths` offers for a payload is one at which `numericAt` finds a
-- number in it, if the payload parses to a document in which no key is empty or has a dot and the
-- keys of an object are distinct.
pub collect_numeric_paths-numeric :
    (numbers : Numbers) (payload : Bytes) (doc : Json)
    → IsKeyed doc
    → numbers.unmarshal payload ≡ some doc
    → All
        (λ (field : Bytes). is_some (numeric_at numbers payload field) ≡ true)
        (collect_numeric_paths numbers payload)
unfolding collect_numeric_paths
collect_numeric_paths-numeric numbers payload doc h e =
    elim (Bool-cases (is_some (parse_number numbers (trim_space payload)))) [
      | inl y ↦ rw y (unfold numeric_at in y, tt)
      | inr y ↦ rw (y, e) (document_paths-numeric numbers payload doc h e)
    ]
