-- ===== src/Plc/Mapping/Described.antt =====
-- How a point is described after a person has named it.
use mqttview.Common.{
  ◌≡◌, refl, sym, ap, ◌∙◌, subst, inl, inr, Bool, true, false, not, ◌||◌, is_some, arith, [], ◌∷◌,
  Option, none, some, Bytes, bytes_eq, bytes_eq_refl, lookup, insert, delete, lookup-insert,
  lookup-delete, if◌then◌else◌, ap_if, Bool-cases,
}
use mqttview.Strings.{trim_space}
use mqttview.Topic.{is_empty}
use mqttview.Plc.Mapping.{
  Mapping, ConnState, Registry, state, Description, existing, empty, set_mapping, published,
  entered, describe_point, SensorMeta, prefer,
}

-- The state of a connection after it was written.
state-insert :
    (r : Registry) (id j : Bytes) (c : ConnState)
    → state (insert id c r) j ≡ (if bytes_eq id j then c else state r j)
unfolding state
state-insert r id j c =
    ap existing (lookup-insert id j c r)
    ∙ ap_if existing (bytes_eq id j) (some c) (lookup j r)
    ∙ ap (λ k. if bytes_eq id j then k else existing (lookup j r)) (unfold existing in refl)

-- What one mapping does to a connection's mappings.
unfoldable pub written : Bytes → Mapping → ConnState → ConnState
written name m c =
    if empty m
    then record c { mappings = delete name c.mappings }
    else record c { mappings = insert name (record m { name = name }) c.mappings }

set_mapping-written :
    (r : Registry) (id name : Bytes) (m : Mapping)
    → is_empty (trim_space name) ≡ false
    → set_mapping id name m r ≡ insert id (written (trim_space name) m (state r id)) r
unfolding set_mapping written
set_mapping-written r id name m full = elim (Bool-cases (empty m)) [
  | inl y ↦ rw (full, y) refl
  | inr n ↦ rw (full, n) refl
]

written_cleared :
    (name : Bytes) (m : Mapping) (c : ConnState)
    → empty m ≡ true
    → written name m c ≡ record c { mappings = delete name c.mappings }
unfolding written
written_cleared name m c y = rw y refl

written_named :
    (name : Bytes) (m : Mapping) (c : ConnState)
    → empty m ≡ false
    → written name m c ≡ record c { mappings = insert name (record m { name = name }) c.mappings }
unfolding written
written_named name m c n = rw n refl

-- A description, from what is found in the mappings.
abbrev told : ConnState → Bytes → Option Mapping → Description
told c other o = entered o (published (lookup other c.meta))

written-described :
    (name other : Bytes) (m : Mapping) (c : ConnState)
    → describe_point (written name m c) other ≡ (
        if bytes_eq name other
        then told c other (if empty m then none else some m)
        else describe_point c other)
unfolding describe_point
written-described name other m c = elim (Bool-cases (empty m)) [
  | inl y ↦
      let look = lookup-delete name other c.mappings in
      let first : describe_point (written name m c) other
          ≡ told c other (lookup other (delete name c.mappings)) =
        ap (λ k. describe_point k other) (written_cleared name m c y) in
      rw y (
        first
        ∙ ap (told c other) look
        ∙ ap_if (told c other) (bytes_eq name other) none (lookup other c.mappings))
  | inr n ↦
      let m' = record m { name = name } in
      let look = lookup-insert name other m' c.mappings in
      let first : describe_point (written name m c) other
          ≡ told c other (lookup other (insert name m' c.mappings)) =
        ap (λ k. describe_point k other) (written_named name m c n) in
      let same : told c other (some m') ≡ told c other (some m) = (unfold entered in refl) in
      rw n (
        first
        ∙ ap (told c other) look
        ∙ ap_if (told c other) (bytes_eq name other) (some m') (lookup other c.mappings)
        ∙ ap (λ k. if bytes_eq name other then k else told c other (lookup other c.mappings)) same)
]

-- A text, or another one where it is empty.
abbrev pub or_else : Bytes → Bytes → Bytes
or_else [] other = other
or_else (b ∷ s) other = b ∷ s

abbrev pub is_filled : Bytes → Bool
is_filled [] = false
is_filled (_ ∷ _) = true

-- A text that the PLC may have published.
abbrev pub text_of : (SensorMeta → Bytes) → Option SensorMeta → Bytes
text_of field none = []
text_of field (some s) = field s

abbrev pub zone_of : Option SensorMeta → Bool
zone_of none = false
zone_of (some s) = s.alarm_zone

-- What is shown of a point, from what was entered and what the PLC published.
pub record IsShown (m : Mapping) (o : Option SensorMeta) (d : Description) : Type 0 where
  pub label : d.label ≡ or_else m.label (text_of (λ s. s.name) o)
  pub location : d.location ≡ or_else m.location (text_of (λ s. s.location) o)
  pub sensor_type : d.sensor_type ≡ or_else m.type (text_of (λ s. s.type) o)
  pub alarm_zone : d.alarm_zone ≡ zone_of o
  pub known : d.known ≡ (
      is_some o
      || is_filled m.label
      || is_filled m.location
      || is_filled m.type
      || is_filled m.notes)

prefer-or_else : (s other : Bytes) → prefer s other ≡ or_else s other
prefer-or_else [] other = refl
prefer-or_else (b ∷ s) other = refl

is_empty_filled : (s : Bytes) → is_filled s ≡ not (is_empty s)
is_empty_filled [] = refl
is_empty_filled (b ∷ s) = refl

or_else_empty : (s other : Bytes) → is_empty s ≡ true → or_else s other ≡ other
or_else_empty [] other h = refl
or_else_empty (b ∷ s) other h = absurd (ground (arith, h))

published-text :
    (o : Option SensorMeta)
    → ((published o).label ≡ text_of (λ s. s.name) o)
      × ((published o).location ≡ text_of (λ s. s.location) o)
      × ((published o).sensor_type ≡ text_of (λ s. s.type) o)
      × ((published o).alarm_zone ≡ zone_of o)
      × ((published o).known ≡ is_some o)
unfolding published
published-text none = (refl, refl, refl, refl, refl)
published-text (some s) = (refl, refl, refl, refl, refl)

entered-IsShown :
    (m : Mapping) (o : Option SensorMeta)
    → IsShown m o (entered (if empty m then none else some m) (published o))
unfolding entered empty
entered-IsShown m o =
    let p = published-text o in
    let l = is_empty_filled m.label in
    let c = is_empty_filled m.location in
    let k = is_empty_filled m.type in
    let n = is_empty_filled m.notes in
    elim (Bool-cases (empty m)) [
      | inl y ↦ rw y record {
        label = p.0 ∙ sym (or_else_empty m.label _ (ground (arith, y)));
        location = p.1 ∙ sym (or_else_empty m.location _ (ground (arith, y)));
        sensor_type = p.2 ∙ sym (or_else_empty m.type _ (ground (arith, y)));
        alarm_zone = p.3;
        known = p.4 ∙ ground (arith, y, l, c, k, n);
      }
      | inr y ↦ rw y record {
        label = ap (prefer m.label) p.0 ∙ prefer-or_else m.label _;
        location = ap (prefer m.location) p.1 ∙ prefer-or_else m.location _;
        sensor_type = ap (prefer m.type) p.2 ∙ prefer-or_else m.type _;
        alarm_zone = p.3;
        known = ground (arith, y, l, c, k, n);
      }
    ]

-- After `SetMapping` with a name that is not blank, the label, the location and the type of the
-- point of that name are what was entered where that is not empty, and what the PLC published
-- otherwise; its alarm zone is the PLC's; and it is known where the PLC published it or anything
-- was entered, the notes included. Other points of the connection, and the other connections, are
-- as they were.
pub set_mapping-described :
    (r : Registry) (id name : Bytes) (m : Mapping)
    → is_empty (trim_space name) ≡ false
    → IsShown m
        (lookup (trim_space name) (state r id).meta)
        (describe_point (state (set_mapping id name m r) id) (trim_space name))
      × ((other : Bytes)
          → bytes_eq (trim_space name) other ≡ false
          → describe_point (state (set_mapping id name m r) id) other
            ≡ describe_point (state r id) other)
      × ((j : Bytes) → bytes_eq id j ≡ false → state (set_mapping id name m r) j ≡ state r j)
set_mapping-described r id name m full =
    let name' = trim_space name in
    let c = state r id in
    let stored = λ (j : Bytes).
      ap (λ x. state x j) (set_mapping-written r id name m full)
      ∙ state-insert r id j (written name' m c) in
    let own : state (set_mapping id name m r) id ≡ written name' m c =
      stored id ∙ rw (bytes_eq_refl id) refl in
    let shown : describe_point (state (set_mapping id name m r) id) name'
        ≡ entered (if empty m then none else some m) (published (lookup name' c.meta)) =
      ap (λ k. describe_point k name') own
      ∙ written-described name' name' m c
      ∙ rw (bytes_eq_refl name') refl in
    (
      subst (IsShown m (lookup name' c.meta)) (sym shown) (entered-IsShown m (lookup name' c.meta)),
      λ other differ.
          ap (λ k. describe_point k other) own ∙ written-described name' other m c ∙ rw differ refl,
      λ j differ. stored j ∙ rw differ refl,
    )
