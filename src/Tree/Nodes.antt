-- ===== src/Tree/Nodes.antt =====
-- One walk of `Record`: what is found below the node afterwards.
use mqttview.Common.{
  ℕ, ◌+◌, ◌%◌, u64_mod, ◌≡◌, refl, sym, ap, inl, inr, Bool, false, Option, none, some, List, [],
  ◌∷◌, ◌++◌, Bytes, bytes_eq, bytes_eq_iff, join, length, take, ltb, if◌then◌else◌, >>=-eq-some,
  Bool-cases, arith, subst,
}
use mqttview.Message.{Message}
use mqttview.Topic.{slash}
use mqttview.Tree.{
  TreeNode, node, Children, end, child, Info, new_node, get_child, set_child, store, count_up,
  record_under, find_under, reach, TopicValue, node_value, shown, max_stored_payload,
}

-- What `Value` answers for the levels below a node.
abbrev pub value_under : List Bytes → TreeNode → Option TopicValue
value_under levels n = shown (find_under levels n)

-- The count of the value that is count_held, if any.
abbrev pub count_held : Option TopicValue → ℕ
count_held none = 0
count_held (some v) = v.count

-- A message as the last value of a topic, after some others.
abbrev pub described : Bytes → Message → ℕ → TopicValue
described topic m before = record {
  topic = topic;
  payload =
      if ltb max_stored_payload (length m.payload)
      then take max_stored_payload m.payload
      else m.payload;
  truncated = ltb max_stored_payload (length m.payload);
  size = length m.payload;
  qos = m.qos;
  retain = m.retain;
  updated_at = m.received_at;
  count = (before + 1) % u64_mod;
}

pub get_child-set_child :
    (level key : Bytes) (n : TreeNode) (cs : Children)
    → get_child key (set_child level n cs)
      ≡ (if bytes_eq level key then some n else get_child key cs)
unfolding get_child set_child
get_child-set_child level key n end = refl
get_child-set_child level key n (child k o cs) =
    let ih = get_child-set_child level key n cs in
    ground (arith, bytes_eq_iff k level, bytes_eq_iff k key, bytes_eq_iff level key)

-- Each node below `done` carries the levels that lead to it, and counts no value that is not count_held.
unfoldable mutual
  pub IsNamed : List Bytes → TreeNode → Type 0
  IsNamed done (node i cs) =
      (i.topic ≡ join slash done) × (i.has_value ≡ false → i.count ≡ 0) × AllNamed done cs

  pub AllNamed : List Bytes → Children → Type 0
  AllNamed done end = Unit {0}
  AllNamed done (child k n cs) = IsNamed (done ++ k ∷ []) n × AllNamed done cs

pub new_node-IsNamed :
    (name : Bytes) (done : List Bytes) → IsNamed done (new_node name (join slash done))
unfolding IsNamed new_node
new_node-IsNamed name done = (refl, λ _. refl, tt)

pub get_child-IsNamed :
    (done : List Bytes) (level : Bytes) (cs : Children) (n : TreeNode)
    → AllNamed done cs
    → get_child level cs ≡ some n
    → IsNamed (done ++ level ∷ []) n
unfolding IsNamed get_child
get_child-IsNamed done level end n h e = cc
get_child-IsNamed done level (child k o cs) n h e = elim (Bool-cases (bytes_eq k level)) [
  | inl y ↦
      let found : o ≡ n = ground (arith, y, e) in
      subst (λ x. IsNamed (done ++ level ∷ []) x) found
        (subst (λ x. IsNamed (done ++ x ∷ []) o) ((bytes_eq_iff k level).0 y) h.0)
  | inr y ↦ get_child-IsNamed done level cs n h.1 (ground (arith, y, e))
]

pub set_child-AllNamed :
    (done : List Bytes) (level : Bytes) (n : TreeNode) (cs : Children)
    → AllNamed done cs
    → IsNamed (done ++ level ∷ []) n
    → AllNamed done (set_child level n cs)
unfolding IsNamed set_child
set_child-AllNamed done level n end h g = (g, tt)
set_child-AllNamed done level n (child k o cs) h g = elim (Bool-cases (bytes_eq k level)) [
  | inl y ↦ rw y (subst (λ x. IsNamed (done ++ x ∷ []) n) (sym ((bytes_eq_iff k level).0 y)) g, h.1)
  | inr y ↦ rw y (h.0, set_child-AllNamed done level n cs h.1 g)
]

-- What a step of the walk did, where the walk was not given up.
pub record Stepped (full : Bool) (m : Message) (done : List Bytes) (level : Bytes)
    (levels : List Bytes) (i : Info) (cs : Children) (n' : TreeNode) (fresh : Bool) : Type 0 where
  pub met : TreeNode
  pub under : TreeNode
  pub reached : reach full (done ++ level ∷ []) level (get_child level cs) ≡ some met
  pub walked : record_under full m (done ++ level ∷ []) levels met ≡ some (under, fresh)
  pub result : n' ≡ node (count_up m fresh i) (set_child level under cs)

pub record_under-cons :
    (full : Bool) (m : Message) (done : List Bytes) (level : Bytes) (levels : List Bytes) (i : Info)
    (cs : Children) (n' : TreeNode) (fresh : Bool)
    → record_under full m done (level ∷ levels) (node i cs) ≡ some (n', fresh)
    → Stepped full m done level levels i cs n' fresh
unfolding record_under
record_under-cons full m done level levels i cs n' fresh e =
    let (met, reached, e') =
      >>=-eq-some (reach full (done ++ level ∷ []) level (get_child level cs)) _ e in
    let ((under, f), walked, e'') =
      >>=-eq-some (record_under full m (done ++ level ∷ []) levels met) _ e' in
    record {
      met = met;
      under = under;
      reached = reached;
      walked =
          subst (λ g. record_under full m (done ++ level ∷ []) levels met ≡ some (under, g)) (cc)
            walked;
      result = cc;
    }

-- The walk changes the counters of a node on the path and not what it shows.
pub shown-count_up :
    (m : Message) (fresh : Bool) (i : Info) (cs ds : Children)
    → shown (some (node (count_up m fresh i) cs)) ≡ shown (some (node i ds))
unfolding count_up node_value
shown-count_up m fresh i cs ds = refl

count_held-shown :
    (i : Info) (cs : Children)
    → (i.has_value ≡ false → i.count ≡ 0)
    → count_held (shown (some (node i cs))) ≡ i.count
unfolding node_value
count_held-shown i cs h = elim (Bool-cases i.has_value) [ inl y ↦ rw y | inr y ↦ rw y (sym (h y)) ]

pub shown-store :
    (m : Message) (fresh : Bool) (i : Info) (cs ds : Children) (topic : Bytes)
    → i.topic ≡ topic
    → (i.has_value ≡ false → i.count ≡ 0)
    → shown (some (node (count_up m fresh (store m i)) cs))
      ≡ some (described topic m (count_held (shown (some (node i ds)))))
unfolding count_up store node_value
shown-store m fresh i cs ds topic named empty =
    rw (count_held-shown i ds empty) (ap (λ (t : Bytes). some (described t m i.count)) named)
