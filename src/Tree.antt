-- ===== src/Tree.antt =====
-- internal/mqttc/tree.go: the hierarchy of topics with the last value and the counters of each.
-- The mutex makes each method one step. Pointers to nodes are never shared, so a node owns its
-- children; a map of children is an association list, and its order is the list's.
pub mod Nodes
pub mod Values
pub mod Latest
pub mod Counts
pub mod Counting
pub mod Reads
pub mod Level
pub mod Graph
pub mod Picture
use mqttview.Common.{
  ℕ, zero, suc, ◌+◌, ◌*◌, ◌^◌, ◌%◌, u64_mod, ◌≡◌, refl, Bool, true, false, not, ◌&&◌, ◌||◌, Option,
  none, some, List, [], ◌∷◌, ◌++◌, Bytes, bytes_eq, split, join, length, take, ltb, leb,
  if◌then◌else◌, ◌>>=◌,
}
use mqttview.Message.{Message, Time}
use mqttview.Topic.{slash}

abbrev pub max_stored_payload : ℕ
max_stored_payload = 256 * 1024

abbrev pub max_topics : ℕ
max_topics = 200_000

-- The fields of a node but its children.
pub record Info : Type 0 where
  pub name : Bytes
  pub topic : Bytes
  pub has_value : Bool
  pub payload : Bytes
  pub truncated : Bool
  pub size : ℕ
  pub qos : ℕ
  pub retain : Bool
  pub updated_at : Time
  pub count : ℕ
  pub sub_messages : ℕ
  pub sub_updated_at : Time
  pub sub_topics : ℕ

mutual
  pub data TreeNode : Type 0 where
    node : Info → Children → TreeNode

  pub data Children : Type 0 where
    end : Children
    child : Bytes → TreeNode → Children → Children

abbrev pub info_of : TreeNode → Info
info_of (node i _) = i

abbrev pub children : TreeNode → Children
children (node _ cs) = cs

pub record Tree : Type 0 where
  pub root : TreeNode
  pub topics : ℕ
  pub messages : ℕ
  pub full : Bool

-- A node that the walk of `Record` creates, and the root of `NewTree`.
unfoldable pub new_node : Bytes → Bytes → TreeNode
new_node name topic =
    node
      (record {
        name = name;
        topic = topic;
        has_value = false;
        payload = [];
        truncated = false;
        size = 0;
        qos = 0;
        retain = false;
        updated_at = 0;
        count = 0;
        sub_messages = 0;
        sub_updated_at = 0;
        sub_topics = 0;
      })
      end

unfoldable pub new_tree : Tree
unfolding new_node
new_tree = record { root = new_node [] []; topics = 0; messages = 0; full = false }

-- `cur.children[level]`
unfoldable pub get_child : Bytes → Children → Option TreeNode
get_child level end = none
get_child level (child key n cs) = if bytes_eq key level then some n else get_child level cs

-- `cur.children[level] = child`, and the write through the pointer that is count_held there.
unfoldable pub set_child : Bytes → TreeNode → Children → Children
set_child level new end = child level new end
set_child level new (child key n cs) =
    if bytes_eq key level then child key new cs else child key n (set_child level new cs)

-- The last value of a leaf.
unfoldable pub store : Message → Info → Info
store m i =
    let long = ltb max_stored_payload (length m.payload) in
    record i {
      has_value = true;
      payload = if long then take max_stored_payload m.payload else m.payload;
      truncated = long;
      size = length m.payload;
      qos = m.qos;
      retain = m.retain;
      updated_at = m.received_at;
      count = (i.count + 1) % u64_mod;
    }

-- The counters of each node of the path; `fresh` is that the leaf had no value.
unfoldable pub count_up : Message → Bool → Info → Info
count_up m fresh i = record i {
  sub_topics = if fresh then i.sub_topics + 1 else i.sub_topics;
  sub_messages = (i.sub_messages + 1) % u64_mod;
  sub_updated_at = if ltb i.sub_updated_at m.received_at then m.received_at else i.sub_updated_at;
}

-- The child that a level leads to, or a new one; `none` where the tree is full and has no child.
unfoldable pub reach : Bool → List Bytes → Bytes → Option TreeNode → Option TreeNode
unfolding new_node
reach full next level (some n) = some n
reach full next level none = if full then none else some (new_node level (join slash next))

-- The walk of `Record` and, on the way back, its two loops over the path: `done` are the levels
-- above, and the flag is that the leaf had no value. Where the tree is full and a level is
-- missing the method returns before it has changed anything, which is `none`.
unfoldable pub record_under :
    Bool → Message → List Bytes → List Bytes → TreeNode → Option (TreeNode × Bool)
unfolding get_child set_child store count_up reach
record_under full m done [] (node i cs) =
    let fresh = not i.has_value in some (node (count_up m fresh (store m i)) cs, fresh)
record_under full m done (level ∷ levels) (node i cs) =
    let next = done ++ level ∷ [] in
    let under : TreeNode → Option (TreeNode × Bool) = record_under full m next levels in
    do
      n ← reach full next level (get_child level cs)
      (n', fresh) ← under n
      some (node (count_up m fresh i) (set_child level n' cs), fresh)

-- What `Record` does after its walk.
unfoldable pub counted_in : Tree → Option (TreeNode × Bool) → Tree
counted_in t none = t
counted_in t (some (root, fresh)) =
    let topics = if fresh then t.topics + 1 else t.topics in
    record {
      root = root;
      topics = topics;
      messages = (t.messages + 1) % u64_mod;
      full = t.full || (fresh && leb max_topics topics);
    }

unfoldable pub fold_in : Message → Tree → Tree
unfolding record_under counted_in
fold_in m t = counted_in t (record_under t.full m [] (split slash m.topic) t.root)

-- The loop of `find`.
unfoldable pub find_under : List Bytes → TreeNode → Option TreeNode
unfolding get_child
find_under [] n = some n
find_under (level ∷ levels) (node i cs) =
    let under : TreeNode → Option TreeNode = find_under levels in get_child level cs >>= under

unfoldable pub find_node : Bytes → Tree → Option TreeNode
unfolding find_under
find_node [] t = some t.root
find_node (b ∷ topic) t = find_under (split slash (b ∷ topic)) t.root

pub record TopicValue : Type 0 where
  pub topic : Bytes
  pub payload : Bytes
  pub truncated : Bool
  pub size : ℕ
  pub qos : ℕ
  pub retain : Bool
  pub updated_at : Time
  pub count : ℕ

unfoldable pub node_value : TreeNode → TopicValue
node_value (node i _) = record {
  topic = i.topic;
  payload = i.payload;
  truncated = i.truncated;
  size = i.size;
  qos = i.qos;
  retain = i.retain;
  updated_at = i.updated_at;
  count = i.count;
}

-- What `Value` shows of a node that was found or not; `none` where its bool is false.
abbrev pub shown : Option TreeNode → Option TopicValue
shown none = none
shown (some n) = if (info_of n).has_value then some (node_value n) else none

unfoldable pub last_value : Bytes → Tree → Option TopicValue
unfolding find_node node_value
last_value topic t = shown (find_node topic t)

unfoldable pub counters : Tree → ℕ × ℕ × Bool
counters t = (t.topics, t.messages, t.full)

unfoldable pub clear_tree : Tree → Tree
unfolding new_tree
clear_tree t = new_tree
