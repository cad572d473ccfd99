-- ===== src/Tree/Reads.antt =====
-- internal/mqttc/tree.go: what the tree answers. An `int` that may be negative is an integer.
use mqttview.Common.{
  ℕ, zero, suc, ◌+◌, Bool, true, false, ◌&&◌, ◌||◌, Option, none, some, List, [], ◌∷◌, ◌++◌, map,
  Bytes, bytes_lt, contains_text, ℤ, or_default, length, take, ltb, leb, ◌==◌, keep_if,
  if◌then◌else◌,
}
use mqttview.Common.Sort.{sort_by}
use mqttview.Strings.{trim_space}
use mqttview.Message.{Time}
use mqttview.Topic.{match_filter, is_empty}
use mqttview.Tree.{
  Tree, TreeNode, node, Children, end, child, info_of, children, find_node, TopicValue, node_value,
}

abbrev pub payload_preview_bytes : ℕ
payload_preview_bytes = 512

unfoldable pub preview_payload : Bytes → Bytes
preview_payload p = if leb (length p) payload_preview_bytes then p else take payload_preview_bytes p

pub record NodeView : Type 0 where
  pub name : Bytes
  pub topic : Bytes
  pub child_count : ℕ
  pub topic_count : ℕ
  pub messages : ℕ
  pub value : Option TopicValue

-- `len(n.children)`
unfoldable pub child_count : Children → ℕ
child_count end = 0
child_count (child _ _ cs) = suc (child_count cs)

unfoldable pub export_node : Bool → TreeNode → NodeView
unfolding child_count node_value preview_payload
export_node with_value (node i cs) =
    let full = node_value (node i cs) in
    let preview = record full {
      payload = preview_payload i.payload;
      truncated = i.truncated || ltb payload_preview_bytes (length i.payload);
    } in
    record {
      name = i.name;
      topic = i.topic;
      child_count = child_count cs;
      topic_count = i.sub_topics;
      messages = i.sub_messages;
      value =
          if i.has_value && with_value
          then some full
          else if i.has_value
          then some preview
          else none;
    }

unfoldable pub child_nodes : Children → List TreeNode
child_nodes end = []
child_nodes (child _ n cs) = n ∷ child_nodes cs

-- `none` where the bool is false, here and in `Node`.
unfoldable pub children_of : Bytes → Tree → Option (List NodeView)
unfolding find_node child_nodes export_node
children_of prefix t = elim (find_node prefix t) [
  | none ↦ none
  | some n ↦ some (
      sort_by (λ (a b : NodeView). bytes_lt a.name b.name)
        (map (export_node false) (child_nodes (children n))))
]

unfoldable pub node_view : Bytes → Tree → Option NodeView
unfolding find_node export_node
node_view topic t = elim (find_node topic t) [ none ↦ none | some n ↦ some (export_node true n) ]

-- `walk` with a function that collects the nodes.
unfoldable mutual
  pub walk : TreeNode → List TreeNode
  walk (node i cs) = node i cs ∷ walk_children cs

  pub walk_children : Children → List TreeNode
  walk_children end = []
  walk_children (child _ n cs) = walk n ++ walk_children cs

unfoldable pub matches : Bytes → TreeNode → Bool
matches filter n = (info_of n).has_value && match_filter filter (info_of n).topic

unfoldable pub match_values : Bytes → ℤ → Tree → List TopicValue
unfolding matches walk node_value
match_values filter limit t = take (or_default 500 limit) (
    sort_by (λ (a b : TopicValue). ltb b.updated_at a.updated_at)
      (map node_value (keep_if (matches filter) (walk t.root))))

-- `strings.ToLower` is a parameter.
module _ (to_lower : Bytes → Bytes) where
  unfoldable pub holds_text : Bytes → TreeNode → Bool
  holds_text needle n = (info_of n).has_value && contains_text (to_lower (info_of n).topic) needle

  unfoldable pub search_values : Bytes → ℤ → Tree → List TopicValue
  unfolding holds_text walk node_value
  search_values query limit t =
      let needle = to_lower (trim_space query) in
      if is_empty needle
      then []
      else take (or_default 200 limit) (
          sort_by (λ (a b : TopicValue). bytes_lt a.topic b.topic)
            (map node_value (keep_if (holds_text needle) (walk t.root))))

pub record GraphNode : Type 0 where
  pub name : Bytes
  pub topic : Bytes
  pub depth : ℕ
  pub messages : ℕ
  pub topics : ℕ
  pub children : ℕ
  pub updated_at : Time
  pub truncated : Bool

-- The variables of `Graph`.
pub record Drawing : Type 0 where
  pub out : List GraphNode
  pub next : List TreeNode
  pub truncated : Bool

unfoldable pub graph_node : ℕ → ℕ → TreeNode → GraphNode
unfolding child_count
graph_node max_depth depth (node i cs) = record {
  name = i.name;
  topic = i.topic;
  depth = depth;
  messages = i.sub_messages;
  topics = i.sub_topics;
  children = child_count cs;
  updated_at = i.sub_updated_at;
  truncated = (depth == max_depth) && ltb 0 (child_count cs);
}

unfoldable pub loudest_first : TreeNode → List TreeNode
unfolding child_nodes
loudest_first n =
    sort_by (λ (a b : TreeNode). ltb (info_of b).sub_messages (info_of a).sub_messages)
      (child_nodes (children n))

module _ (max_depth max_nodes depth : ℕ) where
  unfoldable pub draw_child : TreeNode → Drawing → Drawing
  unfolding graph_node
  draw_child n d = record d {
    out = d.out ++ graph_node max_depth depth n ∷ [];
    next = if ltb depth max_depth then d.next ++ n ∷ [] else d.next;
  }

  -- The loop over the children of one parent.
  unfoldable pub draw_children : List TreeNode → Drawing → Drawing
  unfolding draw_child
  draw_children [] d = d
  draw_children (n ∷ ns) d =
      let rest = draw_children ns (draw_child n d) in
      if leb max_nodes (length d.out) then record d { truncated = true } else rest

  -- The loop over the parents of one level.
  unfoldable pub draw_level : List TreeNode → Drawing → Drawing
  unfolding draw_children loudest_first
  draw_level [] d = d
  draw_level (parent ∷ parents) d =
      let drawn = draw_children (loudest_first parent) d in
      let rest = draw_level parents drawn in
      if leb max_nodes (length drawn.out) then record drawn { truncated = true } else rest

-- The loop over the depths; the first argument is the number of rounds left.
unfoldable pub draw_levels : ℕ → ℕ → ℕ → ℕ → Drawing → Drawing
unfolding draw_level
draw_levels zero max_depth max_nodes depth d = d
draw_levels (suc rounds) max_depth max_nodes depth d =
    let below = draw_level max_depth max_nodes depth d.next (record d { next = [] }) in
    let rest = draw_levels rounds max_depth max_nodes (depth + 1) below in
    if length d.next == 0 then d else rest

unfoldable pub graph : ℤ → ℤ → Tree → List GraphNode × Time × Bool
unfolding draw_levels
graph depth_limit node_limit t =
    let max_depth = or_default 3 depth_limit in
    let max_nodes = or_default 500 node_limit in
    let d =
      draw_levels max_depth max_depth max_nodes 1
        (record { out = []; next = t.root ∷ []; truncated = false }) in
    (d.out, (info_of t.root).sub_updated_at, d.truncated)
