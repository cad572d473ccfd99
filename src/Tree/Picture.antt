-- ===== src/Tree/Picture.antt =====
-- What `Graph` draws, described without the way it is drawn.
use mathlib.Core.List.Perm
use mathlib.Core.List.{Perm}
use mqttview.Common.{
  ℕ, zero, suc, ◌+◌, ◌≤◌, ◌≡◌, refl, sym, ap, ap₂, ◌∙◌, inl, inr, Bool, true, false, ◌&&◌, List, [],
  ◌∷◌, ◌++◌, map, ℤ, or_default, length, take, ltb, leb, ◌==◌, if◌then◌else◌, Bool-cases, arith,
  All, All-map, subst,
}
use mqttview.Common.Sort.{sort_by, insert_sorted, All-insert_sorted}
use mqttview.Tree.{Tree, TreeNode, node, Children, end, child, info_of, children}
use mqttview.Tree.Reads.{GraphNode, graph_node, graph, child_nodes, child_count, loudest_first}
use mqttview.Tree.Level.{all_children}
use mqttview.Tree.Graph.{breadth, graph_lem}

abbrev pub messages_of : TreeNode → ℕ
messages_of n = (info_of n).sub_messages

-- None has fewer messages than one behind it.
abbrev pub IsLoudestFirst : List TreeNode → Type 0
IsLoudestFirst [] = Unit {0}
IsLoudestFirst (n ∷ ns) = All (λ m. messages_of m ≤ messages_of n) ns × IsLoudestFirst ns

-- The children of the nodes of a level: those of each node together, in an order of their messages.
abbrev pub IsArranged : List TreeNode → List TreeNode → Type 0
IsArranged [] cs = cs ≡ []
IsArranged (n ∷ level) cs =
    (own : List TreeNode) × (others : List TreeNode) × Perm own (child_nodes (children n))
    × IsLoudestFirst own
    × IsArranged level others
    × (cs ≡ own ++ others)

-- How a node is shown; at the last depth it is cut where it has children.
abbrev pub shown_at : Bool → ℕ → TreeNode → GraphNode
shown_at last depth n = record {
  name = (info_of n).name;
  topic = (info_of n).topic;
  depth = depth;
  messages = (info_of n).sub_messages;
  topics = (info_of n).sub_topics;
  children = length (child_nodes (children n));
  updated_at = (info_of n).sub_updated_at;
  truncated = if last then ltb 0 (length (child_nodes (children n))) else false;
}

abbrev pub is_zero : ℕ → Bool
is_zero zero = true
is_zero (suc n) = false

-- The nodes below a level, breadth first, down to as many levels as are left.
abbrev pub IsBreadthFirst : ℕ → ℕ → List TreeNode → List GraphNode → Type 0
IsBreadthFirst zero depth level nodes = nodes ≡ []
IsBreadthFirst (suc left) depth level nodes =
    (cs : List TreeNode) × (below : List GraphNode) × IsArranged level cs
    × IsBreadthFirst left (depth + 1) cs below
    × (nodes ≡ map (shown_at (is_zero left) depth) cs ++ below)

-- The sort.
abbrev louder : TreeNode → TreeNode → Bool
louder a b = ltb (messages_of b) (messages_of a)

insert_sorted-perm : (n : TreeNode) (l : List TreeNode) → Perm (insert_sorted louder n l) (n ∷ l)
unfolding insert_sorted
insert_sorted-perm n [] = Perm.refl (n ∷ [])
insert_sorted-perm n (m ∷ l) = elim (Bool-cases (louder m n)) [
  | inl y ↦ rw y (Perm.trans (Perm.cons m (insert_sorted-perm n l)) (Perm.swap n m l))
  | inr y ↦ rw y (Perm.refl (n ∷ m ∷ l))
]

sort_by-perm : (l : List TreeNode) → Perm (sort_by louder l) l
unfolding sort_by
sort_by-perm [] = Perm.refl []
sort_by-perm (n ∷ l) =
    Perm.trans (insert_sorted-perm n (sort_by louder l)) (Perm.cons n (sort_by-perm l))

insert_sorted-IsLoudestFirst :
    (n : TreeNode) (l : List TreeNode)
    → IsLoudestFirst l
    → IsLoudestFirst (insert_sorted louder n l)
unfolding insert_sorted
insert_sorted-IsLoudestFirst n [] h = (tt, tt)
insert_sorted-IsLoudestFirst n (m ∷ l) h = elim (Bool-cases (louder m n)) [
  | inl y ↦ rw y (
    All-insert_sorted louder (λ k. messages_of k ≤ messages_of m) n l (ground (arith, y)) h.0,
    insert_sorted-IsLoudestFirst n l h.1,
  )
  | inr y ↦
      let fewer : messages_of m ≤ messages_of n = ground (arith, y) in
      rw y (
        (
          fewer,
          All-map (λ k. messages_of k ≤ messages_of m) (λ k. messages_of k ≤ messages_of n) l
              (λ k g. omega arith) h.0,
        ),
        h,
      )
]

sort_by-IsLoudestFirst : (l : List TreeNode) → IsLoudestFirst (sort_by louder l)
unfolding sort_by
sort_by-IsLoudestFirst [] = tt
sort_by-IsLoudestFirst (n ∷ l) =
    insert_sorted-IsLoudestFirst n (sort_by louder l) (sort_by-IsLoudestFirst l)

all_children-IsArranged : (level : List TreeNode) → IsArranged level (all_children level)
unfolding loudest_first
all_children-IsArranged [] = refl
all_children-IsArranged (n ∷ level) = (
  loudest_first n,
  all_children level,
  sort_by-perm (child_nodes (children n)),
  sort_by-IsLoudestFirst (child_nodes (children n)),
  all_children-IsArranged level,
  refl,
)

child_count-length : (cs : Children) → child_count cs ≡ length (child_nodes cs)
unfolding child_count child_nodes
child_count-length end = refl
child_count-length (child _ _ cs) = ap suc (child_count-length cs)

truncated-shown_at :
    (left depth : ℕ) (cs : Children)
    → ((depth == left + depth) && ltb 0 (child_count cs))
      ≡ (if is_zero left then ltb 0 (length (child_nodes cs)) else false)
truncated-shown_at zero depth cs = ground (arith, child_count-length cs)
truncated-shown_at (suc left) depth cs = ground arith

graph_node-shown_at :
    (left depth : ℕ) (n : TreeNode)
    → graph_node (left + depth) depth n ≡ shown_at (is_zero left) depth n
unfolding graph_node
graph_node-shown_at left depth (node i cs) =
    ap₂
      (λ (k : ℕ) (t : Bool). record {
        name = i.name;
        topic = i.topic;
        depth = depth;
        messages = i.sub_messages;
        topics = i.sub_topics;
        children = k;
        updated_at = i.sub_updated_at;
        truncated = t;
      })
      (child_count-length cs) (truncated-shown_at left depth cs)

map-shown_at :
    (max_depth left depth : ℕ) (cs : List TreeNode)
    → left + depth ≡ max_depth
    → map (graph_node max_depth depth) cs ≡ map (shown_at (is_zero left) depth) cs
map-shown_at max_depth left depth [] h = refl
map-shown_at max_depth left depth (n ∷ cs) h =
    ap₂ (λ (x : GraphNode) (l : List GraphNode). x ∷ l)
      (ap (λ k. graph_node k depth n) (sym h) ∙ graph_node-shown_at left depth n)
      (map-shown_at max_depth left depth cs h)

breadth-IsBreadthFirst :
    (max_depth left depth : ℕ) (level : List TreeNode)
    → left + depth ≡ max_depth + 1
    → IsBreadthFirst left depth level (breadth max_depth left depth level)
breadth-IsBreadthFirst max_depth zero depth level h = refl
breadth-IsBreadthFirst max_depth (suc zero) depth level h = (
  all_children level,
  [],
  all_children-IsArranged level,
  refl,
  ap (λ l. l ++ []) (map-shown_at max_depth zero depth (all_children level) (omega arith)),
)
breadth-IsBreadthFirst max_depth (suc (suc left)) depth level h =
    let cs = all_children level in
    let room : ltb depth max_depth ≡ true = ground (arith, h) in
    let next = if ltb depth max_depth then cs else [] in
    let same : next ≡ cs = rw room refl in
    (
      cs,
      breadth max_depth (suc left) (depth + 1) next,
      all_children-IsArranged level,
      subst
          (λ (l : List TreeNode).
            IsBreadthFirst (suc left) (depth + 1) cs (breadth max_depth (suc left) (depth + 1) l))
          (sym same) (breadth-IsBreadthFirst max_depth (suc left) (depth + 1) cs (omega arith)),
      ap (λ l. l ++ breadth max_depth (suc left) (depth + 1) next)
          (map-shown_at max_depth (suc left) depth cs (omega arith)),
    )

-- `Graph` returns, of the nodes of the tree down to the depth, the first `maxNodes`, breadth first,
-- where the children of a node stand together and none has fewer messages than one behind it; each
-- is shown with its own counts and times, and one of the last depth that has children as truncated.
-- `Graph` says that it truncated exactly when there are as many nodes as `maxNodes` or more, also
-- where all of them are kept, and gives the time of the newest message. A depth or a number that is
-- not positive is 3 or 500.
pub graph-IsBreadthFirst :
    (depth_limit node_limit : ℤ) (t : Tree)
    → (nodes : List GraphNode) × IsBreadthFirst (or_default 3 depth_limit) 1 (t.root ∷ []) nodes
      × (graph depth_limit node_limit t ≡ (
        take (or_default 500 node_limit) nodes,
        (info_of t.root).sub_updated_at,
        leb (or_default 500 node_limit) (length nodes),
      ))
graph-IsBreadthFirst depth_limit node_limit t = (
  breadth (or_default 3 depth_limit) (or_default 3 depth_limit) 1 (t.root ∷ []),
  breadth-IsBreadthFirst (or_default 3 depth_limit) (or_default 3 depth_limit) 1 (t.root ∷ []) refl,
  graph_lem depth_limit node_limit t,
)
