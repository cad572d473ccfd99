-- ===== src/Tree/Counting.antt =====
-- The counters that `Record` keeps at each node against what stands below it.
use mqttview.Common.{
  ℕ, ◌+◌, ◌%◌, ◌≤◌, u64_mod, ◌≡◌, refl, sym, ap, inl, inr, Bool, not, none, some, List, [], ◌∷◌,
  ◌++◌, Bytes, split, join, leb, ltb, if◌then◌else◌, Bool-cases, Option-cases, arith, subst,
}
use mqttview.Message.{Message}
use mqttview.Topic.{slash}
use mqttview.Tree.{
  Tree, TreeNode, node, Children, Info, info_of, new_node, new_tree, get_child, set_child, store,
  count_up, record_under, fold_in, counted_in, reach, max_topics,
}
use mqttview.Tree.Nodes.{record_under-cons}
use mqttview.Tree.Latest.{fold_all}
use mqttview.Tree.Counts.{
  AllBefore, one_if, Counts, IsCounted, AllCounted, topics_of, messages_of, topics_below-set_child,
  messages_below-set_child, AllBefore-le, AllBefore-set_child, get_child-AllBefore,
  AllCounted-set_child, get_child-IsCounted,
}

-- The child that the walk goes on from is counted, and no later than its parent.
record Met (level : Bytes) (cs : Children) (t : ℕ) (met : TreeNode) : Type 0 where
  counts : IsCounted met
  topics : topics_of (get_child level cs) ≡ (info_of met).sub_topics
  messages : messages_of (get_child level cs) ≡ (info_of met).sub_messages
  before : (info_of met).sub_updated_at ≤ t

new_node-Met :
    (level topic : Bytes) (cs : Children) (t : ℕ)
    → get_child level cs ≡ none
    → Met level cs t (new_node level topic)
unfolding new_node IsCounted
new_node-Met level topic cs t absent = record {
  counts = (omega arith, tt);
  topics = ap topics_of absent;
  messages = ap messages_of absent;
  before = omega arith;
}

reach-Met :
    (full : Bool) (next : List Bytes) (level : Bytes) (cs : Children) (t : ℕ) (met : TreeNode)
    → AllCounted cs
    → AllBefore cs t
    → reach full next level (get_child level cs) ≡ some met
    → Met level cs t met
unfolding reach
reach-Met full next level cs t met h b e = elim (Option-cases (get_child level cs)) [
  | inl absent ↦ elim (Bool-cases full) [
    | inl y ↦ absurd (ground (arith, absent, y, e))
    | inr y ↦
        subst (λ x. Met level cs t x) (ground (arith, absent, y, e))
          (new_node-Met level (join slash next) cs t absent)
  ]
  | inr (n, there) ↦
      subst (λ x. Met level cs t x) (ground (arith, there, e))
        record {
          counts = get_child-IsCounted level n cs h there;
          topics = ap topics_of there;
          messages = ap messages_of there;
          before = get_child-AllBefore level n cs t b there;
        }
]

-- How the walk changes the counters of the node that it starts from.
record Moved (m : Message) (n n' : TreeNode) (fresh : Bool) : Type 0 where
  counts : IsCounted n'
  topics : (info_of n').sub_topics ≡ (info_of n).sub_topics + one_if fresh
  messages : (info_of n').sub_messages ≡ ((info_of n).sub_messages + 1) % u64_mod
  updated : (info_of n').sub_updated_at ≡ (
      if ltb (info_of n).sub_updated_at m.received_at
      then m.received_at
      else (info_of n).sub_updated_at)

leaf-Counts :
    (m : Message) (i : Info) (cs : Children)
    → Counts i cs
    → Counts (count_up m (not i.has_value) (store m i)) cs
unfolding count_up store
leaf-Counts m i cs h = record {
  topics = ground (arith, h.topics);
  messages = let e = h.messages in omega arith;
  updated = ground arith;
  updated_below = AllBefore-le cs i.sub_updated_at _ (ground arith) h.updated_below;
}

inner-Counts :
    (m : Message) (fresh : Bool) (level : Bytes) (i : Info) (cs : Children) (met under : TreeNode)
    → Counts i cs
    → Met level cs i.sub_updated_at met
    → Moved m met under fresh
    → Counts (count_up m fresh i) (set_child level under cs)
unfolding count_up
inner-Counts m fresh level i cs met under h g v = record {
  topics = ground (arith, h.topics, g.topics, v.topics, topics_below-set_child level under cs);
  messages =
      let a = h.messages in
      let b = g.messages in
      let c = v.messages in let d = messages_below-set_child level under cs in omega arith;
  updated = ground (arith, h.updated);
  updated_below =
      AllBefore-set_child level under cs _
        (AllBefore-le cs i.sub_updated_at _ (ground arith) h.updated_below)
        (ground (arith, g.before, v.updated));
}

leaf-Moved :
    (m : Message) (i : Info) (cs : Children)
    → IsCounted (node i cs)
    → Moved m (node i cs) (node (count_up m (not i.has_value) (store m i)) cs) (not i.has_value)
unfolding IsCounted
leaf-Moved m i cs h = record {
  counts = (leaf-Counts m i cs h.0, h.1);
  topics = unfold count_up store in ground arith;
  messages = unfold count_up store in refl;
  updated = unfold count_up store in refl;
}

inner-Moved :
    (m : Message) (fresh : Bool) (level : Bytes) (i : Info) (cs : Children) (met under : TreeNode)
    → IsCounted (node i cs)
    → Met level cs i.sub_updated_at met
    → Moved m met under fresh
    → Moved m (node i cs) (node (count_up m fresh i) (set_child level under cs)) fresh
unfolding IsCounted
inner-Moved m fresh level i cs met under h g v = record {
  counts = (
    inner-Counts m fresh level i cs met under h.0 g v,
    AllCounted-set_child level under cs h.1 v.counts,
  );
  topics = unfold count_up in ground arith;
  messages = unfold count_up in refl;
  updated = unfold count_up in refl;
}

record_under-Moved :
    (full : Bool) (m : Message) (done ls : List Bytes) (n n' : TreeNode) (fresh : Bool)
    → record_under full m done ls n ≡ some (n', fresh)
    → IsCounted n
    → Moved m n n' fresh
unfolding record_under IsCounted
record_under-Moved full m done [] (node i cs) n' fresh e h =
    let same : node (count_up m (not i.has_value) (store m i)) cs ≡ n' = cc in
    let which : not i.has_value ≡ fresh = cc in
    subst (λ b. Moved m (node i cs) n' b) which
      (subst (λ x. Moved m (node i cs) x (not i.has_value)) same (leaf-Moved m i cs h))
record_under-Moved full m done (level ∷ ls) (node i cs) n' fresh e h =
    let s = record_under-cons full m done level ls i cs n' fresh e in
    let g =
      reach-Met full (done ++ level ∷ []) level cs i.sub_updated_at s.met h.1 h.0.updated_below
        s.reached in
    subst (λ x. Moved m (node i cs) x fresh) (sym s.result)
      (inner-Moved m fresh level i cs s.met s.under h g
        (record_under-Moved full m (done ++ level ∷ []) ls s.met s.under fresh s.walked g.counts))

-- A tree whose counters are those of its root, and whose root counts what stands below it.
pub record IsTree (t : Tree) : Type 0 where
  pub counts : IsCounted t.root
  pub topics : t.topics ≡ (info_of t.root).sub_topics
  pub messages : t.messages ≡ (info_of t.root).sub_messages
  pub full : t.full ≡ leb max_topics t.topics

new_tree-IsTree : IsTree new_tree
unfolding new_tree new_node IsCounted
new_tree-IsTree = record { counts = (omega arith, tt); topics = refl; messages = refl; full = refl }

fold_in-IsTree : (m : Message) (t : Tree) → IsTree t → IsTree (fold_in m t)
unfolding fold_in counted_in
fold_in-IsTree m t h = elim (Option-cases (record_under t.full m [] (split slash m.topic) t.root)) [
  | inl gone ↦ rw gone h
  | inr ((root, fresh), got) ↦
      let v = record_under-Moved t.full m [] (split slash m.topic) t.root root fresh got h.counts in
      rw got record {
        counts = v.counts;
        topics = ground (arith, h.topics, v.topics);
        messages = ground (arith, h.messages, v.messages);
        full = ground (arith, h.full);
      }
]

fold_all-IsTree_from : (ms : List Message) (t : Tree) → IsTree t → IsTree (fold_all ms t)
fold_all-IsTree_from [] t h = h
fold_all-IsTree_from (m ∷ ms) t h = fold_all-IsTree_from ms (fold_in m t) (fold_in-IsTree m t h)

-- After any messages, each node's `subTopics` is the number of its own value and of its children's
-- topics, its `subMessages` is its own count and its children's messages modulo 2^64, and its
-- `subUpdatedAt` is no earlier than its own update or a child's; the tree's topics and messages are
-- the root's, and it is full exactly when it has `maxTopics` topics or more.
pub fold_all-IsTree : (ms : List Message) → IsTree (fold_all ms new_tree)
fold_all-IsTree ms = fold_all-IsTree_from ms new_tree new_tree-IsTree
