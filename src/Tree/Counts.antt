-- ===== src/Tree/Counts.antt =====
-- What the counters of each node say of what stands below it.
use mqttview.Common.{
  ℕ, ◌+◌, ◌%◌, ◌≤◌, u64_mod, ◌≡◌, inl, inr, Bool, true, false, Option, none, some, Bytes, bytes_eq,
  Bool-cases, arith, subst,
}
use mqttview.Tree.{TreeNode, node, Children, end, child, Info, info_of, get_child, set_child}

abbrev pub topics_below : Children → ℕ
topics_below end = 0
topics_below (child _ n cs) = (info_of n).sub_topics + topics_below cs

abbrev pub messages_below : Children → ℕ
messages_below end = 0
messages_below (child _ n cs) = (info_of n).sub_messages + messages_below cs

abbrev pub AllBefore : Children → ℕ → Type 0
AllBefore end time = Unit {0}
AllBefore (child _ n cs) time = ((info_of n).sub_updated_at ≤ time) × AllBefore cs time

abbrev pub one_if : Bool → ℕ
one_if true = 1
one_if false = 0

-- What the counters of a node say of it and its children.
pub record Counts (i : Info) (cs : Children) : Type 0 where
  pub topics : i.sub_topics ≡ one_if i.has_value + topics_below cs
  pub messages : i.sub_messages ≡ (i.count + messages_below cs) % u64_mod
  pub updated : i.updated_at ≤ i.sub_updated_at
  pub updated_below : AllBefore cs i.sub_updated_at

unfoldable mutual
  pub IsCounted : TreeNode → Type 0
  IsCounted (node i cs) = Counts i cs × AllCounted cs

  pub AllCounted : Children → Type 0
  AllCounted end = Unit {0}
  AllCounted (child _ n cs) = IsCounted n × AllCounted cs

-- What a child counts that may be missing.
abbrev pub topics_of : Option TreeNode → ℕ
topics_of none = 0
topics_of (some n) = (info_of n).sub_topics

abbrev pub messages_of : Option TreeNode → ℕ
messages_of none = 0
messages_of (some n) = (info_of n).sub_messages

pub topics_below-set_child :
    (level : Bytes) (n : TreeNode) (cs : Children)
    → topics_below (set_child level n cs) + topics_of (get_child level cs)
      ≡ topics_below cs + (info_of n).sub_topics
unfolding set_child get_child
topics_below-set_child level n end = omega arith
topics_below-set_child level n (child k o cs) = ground (arith, topics_below-set_child level n cs)

pub messages_below-set_child :
    (level : Bytes) (n : TreeNode) (cs : Children)
    → messages_below (set_child level n cs) + messages_of (get_child level cs)
      ≡ messages_below cs + (info_of n).sub_messages
unfolding set_child get_child
messages_below-set_child level n end = omega arith
messages_below-set_child level n (child k o cs) =
    ground (arith, messages_below-set_child level n cs)

pub AllBefore-le : (cs : Children) (s t : ℕ) → s ≤ t → AllBefore cs s → AllBefore cs t
AllBefore-le end s t h b = tt
AllBefore-le (child k n cs) s t h b = (omega arith, AllBefore-le cs s t h b.1)

pub AllBefore-set_child :
    (level : Bytes) (n : TreeNode) (cs : Children) (t : ℕ)
    → AllBefore cs t
    → (info_of n).sub_updated_at ≤ t
    → AllBefore (set_child level n cs) t
unfolding set_child
AllBefore-set_child level n end t b h = (h, tt)
AllBefore-set_child level n (child k o cs) t b h = elim (Bool-cases (bytes_eq k level)) [
  | inl y ↦ rw y (h, b.1)
  | inr y ↦ rw y (b.0, AllBefore-set_child level n cs t b.1 h)
]

pub get_child-AllBefore :
    (level : Bytes) (n : TreeNode) (cs : Children) (t : ℕ)
    → AllBefore cs t
    → get_child level cs ≡ some n
    → (info_of n).sub_updated_at ≤ t
unfolding get_child
get_child-AllBefore level n end t b e = cc
get_child-AllBefore level n (child k o cs) t b e = elim (Bool-cases (bytes_eq k level)) [
  | inl y ↦
      let same : o ≡ n = ground (arith, y, e) in
      subst (λ (x : TreeNode). (info_of x).sub_updated_at ≤ t) same b.0
  | inr y ↦ get_child-AllBefore level n cs t b.1 (ground (arith, y, e))
]

pub AllCounted-set_child :
    (level : Bytes) (n : TreeNode) (cs : Children)
    → AllCounted cs
    → IsCounted n
    → AllCounted (set_child level n cs)
unfolding set_child IsCounted
AllCounted-set_child level n end h g = (g, tt)
AllCounted-set_child level n (child k o cs) h g = elim (Bool-cases (bytes_eq k level)) [
  | inl y ↦ rw y (g, h.1)
  | inr y ↦ rw y (h.0, AllCounted-set_child level n cs h.1 g)
]

pub get_child-IsCounted :
    (level : Bytes) (n : TreeNode) (cs : Children)
    → AllCounted cs
    → get_child level cs ≡ some n
    → IsCounted n
unfolding get_child IsCounted
get_child-IsCounted level n end h e = cc
get_child-IsCounted level n (child k o cs) h e = elim (Bool-cases (bytes_eq k level)) [
  | inl y ↦ subst IsCounted (ground (arith, y, e)) h.0
  | inr y ↦ get_child-IsCounted level n cs h.1 (ground (arith, y, e))
]
