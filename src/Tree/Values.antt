-- ===== src/Tree/Values.antt =====
-- `Record` and `Value` refine a map from each topic to its last message.
use mqttview.Common.{
  ◌≡◌, refl, sym, ap, ap₂, ◌∙◌, ◌≢◌, inl, inr, Bool, true, false, not, Option, none, some, List, [],
  ◌∷◌, ◌++◌, append_assoc, append-nil, Bytes, bytes_eq, bytes_eq_iff, bytes_eq_refl, join, ◌>>=◌,
  Bool-cases, Option-cases, arith, subst,
}
use mqttview.Message.{Message}
use mqttview.Topic.{slash}
use mqttview.Tree.{
  TreeNode, node, Children, new_node, get_child, set_child, store, count_up, record_under,
  find_under, reach, TopicValue, shown,
}
use mqttview.Tree.Nodes.{
  value_under, count_held, described, IsNamed, AllNamed, get_child-set_child, new_node-IsNamed,
  get_child-IsNamed, set_child-AllNamed, record_under-cons, shown-count_up, shown-store,
}

pub value_under-new_node :
    (name topic : Bytes) (ls : List Bytes) → value_under ls (new_node name topic) ≡ none
unfolding new_node find_under
value_under-new_node name topic [] = refl
value_under-new_node name topic (level ∷ ls) = refl

-- A node that was met shows what the path showed before, and is named as the path says.
value_under-reach :
    (full : Bool) (next : List Bytes) (level : Bytes) (o : Option TreeNode) (met : TreeNode)
    (ls : List Bytes)
    → reach full next level o ≡ some met
    → value_under ls met ≡ shown (o >>= find_under ls)
unfolding reach
value_under-reach full next level (some n) met ls e = ap (λ x. value_under ls x) (cc)
value_under-reach true next level none met ls e = cc
value_under-reach false next level none met ls e =
    let same : met ≡ new_node level (join slash next) = cc in
    ap (λ x. value_under ls x) same ∙ value_under-new_node level (join slash next) ls

reach-IsNamed :
    (full : Bool) (done : List Bytes) (level : Bytes) (cs : Children) (met : TreeNode)
    → AllNamed done cs
    → reach full (done ++ level ∷ []) level (get_child level cs) ≡ some met
    → IsNamed (done ++ level ∷ []) met
unfolding reach
reach-IsNamed full done level cs met h e = elim (Option-cases (get_child level cs)) [
  | inl absent ↦ elim (Bool-cases full) [
    | inl y ↦ absurd (ground (arith, absent, y, e))
    | inr y ↦
        subst (λ x. IsNamed (done ++ level ∷ []) x) (ground (arith, absent, y, e))
          (new_node-IsNamed level (done ++ level ∷ []))
  ]
  | inr (n, there) ↦
      subst (λ x. IsNamed (done ++ level ∷ []) x) (ground (arith, there, e))
        (get_child-IsNamed done level cs n h there)
]

pub record_under-IsNamed :
    (full : Bool) (m : Message) (done ls : List Bytes) (n n' : TreeNode) (fresh : Bool)
    → record_under full m done ls n ≡ some (n', fresh)
    → IsNamed done n
    → IsNamed done n'
unfolding record_under IsNamed
record_under-IsNamed full m done [] (node i cs) n' fresh e h =
    let same : n' ≡ node (count_up m (not i.has_value) (store m i)) cs = cc in
    subst (λ x. IsNamed done x) (sym same) (h.0, λ g. absurd (ground (arith, g)), h.2)
record_under-IsNamed full m done (level ∷ ls) (node i cs) n' fresh e h =
    let s = record_under-cons full m done level ls i cs n' fresh e in
    let named =
      record_under-IsNamed full m (done ++ level ∷ []) ls s.met s.under fresh s.walked
        (reach-IsNamed full done level cs s.met h.2 s.reached) in
    subst (λ x. IsNamed done x) (sym s.result)
      (h.0, h.1, set_child-AllNamed done level s.under cs h.2 named)

-- The topic that is recorded.
pub value_under-record_under :
    (full : Bool) (m : Message) (done ls : List Bytes) (n n' : TreeNode) (fresh : Bool)
    → record_under full m done ls n ≡ some (n', fresh)
    → IsNamed done n
    → value_under ls n'
      ≡ some (described (join slash (done ++ ls)) m (count_held (value_under ls n)))
unfolding record_under find_under IsNamed
value_under-record_under full m done [] (node i cs) n' fresh e h =
    let same : n' ≡ node (count_up m (not i.has_value) (store m i)) cs = cc in
    rw (same, append-nil done) (shown-store m (not i.has_value) i cs cs (join slash done) h.0 h.1)
value_under-record_under full m done (level ∷ ls) (node i cs) n' fresh e h =
    let s = record_under-cons full m done level ls i cs n' fresh e in
    let ih =
      value_under-record_under full m (done ++ level ∷ []) ls s.met s.under fresh s.walked
        (reach-IsNamed full done level cs s.met h.2 s.reached) in
    let before =
      value_under-reach full (done ++ level ∷ []) level (get_child level cs) s.met ls s.reached in
    rw (s.result, get_child-set_child level level s.under cs, bytes_eq_refl level)
      (ih
        ∙ ap₂
            (λ (t : List Bytes) (v : Option TopicValue).
              some (described (join slash t) m (count_held v)))
            (append_assoc done (level ∷ []) ls) before)

-- Every other topic.
pub value_under_other :
    (full : Bool) (m : Message) (done ls ks : List Bytes) (n n' : TreeNode) (fresh : Bool)
    → record_under full m done ls n ≡ some (n', fresh)
    → ls ≢ ks
    → value_under ks n' ≡ value_under ks n
unfolding record_under find_under
value_under_other full m done [] [] n n' fresh e d = absurd (d refl)
value_under_other full m done [] (k ∷ ks) (node i cs) n' fresh e d =
    let same : n' ≡ node (count_up m (not i.has_value) (store m i)) cs = cc in rw same
value_under_other full m done (level ∷ ls) [] (node i cs) n' fresh e d =
    let s = record_under-cons full m done level ls i cs n' fresh e in
    rw s.result (shown-count_up m fresh i (set_child level s.under cs) cs)
value_under_other full m done (level ∷ ls) (k ∷ ks) (node i cs) n' fresh e d =
    let s = record_under-cons full m done level ls i cs n' fresh e in
    let before =
      value_under-reach full (done ++ level ∷ []) level (get_child level cs) s.met ks s.reached in
    elim (Bool-cases (bytes_eq level k)) [
      | inl y ↦
          let same = (bytes_eq_iff level k).0 y in
          let ih =
            value_under_other full m (done ++ level ∷ []) ls ks s.met s.under fresh s.walked
              (λ q. d (cc)) in
          rw (s.result, get_child-set_child level k s.under cs, y)
            (ih ∙ before ∙ ap (λ x. shown (get_child x cs >>= find_under ks)) same)
      | inr y ↦ rw (s.result, get_child-set_child level k s.under cs, y)
    ]
