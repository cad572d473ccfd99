-- ===== src/Tree/Latest.antt =====
-- The tree after a run of messages shows the last message of each topic.
use mqttview.Common.{
  ◌+◌, ◌%◌, ◌≤◌, ◌<◌, u64_mod, ◌≡◌, refl, sym, ap, ap₂, ◌∙◌, ◌≢◌, inl, inr, Bool, true, false,
  Option, none, some, List, [], ◌∷◌, ◌++◌, append_assoc, append-nil, Bytes, bytes_eq, bytes_eq_iff,
  split, split_injective, join, join-split, length, length-append, keep_if, keep_if-append,
  if◌then◌else◌, Bool-cases, Option-cases, arith, subst,
}
use mqttview.Message.{Message}
use mqttview.Topic.{slash}
use mqttview.Tree.{
  Tree, TreeNode, node, new_node, new_tree, get_child, record_under, fold_in, counted_in, find_node,
  last_value, reach, TopicValue, max_topics,
}
use mqttview.Tree.Nodes.{value_under, count_held, described, IsNamed}
use mqttview.Tree.Values.{
  record_under-IsNamed, value_under-record_under, value_under_other, value_under-new_node,
}

abbrev pub final : Message → List Message → Message
final m [] = m
final m (n ∷ ms) = final n ms

-- The last of the messages of a topic, with their number.
abbrev pub summary : Bytes → List Message → Option TopicValue
summary topic [] = none
summary topic (m ∷ ms) = some (described topic (final m ms) (length ms))

abbrev pub is_about : Bytes → Message → Bool
is_about topic m = bytes_eq m.topic topic

abbrev pub last_seen : Bytes → List Message → Option TopicValue
last_seen topic ms = summary topic (keep_if (is_about topic) ms)

abbrev pub fold_all : List Message → Tree → Tree
fold_all [] t = t
fold_all (m ∷ ms) t = fold_all ms (fold_in m t)

final-append : (m n : Message) (ms : List Message) → final m (ms ++ n ∷ []) ≡ n
final-append m n [] = refl
final-append m n (x ∷ ms) = final-append x n ms

summary-append :
    (topic : Bytes) (ms : List Message) (m : Message)
    → summary topic (ms ++ m ∷ []) ≡ some (described topic m (count_held (summary topic ms)))
summary-append topic [] m = refl
summary-append topic (x ∷ ms) m =
    let l = length-append ms (m ∷ []) in
    let count : (length (ms ++ m ∷ []) + 1) % u64_mod ≡ ((length ms + 1) % u64_mod + 1) % u64_mod =
      omega arith in
    rw (final-append x m ms, count)

pub last_seen-append :
    (topic : Bytes) (ms : List Message) (m : Message)
    → last_seen topic (ms ++ m ∷ []) ≡ (
        if bytes_eq m.topic topic
        then some (described topic m (count_held (last_seen topic ms)))
        else last_seen topic ms)
last_seen-append topic ms m = elim (Bool-cases (bytes_eq m.topic topic)) [
  | inl y ↦
      rw (keep_if-append (is_about topic) ms (m ∷ []), y)
        (summary-append topic (keep_if (is_about topic) ms) m)
  | inr y ↦
      rw (keep_if-append (is_about topic) ms (m ∷ []), y, append-nil (keep_if (is_about topic) ms))
]

-- A tree that is not full takes every message.
record_under_total :
    (m : Message) (done ls : List Bytes) (n : TreeNode)
    → (p : TreeNode × Bool) × (record_under false m done ls n ≡ some p)
unfolding record_under reach
record_under_total m done [] (node i cs) = (_, refl)
record_under_total m done (level ∷ ls) (node i cs) = elim (Option-cases (get_child level cs)) [
  | inl absent ↦
      let (p, e) =
        record_under_total m (done ++ level ∷ []) ls
          (new_node level (join slash (done ++ level ∷ []))) in
      rw (absent, e) (_, refl)
  | inr (n, there) ↦
      let (p, e) = record_under_total m (done ++ level ∷ []) ls n in rw (there, e) (_, refl)
]

record Holds (ms : List Message) (t : Tree) : Type 0 where
  named : IsNamed [] t.root
  values : (topic : Bytes) → value_under (split slash topic) t.root ≡ last_seen topic ms
  counted : t.topics ≤ length ms
  filled : t.full ≡ true → max_topics ≤ t.topics

new_tree-Holds : Holds [] new_tree
unfolding new_tree new_node IsNamed join
new_tree-Holds = record {
  named = (refl, λ _. refl, tt);
  values = λ topic. value_under-new_node [] [] (split slash topic);
  counted = omega arith;
  filled = λ e. cc;
}

counted_in-Holds :
    (ms : List Message) (m : Message) (t : Tree) (root : TreeNode) (fresh : Bool)
    → record_under t.full m [] (split slash m.topic) t.root ≡ some (root, fresh)
    → Holds ms t
    → Holds (ms ++ m ∷ []) (counted_in t (some (root, fresh)))
unfolding counted_in
counted_in-Holds ms m t root fresh e h =
    let len = length-append ms (m ∷ []) in
    record {
      named = record_under-IsNamed t.full m [] (split slash m.topic) t.root root fresh e h.named;
      values = λ topic. elim (Bool-cases (bytes_eq m.topic topic)) [
        | inl y ↦
            let same = (bytes_eq_iff m.topic topic).0 y in
            let new =
              value_under-record_under t.full m [] (split slash m.topic) t.root root fresh e
                h.named in
            ap (λ k. value_under (split slash k) root) (sym same)
            ∙ new
            ∙ ap₂ (λ k v. some (described k m (count_held v))) (join-split slash m.topic ∙ same)
                (h.values m.topic ∙ ap (λ k. last_seen k ms) same)
            ∙ sym (last_seen-append topic ms m ∙ rw y refl)
        | inr y ↦
            let differs : split slash m.topic ≢ split slash topic =
              λ q. cc (y, (bytes_eq_iff m.topic topic).1 (split_injective slash m.topic topic q)) in
            value_under_other t.full m [] (split slash m.topic) (split slash topic) t.root root
              fresh e differs
            ∙ h.values topic
            ∙ sym (last_seen-append topic ms m ∙ rw y refl)
      ];
      counted = ground (arith, h.counted, len);
      filled = λ f. ground (arith, h.filled, f);
    }

fold_in-Holds :
    (ms : List Message) (m : Message) (t : Tree)
    → length ms < max_topics
    → Holds ms t
    → Holds (ms ++ m ∷ []) (fold_in m t)
unfolding fold_in
fold_in-Holds ms m t room h =
    let has_room : t.full ≡ false = ground (arith, h.counted, h.filled) in
    let ((root, fresh), e) = record_under_total m [] (split slash m.topic) t.root in
    let e' : record_under t.full m [] (split slash m.topic) t.root ≡ some (root, fresh) =
      rw has_room e in
    subst (λ o. Holds (ms ++ m ∷ []) (counted_in t o)) (sym e')
      (counted_in-Holds ms m t root fresh e' h)

fold_all-Holds :
    (ms ns : List Message) (t : Tree)
    → length ms + length ns ≤ max_topics
    → Holds ms t
    → Holds (ms ++ ns) (fold_all ns t)
fold_all-Holds ms [] t room h = subst (λ l. Holds l t) (sym (append-nil ms)) h
fold_all-Holds ms (m ∷ ns) t room h =
    let len = length-append ms (m ∷ []) in
    subst (λ l. Holds l (fold_all ns (fold_in m t))) (append_assoc ms (m ∷ []) ns)
      (fold_all-Holds (ms ++ m ∷ []) ns (fold_in m t) (omega arith)
        (fold_in-Holds ms m t (omega arith) h))

-- After at most `maxTopics` messages, `Value` of a topic that is not the empty text gives the
-- payload, cut to 256 KiB, the size, QoS, retain flag and time of the last message of that topic,
-- with the number of its messages modulo 2^64; it gives nothing where no message had the topic.
pub last_value-last_seen :
    (ms : List Message) (topic : Bytes)
    → length ms ≤ max_topics
    → topic ≢ []
    → last_value topic (fold_all ms new_tree) ≡ last_seen topic ms
unfolding last_value find_node
last_value-last_seen ms [] room n = absurd (n refl)
last_value-last_seen ms (b ∷ topic) room n =
    let h = fold_all-Holds [] ms new_tree (omega arith) new_tree-Holds in h.values (b ∷ topic)
