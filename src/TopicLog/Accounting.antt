-- ===== src/TopicLog/Accounting.antt =====
-- The byte counts are the sizes of what is held, and the budget is met after every `Add`.
use mqttview.Common.{
  ℕ, zero, suc, ◌≤◌, ◌<◌, ◌≡◌, refl, sym, ◌∙◌, ◌⊎◌, inl, inr, none, List, [], ◌∷◌, ◌++◌, Bytes,
  bytes_eq, bytes_eq_iff, length, All, Bool-cases, arith, subst, All-append_left, foldl, pos,
  negsuc, ℤ, or_default,
}
use mqttview.Message.{Message}
use mqttview.TopicLog.{
  TopicRing, TopicLog, find, without, write, ring_for, record_message, add, clip, new_topic_log,
  entries_per_topic, default_topic_log_budget,
}
use mqttview.TopicLog.Eviction.{Evicts, evict-Evicts}
use mqttview.TopicLog.Rings.{
  IsTopicRing, write_bytes, write-IsTopicRing, All-without, Distinct, IsLog, ring_for_lem,
}

find-without_self : (t : Bytes) (rs : List TopicRing) → Distinct rs → find t (without t rs) ≡ none
unfolding find without
find-without_self t [] d = refl
find-without_self t (s ∷ rs) d = elim (Bool-cases (bytes_eq s.topic t)) [
  | inl y ↦ rw y (subst (λ k. find k rs ≡ none) ((bytes_eq_iff s.topic t).0 y) d.0)
  | inr n ↦ ground (arith, find-without_self t rs d.1)
]

find-without-none :
    (t u : Bytes) (rs : List TopicRing) → find u rs ≡ none → find u (without t rs) ≡ none
unfolding find without
find-without-none t u [] e = refl
find-without-none t u (s ∷ rs) e = ground (arith, find-without-none t u rs)

Distinct-without : (t : Bytes) (rs : List TopicRing) → Distinct rs → Distinct (without t rs)
unfolding without
Distinct-without t [] d = tt
Distinct-without t (s ∷ rs) d = elim (Bool-cases (bytes_eq s.topic t)) [
  | inl y ↦ rw y d.1
  | inr n ↦ rw n (find-without-none t s.topic rs d.0, Distinct-without t rs d.1)
]

find-append_none :
    (t : Bytes) (rs ss : List TopicRing) → find t (rs ++ ss) ≡ none → find t rs ≡ none
unfolding find
find-append_none t [] ss e = refl
find-append_none t (r ∷ rs) ss e = ground (arith, find-append_none t rs ss)

Distinct-append_left : (rs ss : List TopicRing) → Distinct (rs ++ ss) → Distinct rs
Distinct-append_left [] ss d = tt
Distinct-append_left (r ∷ rs) ss d =
    (find-append_none r.topic rs ss d.0, Distinct-append_left rs ss d.1)

record_message-IsLog : (l : TopicLog) (m : Message) → IsLog l → IsLog (record_message l m)
unfolding record_message
record_message-IsLog l m v =
    let (ring, topic, part) = ring_for_lem l m.topic v in
    let (below, sum) = write_bytes l.per_topic (ring_for l m.topic) m ring in
    record {
      positive = v.positive;
      rings = (
        write-IsTopicRing l.per_topic (ring_for l m.topic) m ring,
        All-without (IsTopicRing l.per_topic) m.topic l.order v.rings,
      );
      bytes = unfold write in omega (arith, v.bytes);
      distinct =
          unfold write in
          (
            subst (λ k. find k (without m.topic l.order) ≡ none) (sym topic)
                (find-without_self m.topic l.order v.distinct),
            Distinct-without m.topic l.order v.distinct,
          );
    }

Evicts-IsLog : {l l' : TopicLog} {r : TopicRing} → Evicts l r l' → IsLog l → IsLog l'
Evicts-IsLog {l} {l'} e v = record {
  positive = subst (λ k. 0 < k) (sym e.per_topic) v.positive;
  rings =
      subst (λ k. All (IsTopicRing k) l'.order) (sym e.per_topic)
        (All-append_left (IsTopicRing l.per_topic) l'.order e.dropped
          (subst (All (IsTopicRing l.per_topic)) e.whole v.rings));
  bytes = e.bytes v.bytes;
  distinct = Distinct-append_left l'.order e.dropped (subst Distinct e.whole v.distinct);
}

-- How `Add` ends: topics dropped from the back, behind the ring that it wrote.
pub add-Evicts :
    (l : TopicLog) (m : Message)
    → Evicts (record_message l (clip m)) (write (ring_for l (clip m).topic) (clip m)) (add l m)
unfolding add
add-Evicts l m =
    evict-Evicts (record_message l (clip m)) (write (ring_for l (clip m).topic) (clip m))
      (without (clip m).topic l.order) (unfold record_message in refl)

pub add-IsLog : (l : TopicLog) (m : Message) → IsLog l → IsLog (add l m)
add-IsLog l m v = Evicts-IsLog (add-Evicts l m) (record_message-IsLog l (clip m) v)

entries_per_topic_pos : (n : ℤ) → 0 < entries_per_topic n
unfolding entries_per_topic
entries_per_topic_pos (pos zero) = ground arith
entries_per_topic_pos (pos (suc n)) = ground arith
entries_per_topic_pos (negsuc n) = ground arith

pub new_topic_log-IsLog : (n b : ℤ) → IsLog (new_topic_log n b)
unfolding new_topic_log
new_topic_log-IsLog n b = record {
  positive = entries_per_topic_pos n;
  rings = tt;
  bytes = refl;
  distinct = tt;
}

pub record IsAccounted (per_topic budget : ℕ) (l : TopicLog) : Type 0 where
  pub valid : IsLog l
  pub per_topic_kept : l.per_topic ≡ per_topic
  pub budget_kept : l.budget ≡ budget
  pub within : (l.bytes ≤ budget) ⊎ (length l.order ≡ 1)

add-IsAccounted :
    (p b : ℕ) (l : TopicLog) (m : Message) → IsAccounted p b l → IsAccounted p b (add l m)
add-IsAccounted p b l m a =
    let e = add-Evicts l m in
    let same : (record_message l (clip m)).budget ≡ l.budget = unfold record_message in refl in
    let same' : (record_message l (clip m)).per_topic ≡ l.per_topic =
      unfold record_message in refl in
    let kept : (add l m).budget ≡ b = e.budget ∙ same ∙ a.budget_kept in
    record {
      valid = add-IsLog l m a.valid;
      per_topic_kept = e.per_topic ∙ same' ∙ a.per_topic_kept;
      budget_kept = kept;
      within = subst (λ k. ((add l m).bytes ≤ k) ⊎ (length (add l m).order ≡ 1)) kept e.settled;
    }

foldl-add-IsAccounted :
    (p b : ℕ) (l : TopicLog) (ms : List Message)
    → IsAccounted p b l
    → IsAccounted p b (foldl add l ms)
foldl-add-IsAccounted p b l [] a = a
foldl-add-IsAccounted p b l (m ∷ ms) a =
    foldl-add-IsAccounted p b (add l m) ms (add-IsAccounted p b l m a)

new_topic_log-IsAccounted :
    (n b : ℤ)
    → IsAccounted (entries_per_topic n) (or_default default_topic_log_budget b) (new_topic_log n b)
unfolding new_topic_log
new_topic_log-IsAccounted n b = record {
  valid = new_topic_log-IsLog n b;
  per_topic_kept = refl;
  budget_kept = refl;
  within = inl (omega arith);
}

-- Whatever is added to a new log, its byte count is the number of payload bytes in its rings, no
-- topic has two rings, each ring is in bounds, and the count is within the budget or one topic
-- is left.
pub adds-IsAccounted :
    (n b : ℤ) (ms : List Message)
    → IsAccounted
        (entries_per_topic n)
        (or_default default_topic_log_budget b)
        (foldl add (new_topic_log n b) ms)
adds-IsAccounted n b ms =
    foldl-add-IsAccounted _ _ (new_topic_log n b) ms (new_topic_log-IsAccounted n b)
