-- ===== src/TopicLog/Rings.antt =====
-- The rings of the topics: what is found, what is left without one, and what `Add` writes.
use mqttview.Common.{
  ℕ, ◌+◌, ◌≤◌, ◌<◌, ◌≡◌, refl, sym, ap, ◌∙◌, inl, inr, none, some, List, [], ◌∷◌, ◌++◌, Bytes,
  bytes_eq, bytes_eq_iff, get_or, All, Bool-cases, Option-cases, arith, subst,
}
use mqttview.Message.{Message, zero_message}
use mqttview.Ring
use mqttview.Ring.{Ring}
use mqttview.Ring.Bounds.{IsRing, put-IsRing, new-IsRing, chronological-new}
use mqttview.Ring.Oldest.{
  chronological-put_open, chronological_oldest, chronological-put_full, after_oldest,
}
use mqttview.TopicLog.{
  TopicRing, TopicLog, find, without, size, replaced, new_ring, write, ring_for,
}
use mqttview.TopicLog.Eviction.{total}

-- The payload bytes of some messages.
abbrev pub sizes : List Message → ℕ
sizes [] = 0
sizes (m ∷ ms) = size m + sizes ms

sizes-append : (xs ys : List Message) → sizes (xs ++ ys) ≡ sizes xs + sizes ys
sizes-append [] ys = omega arith
sizes-append (x ∷ xs) ys = omega (arith, sizes-append xs ys)

pub record IsTopicRing (per_topic : ℕ) (r : TopicRing) : Type 0 where
  pub ring : IsRing per_topic r.ring
  pub bytes : r.bytes ≡ sizes (Ring.chronological r.ring)

-- The bytes that are subtracted are held, and the count stays right.
pub write_bytes :
    (p : ℕ) (r : TopicRing) (m : Message)
    → IsTopicRing p r
    → (replaced r.ring ≤ r.bytes)
      × (sizes (Ring.chronological (Ring.put r.ring m)) + replaced r.ring ≡ r.bytes + size m)
write_bytes p r m v = elim (Bool-cases r.ring.filled) [
  | inl e ↦
      let oldest = get_or r.ring.buf r.ring.next zero_message in
      let later = after_oldest p r.ring v.ring m in
      let s : replaced r.ring ≡ size oldest = unfold replaced in rw e refl in
      let before : r.bytes ≡ size oldest + sizes later =
        v.bytes ∙ ap sizes (chronological_oldest p r.ring v.ring m zero_message e) in
      let after : sizes (Ring.chronological (Ring.put r.ring m)) ≡ sizes later + size m =
        ap sizes (chronological-put_full p r.ring v.ring m e)
        ∙ omega (arith, sizes-append later (m ∷ [])) in
      (omega arith, omega arith)
  | inr e ↦
      let s : replaced r.ring ≡ 0 = unfold replaced in rw e refl in
      let after : sizes (Ring.chronological (Ring.put r.ring m)) ≡ r.bytes + size m =
        ap sizes (chronological-put_open p r.ring v.ring m e)
        ∙ omega (arith, sizes-append (Ring.chronological r.ring) (m ∷ []), v.bytes) in
      (omega arith, omega arith)
]

pub write-IsTopicRing :
    (p : ℕ) (r : TopicRing) (m : Message) → IsTopicRing p r → IsTopicRing p (write r m)
unfolding write
write-IsTopicRing p r m v = record {
  ring = put-IsRing m v.ring;
  bytes = let (below, sum) = write_bytes p r m v in omega arith;
}

module _ {κ} (P : TopicRing → Type κ) where
  All-find : (t : Bytes) (rs : List TopicRing) {r : TopicRing} → All P rs → find t rs ≡ some r → P r
  unfolding find
  All-find t [] h e = cc
  All-find t (s ∷ rs) h e = elim (Bool-cases (bytes_eq s.topic t)) [
    | inl y ↦ subst P (ground arith) h.0
    | inr n ↦ All-find t rs h.1 (ground arith)
  ]

  pub All-without : (t : Bytes) (rs : List TopicRing) → All P rs → All P (without t rs)
  unfolding without
  All-without t [] h = tt
  All-without t (s ∷ rs) h = elim (Bool-cases (bytes_eq s.topic t)) [
    | inl y ↦ rw y h.1
    | inr n ↦ rw n (h.0, All-without t rs h.1)
  ]

find-topic : (t : Bytes) (rs : List TopicRing) {r : TopicRing} → find t rs ≡ some r → r.topic ≡ t
unfolding find
find-topic t [] e = cc
find-topic t (s ∷ rs) {r} e = ground (arith, bytes_eq_iff s.topic t, find-topic t rs {r = r})

total-without :
    (t : Bytes) (rs : List TopicRing) {r : TopicRing}
    → find t rs ≡ some r
    → r.bytes + total (without t rs) ≡ total rs
unfolding find without
total-without t [] e = cc
total-without t (s ∷ rs) {r} e = ground (arith, total-without t rs {r = r})

pub without_absent : (t : Bytes) (rs : List TopicRing) → find t rs ≡ none → without t rs ≡ rs
unfolding find without
without_absent t [] e = refl
without_absent t (s ∷ rs) e = ground (arith, without_absent t rs)

-- No topic has two rings.
abbrev pub Distinct : List TopicRing → Type 0
Distinct [] = Unit
Distinct (r ∷ rs) = (find r.topic rs ≡ none) × Distinct rs

pub record IsLog (l : TopicLog) : Type 0 where
  pub positive : 0 < l.per_topic
  pub rings : All (IsTopicRing l.per_topic) l.order
  pub bytes : l.bytes ≡ total l.order
  pub distinct : Distinct l.order

new_ring-IsTopicRing : (p : ℕ) (t : Bytes) → 0 < p → IsTopicRing p (new_ring p t)
unfolding new_ring
new_ring-IsTopicRing p t h = record {
  ring = new-IsRing zero_message p h;
  bytes = sym (ap sizes (chronological-new zero_message p));
}

pub ring_for_absent :
    (l : TopicLog) (t : Bytes) → find t l.order ≡ none → ring_for l t ≡ new_ring l.per_topic t
unfolding ring_for
ring_for_absent l t e = rw (e, ring_for)

pub ring_for_present :
    (l : TopicLog) (t : Bytes) (r : TopicRing) → find t l.order ≡ some r → ring_for l t ≡ r
unfolding ring_for
ring_for_present l t r e = rw (e, ring_for)

-- The ring that `Add` writes is in order, bears the topic, and its bytes are part of the total.
pub ring_for_lem :
    (l : TopicLog) (t : Bytes)
    → IsLog l
    → IsTopicRing l.per_topic (ring_for l t)
      × ((ring_for l t).topic ≡ t)
      × ((ring_for l t).bytes + total (without t l.order) ≡ total l.order)
ring_for_lem l t v = elim (Option-cases (find t l.order)) [
  | inl e ↦ rw (ring_for_absent l t e) (
    new_ring-IsTopicRing l.per_topic t v.positive,
    unfold new_ring in refl,
    unfold new_ring in omega (arith, ap total (without_absent t l.order e)),
  )
  | inr (r, e) ↦ rw (ring_for_present l t r e) (
    All-find (IsTopicRing l.per_topic) t l.order v.rings e,
    find-topic t l.order e,
    total-without t l.order e,
  )
]
