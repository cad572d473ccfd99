-- ===== src/TopicLog/Contents.antt =====
-- What `Entries` reads after an `Add`.
use mqttview.Common.{
  ℕ, zero, suc, ◌-◌, ◌≤◌, ◌≡◌, refl, sym, ap, ◌∙◌, ◌≢◌, ◌⊎◌, inl, inr, Option, none, some, List, [],
  ◌∷◌, ◌++◌, Bytes, bytes_eq, bytes_eq_iff, length, ltb, drop, last_n, length-append,
  drop-append_left, drop_of_length-le, Bool-cases, Option-cases, if◌then◌else◌, arith, subst, ℤ,
  pos, negsuc,
}
use mqttview.Message.{Message, zero_message}
use mqttview.Ring
use mqttview.Ring.{Ring}
use mqttview.Ring.Bounds.{chronological-put, chronological-new}
use mqttview.TopicLog.{
  TopicRing, TopicLog, find, without, new_ring, write, ring_for, record_message, add, clip, entries,
  newest, previous, previous_of,
}
use mqttview.TopicLog.Accounting.{add-Evicts}
use mqttview.TopicLog.Rings.{IsLog, ring_for_absent, ring_for_present, ring_for_lem}

-- What `Entries` returns with no limit.
abbrev pub all_entries : TopicLog → Bytes → List Message
all_entries l t = (entries l t (pos 0)).1

contents : Option TopicRing → List Message
contents none = []
contents (some r) = Ring.chronological r.ring

newest_nil : (limit : ℤ) → newest limit [] ≡ []
unfolding newest
newest_nil (pos zero) = refl
newest_nil (pos (suc n)) = ground arith
newest_nil (negsuc n) = refl

entries-contents :
    (l : TopicLog) (t : Bytes) (limit : ℤ)
    → (entries l t limit).1 ≡ newest limit (contents (find t l.order))
unfolding contents
entries-contents l t limit = elim (Option-cases (find t l.order)) [
  | inl e ↦ rw e (unfold entries in rw (e, entries) (sym (newest_nil limit)))
  | inr (r, e) ↦ rw e (unfold entries in rw (e, entries) refl)
]

all_entries-contents : (l : TopicLog) (t : Bytes) → all_entries l t ≡ contents (find t l.order)
all_entries-contents l t = entries-contents l t (pos 0) ∙ (unfold newest in refl)

clip-topic : (m : Message) → (clip m).topic ≡ m.topic
unfolding clip
clip-topic m = ground arith

contents-ring_for :
    (l : TopicLog) (t : Bytes) → Ring.chronological (ring_for l t).ring ≡ contents (find t l.order)
unfolding contents
contents-ring_for l t = elim (Option-cases (find t l.order)) [
  | inl e ↦
      rw (e, ring_for_absent l t e) (unfold new_ring in chronological-new zero_message l.per_topic)
  | inr (r, e) ↦ rw (e, ring_for_present l t r e) refl
]

find_front :
    (t : Bytes) (r : TopicRing) (rs : List TopicRing) → r.topic ≡ t → find t (r ∷ rs) ≡ some r
unfolding find
find_front t r rs e = ground (arith, bytes_eq_iff r.topic t)

find_behind :
    (t k : Bytes) (r : TopicRing) (rs : List TopicRing)
    → r.topic ≡ k
    → t ≢ k
    → find t (r ∷ rs) ≡ find t rs
unfolding find
find_behind t k r rs e n = elim (Bool-cases (bytes_eq r.topic t)) [
  | inl y ↦ absurd (n (sym ((bytes_eq_iff r.topic t).0 y) ∙ e))
  | inr y ↦ rw y refl
]

find-without : (t k : Bytes) (rs : List TopicRing) → t ≢ k → find t (without k rs) ≡ find t rs
unfolding find without
find-without t k [] n = refl
find-without t k (r ∷ rs) n = elim (Bool-cases (bytes_eq r.topic k)) [
  | inl y ↦ rw y (sym (find_behind t k r rs ((bytes_eq_iff r.topic k).0 y) n))
  | inr y ↦ rw y (ap (λ o. if bytes_eq r.topic t then some r else o) (find-without t k rs n))
]

find-append :
    (t : Bytes) (rs ss : List TopicRing) (r : TopicRing)
    → find t rs ≡ some r
    → find t (rs ++ ss) ≡ some r
unfolding find
find-append t [] ss r e = cc
find-append t (s ∷ rs) ss r e = ground (arith, find-append t rs ss r)

module _ (l : TopicLog) (m : Message) (valid : IsLog l) where
  added : TopicRing
  added = write (ring_for l (clip m).topic) (clip m)

  added-topic : added.topic ≡ (clip m).topic
  unfolding added write
  added-topic = (ring_for_lem l (clip m).topic valid).1

  entries_written :
      all_entries (add l m) (clip m).topic
      ≡ last_n l.per_topic (all_entries l (clip m).topic ++ clip m ∷ [])
  unfolding contents added
  entries_written =
      let t = (clip m).topic in
      let e = add-Evicts l m in
      let found : find t (add l m).order ≡ some added =
        ap (find t) e.order ∙ find_front t added e.kept added-topic in
      let put_last : Ring.chronological added.ring
          ≡ last_n l.per_topic (Ring.chronological (ring_for l t).ring ++ clip m ∷ []) =
        unfold write in
        chronological-put l.per_topic (ring_for l t).ring (clip m)
          (ring_for_lem l t valid).0.ring in
      all_entries-contents (add l m) t
      ∙ ap contents found
      ∙ put_last
      ∙ ap (λ c. last_n l.per_topic (c ++ clip m ∷ []))
          (contents-ring_for l t ∙ sym (all_entries-contents l t))

  entries_other :
      (t : Bytes)
      → t ≢ (clip m).topic
      → (all_entries (add l m) t ≡ all_entries l t) ⊎ (all_entries (add l m) t ≡ [])
  unfolding contents added
  entries_other t n =
      let e = add-Evicts l m in
      let k = (clip m).topic in
      let before : find t (record_message l (clip m)).order ≡ find t l.order =
        unfold record_message in
        find_behind t k added (without k l.order) added-topic n ∙ find-without t k l.order n in
      elim (Option-cases (find t (add l m).order)) [
        | inl gone ↦ inr (all_entries-contents (add l m) t ∙ ap contents gone)
        | inr (r, kept) ↦
            let whole : find t l.order ≡ some r =
              sym before ∙ ap (find t) e.whole ∙ find-append t (add l m).order e.dropped r kept in
            inl (
              all_entries-contents (add l m) t
              ∙ ap contents (kept ∙ sym whole)
              ∙ sym (all_entries-contents l t))
      ]

-- After `Add`, the entries of the message's topic are the last `perTopic` of the earlier ones and
-- the message, which is never evicted; another topic's entries are what they were or are gone as
-- a whole, never in part.
pub entries-add :
    (l : TopicLog) (m : Message)
    → IsLog l
    → (all_entries (add l m) m.topic ≡ last_n l.per_topic (all_entries l m.topic ++ clip m ∷ []))
      × ((t : Bytes)
          → t ≢ m.topic
          → (all_entries (add l m) t ≡ all_entries l t) ⊎ (all_entries (add l m) t ≡ []))
entries-add l m v =
    subst
      (λ k.
        (all_entries (add l m) k ≡ last_n l.per_topic (all_entries l k ++ clip m ∷ []))
        × ((t : Bytes)
            → t ≢ k
            → (all_entries (add l m) t ≡ all_entries l t) ⊎ (all_entries (add l m) t ≡ [])))
      (clip-topic m) (entries_written l m v, entries_other l m v)

newest_last : (n : ℕ) (out : List Message) → newest (pos (suc n)) out ≡ last_n (suc n) out
unfolding newest
newest_last n out = elim (Bool-cases (ltb (suc n) (length out))) [
  | inl y ↦ rw y refl
  | inr y ↦ let z : length out - suc n ≡ 0 = ground arith in rw y (ap (λ k. drop k out) (sym z))
]

last_two : (xs : List Message) (p q : Message) → last_n 2 (xs ++ p ∷ q ∷ []) ≡ p ∷ q ∷ []
last_two xs p q =
    let e : length (xs ++ p ∷ q ∷ []) - 2 ≡ length xs =
      omega (arith, length-append xs (p ∷ q ∷ [])) in
    ap (λ k. drop k (xs ++ p ∷ q ∷ [])) e
    ∙ drop-append_left (length xs) xs (p ∷ q ∷ []) (omega arith)
    ∙ ap (λ l. l ++ p ∷ q ∷ []) (drop_of_length-le (length xs) xs (omega arith))

few : (out : List Message) → length out ≤ 1 → previous_of (last_n 2 out) ≡ none
unfolding previous_of
few [] h = ground arith
few (m ∷ []) h = ground arith
few (m ∷ n ∷ ms) h = absurd (omega arith)

-- A positive limit returns the newest of the entries that no limit returns, and any other limit
-- returns them all.
pub entries-limit :
    (l : TopicLog) (t : Bytes) (n : ℕ)
    → (entries l t (pos (suc n))).1 ≡ last_n (suc n) (all_entries l t)
entries-limit l t n =
    entries-contents l t (pos (suc n))
    ∙ newest_last n (contents (find t l.order))
    ∙ ap (last_n (suc n)) (sym (all_entries-contents l t))

-- `Previous` returns the entry before the newest one, and nothing where there are fewer than two.
pub previous-entries :
    (l : TopicLog) (t : Bytes)
    → ((xs : List Message) (p q : Message)
        → all_entries l t ≡ xs ++ p ∷ q ∷ []
        → (previous l t).1 ≡ some p)
      × (length (all_entries l t) ≤ 1 → (previous l t).1 ≡ none)
unfolding previous
previous-entries l t = (
  λ xs p q e. ap previous_of (entries-limit l t 1 ∙ ap (last_n 2) e ∙ last_two xs p q),
  λ h. ap previous_of (entries-limit l t 1) ∙ few (all_entries l t) h,
)
