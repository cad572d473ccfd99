-- ===== src/TopicLog/Eviction.antt =====
-- What `evictLocked` drops: topics from the back, never the front one, until the budget is met.
use mqttview.Common.{
  ℕ, zero, suc, ◌+◌, ◌-◌, ◌≤◌, ◌<◌, ◌≡◌, refl, sym, ap, ◌∙◌, ◌⊎◌, inl, inr, false, some, List, [],
  ◌∷◌, ◌++◌, ◌%◌, u64_mod, length, subst, length-append, append-nil, append_assoc, ltb, ◌==◌,
  Bool-cases, arith,
}
use mqttview.TopicLog.{TopicRing, TopicLog, back, drop_back, evict_back, evict_loop, evict}

abbrev pub total : List TopicRing → ℕ
total [] = 0
total (r ∷ rs) = r.bytes + total rs

-- The list splits at its back.
pub drop_back-back :
    (r : TopicRing) (rs : List TopicRing)
    → (b : TopicRing) × (back (r ∷ rs) ≡ some b) × (r ∷ rs ≡ drop_back (r ∷ rs) ++ b ∷ [])
unfolding back drop_back
drop_back-back r [] = (r, refl, refl)
drop_back-back r (s ∷ rs) = let (b, e, f) = drop_back-back s rs in (b, e, ap (◌∷◌ r) f)

pub total-append : (xs ys : List TopicRing) → total (xs ++ ys) ≡ total xs + total ys
total-append [] ys = omega arith
total-append (x ∷ xs) ys = omega (arith, total-append xs ys)

abbrev log : ℕ → ℕ → ℕ → List TopicRing → ℕ → TopicLog
log p b n o e = record { per_topic = p; budget = b; bytes = n; order = o; evicted = e }

-- The loop stopped for a reason: the budget is met, or one topic is left.
abbrev pub IsSettled : TopicLog → Type 0
IsSettled l = (l.bytes ≤ l.budget) ⊎ (length l.order ≡ 1)

-- `l'` is `l` with topics dropped from the back of its order, never the front one, and their bytes
-- and their number accounted for.
pub record Evicts (l : TopicLog) (front : TopicRing) (l' : TopicLog) : Type 0 where
  pub dropped : List TopicRing
  pub kept : List TopicRing
  pub order : l'.order ≡ front ∷ kept
  pub whole : l.order ≡ l'.order ++ dropped
  pub bytes : l.bytes ≡ total l.order → l'.bytes ≡ total l'.order
  pub per_topic : l'.per_topic ≡ l.per_topic
  pub budget : l'.budget ≡ l.budget
  pub count : l.evicted < u64_mod → l'.evicted ≡ (l.evicted + length dropped) % u64_mod
  pub settled : IsSettled l'

Evicts-none :
    (p b n : ℕ) (r : TopicRing) (rs : List TopicRing) (e : ℕ)
    → IsSettled (log p b n (r ∷ rs) e)
    → Evicts (log p b n (r ∷ rs) e) r (log p b n (r ∷ rs) e)
Evicts-none p b n r rs e s = record {
  dropped = [];
  kept = rs;
  order = refl;
  whole = sym (append-nil (r ∷ rs));
  bytes = λ h. h;
  per_topic = refl;
  budget = refl;
  count = λ h. omega arith;
  settled = s;
}

Evicts-back :
    (p b n : ℕ) (r s : TopicRing) (rs : List TopicRing) (e : ℕ) (t : TopicRing) {l' : TopicLog}
    → r ∷ s ∷ rs ≡ drop_back (r ∷ s ∷ rs) ++ t ∷ []
    → Evicts (log p b (n - t.bytes) (drop_back (r ∷ s ∷ rs)) ((e + 1) % u64_mod)) r l'
    → Evicts (log p b n (r ∷ s ∷ rs) e) r l'
Evicts-back p b n r s rs e t {l'} split v = record {
  dropped = v.dropped ++ t ∷ [];
  kept = v.kept;
  order = v.order;
  whole = split ∙ ap (λ x. x ++ t ∷ []) v.whole ∙ append_assoc l'.order v.dropped (t ∷ []);
  bytes =
      λ h. v.bytes (omega (arith, ap total split, total-append (drop_back (r ∷ s ∷ rs)) (t ∷ [])));
  per_topic = v.per_topic;
  budget = v.budget;
  count = λ h. omega (arith, v.count (omega arith), length-append v.dropped (t ∷ []));
  settled = v.settled;
}

-- With a round for each topic the loop settles.
evict_loop-Evicts :
    (fuel p b n : ℕ) (r : TopicRing) (rs : List TopicRing) (e : ℕ)
    → length (r ∷ rs) ≤ fuel
    → Evicts (log p b n (r ∷ rs) e) r (evict_loop fuel (log p b n (r ∷ rs) e))
unfolding evict_loop
evict_loop-Evicts zero p b n r rs e h = absurd (omega arith)
evict_loop-Evicts (suc fuel) p b n r [] e h = elim (Bool-cases (ltb b n)) [
  | inl over ↦ rw (over, evict_loop) (Evicts-none p b n r [] e (inr refl))
  | inr within ↦ rw (within, evict_loop) (Evicts-none p b n r [] e (inl (ground arith)))
]
evict_loop-Evicts (suc fuel) p b n r (s ∷ rs) e h = elim (Bool-cases (ltb b n)) [
  | inl over ↦
      let (t, last, split) = drop_back-back r (s ∷ rs) in
      let many : (length (r ∷ s ∷ rs) == 1) ≡ false = ground arith in
      let shorter : length (drop_back (s ∷ rs)) + 1 ≡ suc (length rs) =
        omega (arith, ap length split, length-append (drop_back (s ∷ rs)) (t ∷ [])) in
      rw (over, evict_loop)
        (rw (last, evict_back)
          (rw (many, evict_back)
            (Evicts-back p b n r s rs e t split (
              evict_loop-Evicts fuel p b (n - t.bytes) r (drop_back (s ∷ rs)) ((e + 1) % u64_mod)
                (omega arith)))))
  | inr within ↦ rw (within, evict_loop) (Evicts-none p b n r (s ∷ rs) e (inl (ground arith)))
]

pub evict-Evicts :
    (l : TopicLog) (r : TopicRing) (rs : List TopicRing) → l.order ≡ r ∷ rs → Evicts l r (evict l)
unfolding evict
evict-Evicts l r rs h =
    subst
      (λ o.
        Evicts (log l.per_topic l.budget l.bytes o l.evicted) r
          (evict_loop (length o) (log l.per_topic l.budget l.bytes o l.evicted)))
      (sym h)
      (evict_loop-Evicts (length (r ∷ rs)) l.per_topic l.budget l.bytes r rs l.evicted
        (omega arith))
