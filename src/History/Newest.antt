-- ===== src/History/Newest.antt =====
-- What `History.Recent` returns after any sequence of `Add`.
use mqttview.Common.{
  ℕ, zero, suc, ◌+◌, ◌-◌, ◌<◌, ◌≡◌, refl, sym, ap, ◌∙◌, inl, inr, Bool, List, [], ◌∷◌, ◌++◌, map,
  foldl, reverse, append-nil, append_assoc, Bytes, ℤ, pos, negsuc, or_default, length, get_or, take,
  drop, last_n, keep_if, ltb, ltb→lt, length-append, length-drop, length-map, Bool-cases,
  if◌then◌else◌, drop_of_length-le, drop-cons, min, arith,
}
use mqttview.Message.{Message, zero_message}
use mqttview.Ring
use mqttview.Ring.Bounds.{IsRing, held, length-chronological, chronological-puts_new}
use mqttview.Ring.Recent.{slot, get_or-slot, length-reverse}
use mqttview.History.{
  History, history_size, new_history, clip_history, add, wanted, recent_loop, recent, len,
}

take-nil {ℓ} : {A : Type ℓ} (n : ℕ) → take {A = A} n [] ≡ []
take-nil zero = refl
take-nil (suc n) = refl

-- One round of the loop: what it appends is what `take` and `keep_if` let through next.
takes_step {ℓ} :
    {A : Type ℓ} (p : A → Bool) (limit : ℕ) (out : List A) (m : A) (rest : List A)
    → length out < limit
    → (if p m then out ++ m ∷ [] else out)
        ++ take (limit - length (if p m then out ++ m ∷ [] else out)) (keep_if p rest)
      ≡ out ++ take (limit - length out) (keep_if p (m ∷ rest))
takes_step p limit out m rest h = elim (Bool-cases (p m)) [
  | inl e ↦
      let l : limit - length out ≡ suc (limit - length (out ++ m ∷ [])) =
        omega (arith, length-append out (m ∷ [])) in
      rw (e, l) (append_assoc out (m ∷ []) _)
  | inr e ↦ rw e refl
]

module _ (size : ℕ) (h : History) (ring : IsRing size h) (filter : Bytes) (limit : ℕ) where
  abbrev newest_first : List Message
  newest_first = reverse (Ring.chronological h)

  length-newest_first : length newest_first ≡ held size h
  length-newest_first = length-reverse zero_message _ ∙ length-chronological size h ring

  loop_takes :
      (rounds i : ℕ) (out : List Message)
      → rounds + i ≡ held size h
      → recent_loop h filter limit rounds i out
        ≡ out ++ take (limit - length out) (keep_if (wanted filter) (drop i newest_first))
  unfolding recent_loop
  loop_takes zero i out e =
      let d : drop i newest_first ≡ [] =
        drop_of_length-le i newest_first (omega (arith, length-newest_first)) in
      rw d (rw take-nil (sym (append-nil out)))
  loop_takes (suc rounds) i out e =
      let m = get_or h.buf (slot (length h.buf) h.next i) zero_message in
      let inside : i < held size h = omega arith in
      let front : drop i newest_first ≡ m ∷ drop (suc i) newest_first =
        drop-cons zero_message i newest_first (omega (arith, length-newest_first))
        ∙ ap (λ x. x ∷ drop (suc i) newest_first)
            (get_or-slot zero_message size h i ring inside
              ∙ ap (λ k. get_or h.buf (slot k h.next i) zero_message) (sym ring.sized)) in
      elim (Bool-cases (ltb (length out) limit)) [
        | inl t ↦
            rw (t, front)
              (loop_takes rounds (suc i) (if wanted filter m then out ++ m ∷ [] else out)
                  (omega arith)
                ∙ takes_step (wanted filter) limit out m (drop (suc i) newest_first) (ltb→lt _ _ t))
        | inr t ↦
            let full : limit - length out ≡ 0 = ground arith in rw (t, full) (sym (append-nil out))
      ]

history_size_pos : (size : ℤ) → 0 < history_size size
unfolding history_size
history_size_pos (pos zero) = ground arith
history_size_pos (pos (suc n)) = ground arith
history_size_pos (negsuc n) = ground arith

foldl-add :
    (ms : List Message) (h : History) → foldl add h ms ≡ foldl Ring.put h (map clip_history ms)
unfolding add
foldl-add [] h = refl
foldl-add (m ∷ ms) h = foldl-add ms (Ring.put h (clip_history m))

pub history-of :
    (size : ℤ) (ms : List Message)
    → IsRing (history_size size) (foldl add (new_history size) ms)
      × (Ring.chronological (foldl add (new_history size) ms)
          ≡ last_n (history_size size) (map clip_history ms))
unfolding new_history
history-of size ms = rw foldl-add (
    chronological-puts_new zero_message (history_size size) (map clip_history ms)
      (history_size_pos size))

-- After any sequence of `Add` on a new history, `Recent` returns the newest messages that have a
-- topic and match the filter, newest first and at most `limit` of them (200 where it is not
-- positive), out of the last messages that the history's size keeps.
pub recent-add :
    (size limit : ℤ) (filter : Bytes) (ms : List Message)
    → recent (foldl add (new_history size) ms) limit filter
      ≡ take
          (or_default 200 limit)
          (keep_if (wanted filter) (reverse (last_n (history_size size) (map clip_history ms))))
unfolding recent
recent-add size limit filter ms =
    let h = foldl add (new_history size) ms in
    let n = history_size size in
    let (ring, held_last) = history-of size ms in
    let count : (if h.filled then length h.buf else h.next) ≡ held n h =
      ap (λ k. if h.filled then k else h.next) ring.sized in
    ap (λ c. recent_loop h filter (or_default 200 limit) c 0 []) count
    ∙ loop_takes n h ring filter (or_default 200 limit) (held n h) 0 [] (omega arith)
    ∙ ap (λ l. take (or_default 200 limit - 0) (keep_if (wanted filter) (reverse l))) held_last
    ∙ ap (λ k. take k (keep_if (wanted filter) (reverse (last_n n (map clip_history ms)))))
        (omega arith)

-- `Len` counts the messages added, up to the history's size.
pub len-add :
    (size : ℤ) (ms : List Message)
    → len (foldl add (new_history size) ms) ≡ min (history_size size) (length ms)
unfolding len
len-add size ms =
    let h = foldl add (new_history size) ms in
    let n = history_size size in
    let (ring, held_last) = history-of size ms in
    let l = map clip_history ms in
    ap (λ k. if h.filled then k else h.next) ring.sized
    ∙ sym (length-chronological n h ring)
    ∙ ap length held_last
    ∙ omega (arith, length-drop (length l - n) l, length-map clip_history ms)
