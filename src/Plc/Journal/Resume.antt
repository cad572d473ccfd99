-- ===== src/Plc/Journal/Resume.antt =====
-- What a client that resumes from the last sequence number is given.
use mqttview.Common.{
  ℕ, zero, suc, ◌+◌, ◌-◌, ◌%◌, ◌≤◌, ◌<◌, ◌≡◌, refl, sym, ap, ◌∙◌, Bool, true, false, not, ◌&&◌,
  List, [], ◌∷◌, ◌++◌, foldl, length, drop, last_n, keep_if, leb, ltb, All, Bool-cases,
  if◌then◌else◌, arith, ℤ, pos, negsuc, or_default, u64_mod, length-append, append_assoc,
  append-nil, subst, inl, inr, ap₂, drop-nil, keep_if-drop, keep_if-and, last_n-append_one,
}
use mqttview.Plc.Journal.{
  Edge, Journal, new_journal, default_journal_size, append, Match, accepts, limit_of, selects,
  since,
}

abbrev pub push : Journal → Edge → Journal
push j e = (append j e).0

-- The edges that a list of edges becomes after sequence number `seq`.
abbrev pub stamped : ℕ → List Edge → List Edge
stamped seq [] = []
stamped seq (e ∷ es) = record e { seq = suc seq } ∷ stamped (suc seq) es

length-stamped : (seq : ℕ) (es : List Edge) → length (stamped seq es) ≡ length es
length-stamped seq [] = refl
length-stamped seq (e ∷ es) = ap suc (length-stamped (suc seq) es)

pub stamped-append :
    (seq : ℕ) (xs ys : List Edge)
    → stamped seq (xs ++ ys) ≡ stamped seq xs ++ stamped (seq + length xs) ys
stamped-append seq [] ys = ap (λ k. stamped k ys) (omega arith)
stamped-append seq (x ∷ xs) ys =
    let e : suc seq + length xs ≡ seq + suc (length xs) = omega arith in
    ap (◌∷◌ (record x { seq = suc seq }))
      (stamped-append (suc seq) xs ys ∙ ap (λ k. stamped (suc seq) xs ++ stamped k ys) e)

cut_last :
    (n : ℕ) (es : List Edge)
    → (if ltb n (length es) then drop (length es - n) es else es) ≡ last_n n es
cut_last n es = elim (Bool-cases (ltb n (length es))) [
  | inl y ↦ rw y refl
  | inr y ↦ let z : length es - n ≡ 0 = ground arith in rw y (ap (λ k. drop k es) (sym z))
]

-- A journal that took `es` from the start.
pub record Took (size : ℕ) (es : List Edge) (j : Journal) : Type 0 where
  pub sized : j.size ≡ size
  pub counted : j.seq ≡ length es
  pub held : j.entries ≡ last_n size (stamped 0 es)

stamped_one :
    (es : List Edge) (e : Edge)
    → stamped 0 (es ++ e ∷ []) ≡ stamped 0 es ++ record e { seq = suc (length es) } ∷ []
stamped_one es e =
    stamped-append 0 es (e ∷ [])
    ∙ ap (λ k. stamped 0 es ++ record e { seq = suc k } ∷ []) (omega arith)

pub push-Took :
    (n : ℕ) (es : List Edge) (e : Edge) (j : Journal)
    → length es + 1 < u64_mod
    → Took (suc n) es j
    → Took (suc n) (es ++ e ∷ []) (push j e)
unfolding append
push-Took n es e j few t =
    let q : (j.seq + 1) % u64_mod ≡ suc (length es) = omega (arith, t.counted) in
    let old = last_n (suc n) (stamped 0 es) in
    let new = record e { seq = suc (length es) } in
    record {
      sized = t.sized;
      counted = omega (arith, length-append es (e ∷ []));
      held =
          cut_last j.size (j.entries ++ record e { seq = (j.seq + 1) % u64_mod } ∷ [])
          ∙ ap (λ k. last_n k (j.entries ++ record e { seq = (j.seq + 1) % u64_mod } ∷ [])) t.sized
          ∙ ap (λ k. last_n (suc n) (j.entries ++ record e { seq = k } ∷ [])) q
          ∙ ap (λ l. last_n (suc n) (l ++ new ∷ [])) t.held
          ∙ last_n-append_one n (stamped 0 es) new
          ∙ ap (last_n (suc n)) (sym (stamped_one es e));
    }

foldl-push-Took :
    (size : ℕ) (es rest : List Edge) (j : Journal)
    → 0 < size
    → length es + length rest < u64_mod
    → Took size es j
    → Took size (es ++ rest) (foldl push j rest)
foldl-push-Took zero es rest j h few t = absurd (omega arith)
foldl-push-Took (suc n) es [] j h few t = subst (λ l. Took (suc n) l j) (sym (append-nil es)) t
foldl-push-Took (suc n) es (e ∷ rest) j h few t =
    subst (λ l. Took (suc n) l (foldl push (push j e) rest)) (append_assoc es (e ∷ []) rest)
      (foldl-push-Took (suc n) (es ++ e ∷ []) rest (push j e) h
        (omega (arith, length-append es (e ∷ []))) (push-Took n es e j (omega arith) t))

pub size_pos : (size : ℤ) → 0 < or_default default_journal_size size
size_pos (pos zero) = omega arith
size_pos (pos (suc n)) = omega arith
size_pos (negsuc n) = omega arith

new_journal-Took : (size : ℤ) → Took (or_default default_journal_size size) [] (new_journal size)
unfolding new_journal
new_journal-Took size = record { sized = refl; counted = refl; held = sym (drop-nil _) }

pub pushes-Took :
    (size : ℤ) (es : List Edge)
    → length es < u64_mod
    → Took (or_default default_journal_size size) es (foldl push (new_journal size) es)
pushes-Took size es few =
    foldl-push-Took (or_default default_journal_size size) [] es (new_journal size) (size_pos size)
      (omega arith) (new_journal-Took size)

abbrev unseen : ℕ → Edge → Bool
unseen seq e = not (ltb 0 seq && leb e.seq seq)

stamped_seen :
    (seq from : ℕ) (es : List Edge)
    → from + length es ≤ seq
    → All (λ e. unseen seq e ≡ false) (stamped from es)
stamped_seen seq from [] h = tt
stamped_seen seq from (e ∷ es) h = (ground arith, stamped_seen seq (suc from) es (omega arith))

stamped-unseen :
    (seq from : ℕ) (es : List Edge) → seq ≤ from → All (λ e. unseen seq e ≡ true) (stamped from es)
stamped-unseen seq from [] h = tt
stamped-unseen seq from (e ∷ es) h = (ground arith, stamped-unseen seq (suc from) es (omega arith))

pub since-Took :
    (size : ℕ) (before after : List Edge) (j : Journal) (limit : ℤ) (match : Match)
    → Took size (before ++ after) j
    → since j (length before) limit match ≡ (
      last_n
          (limit_of size limit)
          (keep_if (accepts match) (last_n size (stamped (length before) after))),
      length before + length after,
    )
unfolding since selects
since-Took size before after j limit match t =
    let xs = stamped 0 before in
    let ys = stamped (length before) after in
    let all : stamped 0 (before ++ after) ≡ xs ++ ys =
      stamped-append 0 before after ∙ ap (λ k. xs ++ stamped k after) (omega arith) in
    let cut : length (xs ++ ys) - size - length xs ≡ length ys - size =
      omega (arith, length-append xs ys) in
    let old = unseen (length before) in
    let kept : keep_if (λ e. old e && accepts match e) j.entries
        ≡ keep_if (accepts match) (last_n size ys) =
      keep_if-and old (accepts match) j.entries
      ∙ ap (λ l. keep_if (accepts match) (keep_if old l)) (t.held ∙ ap (last_n size) all)
      ∙ ap (keep_if (accepts match)) (
          keep_if-drop old (length (xs ++ ys) - size) xs ys
            (stamped_seen (length before) 0 before (omega arith))
            (stamped-unseen (length before) (length before) after (omega arith))
          ∙ ap (λ k. drop k ys) cut) in
    ap₂ (λ out n. (out, n))
      (cut_last (limit_of j.size limit) _ ∙ ap₂ (λ k l. last_n (limit_of k limit) l) t.sized kept)
      (omega (arith, t.counted, length-append before after))

-- A client that resumes from the number of edges it has seen is given, oldest first, exactly the
-- later edges that match, as far as the journal and then the limit keep the newest; and the
-- number of edges so far. From 0 it is given the most recent ones.
pub since-append :
    (size limit : ℤ) (match : Match) (before after : List Edge)
    → length before + length after < u64_mod
    → since (foldl push (new_journal size) (before ++ after)) (length before) limit match ≡ (
      last_n (limit_of (or_default default_journal_size size) limit) (
          keep_if
            (accepts match)
            (last_n (or_default default_journal_size size) (stamped (length before) after))),
      length before + length after,
    )
since-append size limit match before after few =
    since-Took (or_default default_journal_size size) before after
      (foldl push (new_journal size) (before ++ after)) limit match
      (pushes-Took size (before ++ after) (omega (arith, length-append before after)))
