-- ===== src/Ring/Bounds.antt =====
-- A ring holds the last elements that were put into it, as many as its size.
use mqttview.Common.{
  ℕ, zero, suc, ◌+◌, ◌-◌, ◌%◌, ◌≤◌, ◌<◌, ◌≡◌, refl, sym, ap, ◌∙◌, ◌⊎◌, inl, inr, Bool, true, false,
  List, [], ◌∷◌, ◌++◌, foldl, append_assoc, append-nil, length, set, take, drop, last_n, length-set,
  length-take, length-drop, length-append, length-replicate, take-suc-set, drop-suc-set,
  take_of_length-le, drop_of_length-le, drop-nil, drop_one-drop, drop-append_left,
  last_n-append_one, if◌then◌else◌, ◌==◌, arith,
}
use mqttview.Ring.{Ring, new, put, chronological}

-- The next index, inside the buffer or back at its start.
pub wrap :
    (size next : ℕ)
    → next < size
    → ((next + 1 < size) × ((next + 1) % size ≡ next + 1))
      ⊎ ((next + 1 ≡ size) × ((next + 1) % size ≡ 0))
wrap size next h = grind arith

module _ {ℓ} {A : Type ℓ} where
  pub record IsRing (size : ℕ) (r : Ring A) : Type ℓ where
    pub sized : length r.buf ≡ size
    pub inside : r.next < size

  pub new-IsRing : (zero_value : A) (size : ℕ) → 0 < size → IsRing size (new zero_value size)
  unfolding new
  new-IsRing z size h = record { sized = length-replicate size z; inside = h }

  pub put-IsRing : {size : ℕ} {r : Ring A} (x : A) → IsRing size r → IsRing size (put r x)
  unfolding put
  put-IsRing {r} x i = record { sized = length-set r.buf r.next x ∙ i.sized; inside = grind arith }

  -- How many elements a ring holds.
  abbrev pub held : ℕ → Ring A → ℕ
  held size r = if r.filled then size else r.next

  pub length-chronological :
      (size : ℕ) (r : Ring A) → IsRing size r → length (chronological r) ≡ held size r
  unfolding chronological
  length-chronological size r i = ground (
    arith,
    length-append (drop r.next r.buf) (take r.next r.buf),
    length-take r.next r.buf,
    length-drop r.next r.buf,
    i.sized,
    i.inside,
  )

  -- The last `suc n` of at most `suc n` elements and one more.
  pub last_n_room :
      (size : ℕ) (xs : List A) (x : A)
      → length xs + 1 ≤ size
      → last_n size (xs ++ x ∷ []) ≡ xs ++ x ∷ []
  last_n_room size xs x h =
      let e : length (xs ++ x ∷ []) - size ≡ 0 = omega (arith, length-append xs (x ∷ [])) in
      ap (λ k. drop k (xs ++ x ∷ [])) e

  pub last_n_full :
      (size : ℕ) (xs : List A) (x : A)
      → length xs ≡ size
      → 0 < size
      → last_n size (xs ++ x ∷ []) ≡ drop 1 xs ++ x ∷ []
  last_n_full size xs x h p =
      let e : length (xs ++ x ∷ []) - size ≡ 1 = omega (arith, length-append xs (x ∷ [])) in
      ap (λ k. drop k (xs ++ x ∷ [])) e ∙ drop-append_left 1 xs (x ∷ []) (omega arith)

  module _ (size : ℕ) (buf : List A) (next : ℕ) (x : A) (sized : length buf ≡ size)
      (inside : next < size) where
    -- The whole buffer, once its last slot is written.
    full : next + 1 ≡ size → set buf next x ≡ take next buf ++ x ∷ []
    full e =
        sym (take_of_length-le (suc next) (set buf next x) (omega (arith, length-set buf next x)))
        ∙ take-suc-set buf next x (omega arith)

    put_open :
        next + 1 < size → take (next + 1) (set buf next x) ≡ last_n size (take next buf ++ x ∷ [])
    put_open h =
        let e : next + 1 ≡ suc next = omega arith in
        ap (λ k. take k (set buf next x)) e
        ∙ take-suc-set buf next x (omega arith)
        ∙ sym (last_n_room size (take next buf) x (omega (arith, length-take next buf)))

    put_closing : next + 1 ≡ size → set buf next x ≡ last_n size (take next buf ++ x ∷ [])
    put_closing h =
        full h ∙ sym (last_n_room size (take next buf) x (omega (arith, length-take next buf)))

    -- What a filled ring holds, without its oldest element.
    older : drop 1 (drop next buf ++ take next buf) ≡ drop (suc next) buf ++ take next buf
    older =
        drop-append_left 1 (drop next buf) (take next buf) (omega (arith, length-drop next buf))
        ∙ ap (λ l. l ++ take next buf) (drop_one-drop next buf)

    full_window :
        last_n size ((drop next buf ++ take next buf) ++ x ∷ [])
        ≡ drop (suc next) buf ++ (take next buf ++ x ∷ [])
    full_window =
        last_n_full size (drop next buf ++ take next buf) x
          (omega (
            arith,
            length-append (drop next buf) (take next buf),
            length-drop next buf,
            length-take next buf,
          ))
          (omega arith)
        ∙ ap (λ l. l ++ x ∷ []) older
        ∙ append_assoc (drop (suc next) buf) (take next buf) (x ∷ [])

    put_over :
        next + 1 < size
        → drop (next + 1) (set buf next x) ++ take (next + 1) (set buf next x)
          ≡ last_n size ((drop next buf ++ take next buf) ++ x ∷ [])
    put_over h =
        let e : next + 1 ≡ suc next = omega arith in
        ap (λ k. drop k (set buf next x) ++ take k (set buf next x)) e
        ∙ ap (λ l. l ++ take (suc next) (set buf next x)) (drop-suc-set buf next x)
        ∙ ap (λ l. drop (suc next) buf ++ l) (take-suc-set buf next x (omega arith))
        ∙ sym full_window

    put_wrapping :
        next + 1 ≡ size
        → set buf next x ++ [] ≡ last_n size ((drop next buf ++ take next buf) ++ x ∷ [])
    put_wrapping h =
        append-nil (set buf next x)
        ∙ full h
        ∙ ap (λ l. l ++ (take next buf ++ x ∷ []))
            (sym (drop_of_length-le (suc next) buf (omega arith)))
        ∙ sym full_window

    abbrev held_by : ℕ → Bool → List A → List A
    held_by n filled b = if filled then drop n b ++ take n b else take n b

    put_window :
        (n : ℕ) (filled : Bool)
        → ((next + 1 < size) × (n ≡ next + 1)) ⊎ ((next + 1 ≡ size) × (n ≡ 0))
        → held_by n (if n == 0 then true else filled) (set buf next x)
          ≡ last_n size (held_by next filled buf ++ x ∷ [])
    put_window n true (inl (h, e)) =
        let t : (n == 0) ≡ false = ground arith in rw t (rw e (put_over h))
    put_window n false (inl (h, e)) =
        let t : (n == 0) ≡ false = ground arith in rw t (rw e (put_open h))
    put_window n true (inr (h, e)) = rw e (put_wrapping h)
    put_window n false (inr (h, e)) = rw e (append-nil (set buf next x) ∙ put_closing h)

  -- Putting an element keeps the last `size` of what was held and the new element.
  pub chronological-put :
      (size : ℕ) (r : Ring A) (x : A)
      → IsRing size r
      → chronological (put r x) ≡ last_n size (chronological r ++ x ∷ [])
  unfolding chronological put
  chronological-put size r x i =
      put_window size r.buf r.next x i.sized i.inside ((r.next + 1) % length r.buf) r.filled
        (rw i.sized (wrap size r.next i.inside))

  pub chronological-new : (zero_value : A) (size : ℕ) → chronological (new zero_value size) ≡ []
  unfolding chronological new
  chronological-new z size = refl

  -- A ring that took `xs` holds the last `size` of them, oldest first.
  pub chronological-puts :
      (size : ℕ) (r : Ring A) (xs seen : List A)
      → IsRing (suc size) r
      → chronological r ≡ last_n (suc size) seen
      → IsRing (suc size) (foldl put r xs)
        × (chronological (foldl put r xs) ≡ last_n (suc size) (seen ++ xs))
  chronological-puts size r [] seen i e = (i, rw append-nil e)
  chronological-puts size r (x ∷ xs) seen i e = rw (← append_assoc seen (x ∷ []) xs) (
      chronological-puts size (put r x) xs (seen ++ x ∷ []) (put-IsRing x i) (
        chronological-put (suc size) r x i
        ∙ ap (λ l. last_n (suc size) (l ++ x ∷ [])) e
        ∙ last_n-append_one size seen x))

  pub chronological-puts_new :
      (zero_value : A) (size : ℕ) (xs : List A)
      → 0 < size
      → IsRing size (foldl put (new zero_value size) xs)
        × (chronological (foldl put (new zero_value size) xs) ≡ last_n size xs)
  chronological-puts_new z zero xs h = absurd (omega arith)
  chronological-puts_new z (suc n) xs h =
      chronological-puts n (new z (suc n)) xs [] (new-IsRing z (suc n) h)
        (chronological-new z (suc n) ∙ sym (drop-nil (0 - suc n)))
