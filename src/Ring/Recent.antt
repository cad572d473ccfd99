-- ===== src/Ring/Recent.antt =====
-- Reading a ring backwards from its newest slot, by index, as `History.Recent` does.
use mqttview.Common.{
  ℕ, zero, suc, ◌+◌, ◌-◌, ◌*◌, ◌%◌, ◌≤◌, ◌<◌, ◌≡◌, refl, sym, ap, ◌∙◌, Bool, true, false, List, [],
  ◌∷◌, ◌++◌, length, get_or, take, drop, length-append, length-drop, arith, reverse,
}
use native.Mathlib.Decide.{dec_lt}
use native.Mathlib.Nat.{mod-eq_of_lt, mod-eq-sub-mod}
use mathlib.Core.List.{reverse-cons}
use mqttview.Ring.{Ring, chronological}
use mqttview.Ring.Bounds.{IsRing, held, length-chronological}

-- The slot that is `i` places before the newest, as the code computes it. The `len * 2` keeps
-- the difference above 0, so the truncated subtraction is the code's.
abbrev pub slot : ℕ → ℕ → ℕ → ℕ
slot size next i = (next + size * 2 - 1 - i) % size

slot_before : (size next i : ℕ) → next < size → i < next → slot size next i ≡ next - 1 - i
slot_before size next i h k =
    let e : next + size * 2 - 1 - i - size - size ≡ next - 1 - i = omega arith in
    mod-eq-sub-mod {n = next + size * 2 - 1 - i} (omega arith)
    ∙ mod-eq-sub-mod {n = next + size * 2 - 1 - i - size} (omega arith)
    ∙ ap (λ t. t % size) e
    ∙ mod-eq_of_lt (omega arith)

slot_after :
    (size next i : ℕ) → next < size → next ≤ i → i < size → slot size next i ≡ next + (size - 1 - i)
slot_after size next i h k l =
    let e : next + size * 2 - 1 - i - size ≡ next + (size - 1 - i) = omega arith in
    mod-eq-sub-mod {n = next + size * 2 - 1 - i} (omega arith)
    ∙ ap (λ t. t % size) e
    ∙ mod-eq_of_lt (omega arith)

module _ {ℓ} {A : Type ℓ} (d : A) where
  get_or-take : (n j : ℕ) (xs : List A) → j < n → get_or (take n xs) j d ≡ get_or xs j d
  get_or-take zero j xs h = absurd (omega arith)
  get_or-take (suc n) j [] h = refl
  get_or-take (suc n) zero (x ∷ xs) h = refl
  get_or-take (suc n) (suc j) (x ∷ xs) h = get_or-take n j xs (omega arith)

  get_or-drop : (n j : ℕ) (xs : List A) → get_or (drop n xs) j d ≡ get_or xs (n + j) d
  get_or-drop zero j xs = ap (λ k. get_or xs k d) (omega arith)
  get_or-drop (suc n) j [] = refl
  get_or-drop (suc n) j (x ∷ xs) =
      let e : suc n + j ≡ suc (n + j) = omega arith in rw e (get_or-drop n j xs)

  get_or-append_left :
      (xs ys : List A) (j : ℕ) → j < length xs → get_or (xs ++ ys) j d ≡ get_or xs j d
  get_or-append_left [] ys j h = absurd (omega arith)
  get_or-append_left (x ∷ xs) ys zero h = refl
  get_or-append_left (x ∷ xs) ys (suc j) h = get_or-append_left xs ys j (omega arith)

  get_or-append_right :
      (xs ys : List A) (j : ℕ) → get_or (xs ++ ys) (length xs + j) d ≡ get_or ys j d
  get_or-append_right [] ys j = ap (λ k. get_or ys k d) (omega arith)
  get_or-append_right (x ∷ xs) ys j =
      let e : suc (length xs) + j ≡ suc (length xs + j) = omega arith in
      rw e (get_or-append_right xs ys j)

  pub length-reverse : (xs : List A) → length (reverse xs) ≡ length xs
  length-reverse [] = refl
  length-reverse (x ∷ xs) =
      ap length (reverse-cons x xs)
      ∙ omega (arith, length-append (reverse xs) (x ∷ []), length-reverse xs)

  get_or-reverse :
      (xs : List A) (i : ℕ)
      → i < length xs
      → get_or (reverse xs) i d ≡ get_or xs (length xs - 1 - i) d
  get_or-reverse [] i h = absurd (omega arith)
  get_or-reverse (x ∷ xs) i h =
      ap (λ l. get_or l i d) (reverse-cons x xs) ∙ elim (dec_lt i (length xs)) [
        | yes p ↦
            let e : length (x ∷ xs) - 1 - i ≡ suc (length xs - 1 - i) = omega arith in
            get_or-append_left (reverse xs) (x ∷ []) i (omega (arith, length-reverse xs))
            ∙ get_or-reverse xs i p
            ∙ ap (λ k. get_or (x ∷ xs) k d) (sym e)
        | no p ↦
            let e : i ≡ length (reverse xs) + 0 = omega (arith, length-reverse xs) in
            let z : 0 ≡ length (x ∷ xs) - 1 - i = omega arith in
            ap (λ k. get_or (reverse xs ++ x ∷ []) k d) e
            ∙ get_or-append_right (reverse xs) (x ∷ []) 0
            ∙ ap (λ k. get_or (x ∷ xs) k d) z
      ]

  -- The slot `i` places before the newest holds the `i`-th of the contents, newest first.
  get_or-slot_filled :
      (size : ℕ) (buf : List A) (next i : ℕ)
      → length buf ≡ size
      → next < size
      → i < size
      → get_or (drop next buf ++ take next buf) (size - 1 - i) d ≡ get_or buf (slot size next i) d
  get_or-slot_filled size buf next i l h k = elim (dec_lt i next) [
    | yes p ↦
        let e : size - 1 - i ≡ length (drop next buf) + (next - 1 - i) =
          omega (arith, length-drop next buf) in
        ap (λ j. get_or (drop next buf ++ take next buf) j d) e
        ∙ get_or-append_right (drop next buf) (take next buf) (next - 1 - i)
        ∙ get_or-take next (next - 1 - i) buf (omega arith)
        ∙ ap (λ j. get_or buf j d) (sym (slot_before size next i h p))
    | no p ↦
        get_or-append_left (drop next buf) (take next buf) (size - 1 - i)
          (omega (arith, length-drop next buf))
        ∙ get_or-drop next (size - 1 - i) buf
        ∙ ap (λ j. get_or buf j d) (sym (slot_after size next i h (omega arith) k))
  ]

  get_or-slot_open :
      (size : ℕ) (buf : List A) (next i : ℕ)
      → next < size
      → i < next
      → get_or (take next buf) (next - 1 - i) d ≡ get_or buf (slot size next i) d
  get_or-slot_open size buf next i h k =
      get_or-take next (next - 1 - i) buf (omega arith)
      ∙ ap (λ j. get_or buf j d) (sym (slot_before size next i h k))

  pub get_or-slot :
      (size : ℕ) (r : Ring A) (i : ℕ)
      → IsRing size r
      → i < held size r
      → get_or (reverse (chronological r)) i d ≡ get_or r.buf (slot size r.next i) d
  unfolding chronological
  get_or-slot size r i v h =
      get_or-reverse (chronological r) i (omega (arith, length-chronological size r v))
      ∙ ap (λ k. get_or (chronological r) (k - 1 - i) d) (length-chronological size r v)
      ∙ by_fill r.filled refl
    where
      by_fill :
          (b : Bool)
          → r.filled ≡ b
          → get_or (chronological r) (held size r - 1 - i) d ≡ get_or r.buf (slot size r.next i) d
      by_fill true e = rw e (get_or-slot_filled size r.buf r.next i v.sized v.inside (rw e at h))
      by_fill false e = rw e (get_or-slot_open size r.buf r.next i v.inside (rw e at h))
