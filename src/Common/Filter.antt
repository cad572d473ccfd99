-- ===== src/Common/Filter.antt =====
-- Filtering by a Boolean test, and filtering the end of a list.
use Prim.Native.Nat.{ℕ, zero, suc, ◌-◌}
use mathlib.Core.Path.{◌≡◌, refl, sym, ap, ◌∙◌}
use mathlib.Core.Bool.{Bool, true, false, ◌&&◌}
use mathlib.Core.List.{List, [], ◌∷◌, ◌++◌}
use native.Mathlib.Omega.{arith}
use mqttview.Common.Lists.{length, drop, keep_if, keep_if-append, All, All-drop}

module _ {ℓ} {A : Type ℓ} (p : A → Bool) where
  pub keep_if_none : (xs : List A) → All (λ x. p x ≡ false) xs → keep_if p xs ≡ []
  keep_if_none [] h = refl
  keep_if_none (x ∷ xs) h = ground (arith, h.0, keep_if_none xs h.1)

  pub keep_if-All : (xs : List A) → All (λ x. p x ≡ true) xs → keep_if p xs ≡ xs
  keep_if-All [] h = refl
  keep_if-All (x ∷ xs) h = ground (arith, h.0, keep_if-All xs h.1)

  -- What is kept of a list's end, where its front is refused and its back is accepted.
  pub keep_if-drop :
      (k : ℕ) (xs ys : List A)
      → All (λ x. p x ≡ false) xs
      → All (λ y. p y ≡ true) ys
      → keep_if p (drop k (xs ++ ys)) ≡ drop (k - length xs) ys
  keep_if-drop zero xs ys h g =
      let e : 0 - length xs ≡ 0 = omega arith in
      keep_if-append p xs ys
      ∙ ap (λ l. l ++ keep_if p ys) (keep_if_none xs h)
      ∙ keep_if-All ys g
      ∙ ap (λ k. drop k ys) (sym e)
  keep_if-drop (suc k) [] ys h g =
      let e : suc k - 0 ≡ suc k = omega arith in
      keep_if-All (drop (suc k) ys) (All-drop (λ y. p y ≡ true) (suc k) ys g)
      ∙ ap (λ k. drop k ys) (sym e)
  keep_if-drop (suc k) (x ∷ xs) ys h g =
      let e : suc k - suc (length xs) ≡ k - length xs = omega arith in
      keep_if-drop k xs ys h.1 g ∙ ap (λ k. drop k ys) (sym e)

  pub keep_if-and :
      (q : A → Bool) (xs : List A) → keep_if (λ x. p x && q x) xs ≡ keep_if q (keep_if p xs)
  keep_if-and q [] = refl
  keep_if-and q (x ∷ xs) = ground (arith, keep_if-and q xs)
