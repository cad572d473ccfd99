-- ===== src/Common/Sort.antt =====
-- `sort.Slice`: a sorted list of the same elements. Go leaves the order of equal elements open; no
-- theorem rests on the one that is chosen here.
use Prim.Native.Nat.{suc}
use mathlib.Core.Path.{◌≡◌, refl, ap, ◌∙◌}
use mathlib.Core.Logic.{inl, inr}
use mathlib.Core.Bool.{Bool, false}
use mathlib.Core.List.{List, [], ◌∷◌}
use native.Mathlib.Omega.{arith}
use mqttview.Common.Lists.{length, All}
use mqttview.Common.Tests.{if◌then◌else◌, Bool-cases}

module _ {ℓ} {A : Type ℓ} (less : A → A → Bool) where
  unfoldable pub insert_sorted : A → List A → List A
  insert_sorted a [] = a ∷ []
  insert_sorted a (b ∷ l) = if less b a then b ∷ insert_sorted a l else a ∷ b ∷ l

  unfoldable pub sort_by : List A → List A
  unfolding insert_sorted
  sort_by [] = []
  sort_by (a ∷ l) = insert_sorted a (sort_by l)

  length-insert_sorted : (a : A) (l : List A) → length (insert_sorted a l) ≡ suc (length l)
  unfolding insert_sorted
  length-insert_sorted a [] = refl
  length-insert_sorted a (b ∷ l) = ground (arith, length-insert_sorted a l)

  pub length-sort_by : (l : List A) → length (sort_by l) ≡ length l
  unfolding sort_by
  length-sort_by [] = refl
  length-sort_by (a ∷ l) = length-insert_sorted a (sort_by l) ∙ ap suc (length-sort_by l)

  module _ {κ} (P : A → Type κ) where
    pub All-insert_sorted : (a : A) (l : List A) → P a → All P l → All P (insert_sorted a l)
    unfolding insert_sorted
    All-insert_sorted a [] p h = (p, tt)
    All-insert_sorted a (b ∷ l) p h = elim (Bool-cases (less b a)) [
      | inl y ↦ rw y (h.0, All-insert_sorted a l p h.1)
      | inr y ↦ rw y (p, h)
    ]

    pub All-sort_by : (l : List A) → All P l → All P (sort_by l)
    unfolding sort_by
    All-sort_by [] h = tt
    All-sort_by (a ∷ l) h = All-insert_sorted a (sort_by l) h.0 (All-sort_by l h.1)

  -- No element before one that is less than it.
  abbrev pub IsSorted : List A → Type 0
  IsSorted [] = Unit
  IsSorted (a ∷ l) = All (λ b. less b a ≡ false) l × IsSorted l
