-- ===== src/Ring/Oldest.antt =====
-- What one `put` does to the contents: an open ring grows, a filled one loses its oldest element,
-- which stands at the index that is written next.
use mqttview.Common.{
  ℕ, suc, ◌≡◌, ap, ◌∙◌, true, false, List, [], ◌∷◌, ◌++◌, get_or, take, drop, drop-cons,
  if◌then◌else◌, arith,
}
use mqttview.Ring.{Ring, put, chronological}
use mqttview.Ring.Bounds.{IsRing, length-chronological, chronological-put, last_n_room, last_n_full}

module _ {ℓ} {A : Type ℓ} (size : ℕ) (r : Ring A) (ring : IsRing size r) (x : A) where
  pub chronological-put_open :
      r.filled ≡ false → chronological (put r x) ≡ chronological r ++ x ∷ []
  chronological-put_open e =
      chronological-put size r x ring
      ∙ last_n_room size (chronological r) x (
          omega (
            arith,
            length-chronological size r ring,
            ap (λ b. if b then size else r.next) e,
            ring.inside,
          ))

  abbrev pub after_oldest : List A
  after_oldest = drop (suc r.next) r.buf ++ take r.next r.buf

  pub chronological_oldest :
      (d : A) → r.filled ≡ true → chronological r ≡ get_or r.buf r.next d ∷ after_oldest
  unfolding chronological
  chronological_oldest d e = rw e (
      ap (λ l. l ++ take r.next r.buf)
        (drop-cons d r.next r.buf (omega (arith, ring.sized, ring.inside))))

  pub chronological-put_full : r.filled ≡ true → chronological (put r x) ≡ after_oldest ++ x ∷ []
  chronological-put_full e =
      chronological-put size r x ring
      ∙ last_n_full size (chronological r) x
          (length-chronological size r ring ∙ ap (λ b. if b then size else r.next) e)
          (omega (arith, ring.inside))
      ∙ ap (λ l. drop 1 l ++ x ∷ []) (chronological_oldest x e)
