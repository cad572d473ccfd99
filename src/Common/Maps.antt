-- ===== src/Common/Maps.antt =====
-- Go maps keyed by strings, as association lists. Iteration order is the list's.
use mathlib.Core.Path.{◌≡◌, refl}
use mathlib.Core.List.{List, [], ◌∷◌}
use mathlib.Core.Option.{Option, none, some}
use native.Mathlib.Omega.{arith}
use mathlib.Core.Logic.{inl, inr}
use mqttview.Common.Lists.{All}
use mqttview.Common.Tests.{if◌then◌else◌, Bool-cases}
use mqttview.Common.Text.{Bytes, bytes_eq, bytes_eq_iff}

module _ {ℓ} {V : Type ℓ} where
  unfoldable pub lookup : Bytes → List (Bytes × V) → Option V
  lookup key [] = none
  lookup key ((held, value) ∷ rest) = if bytes_eq held key then some value else lookup key rest

  -- `m[k] = v`
  unfoldable pub insert : Bytes → V → List (Bytes × V) → List (Bytes × V)
  insert key value [] = (key, value) ∷ []
  insert key value ((held, old) ∷ rest) =
      if bytes_eq held key then (key, value) ∷ rest else (held, old) ∷ insert key value rest

  -- `delete(m, k)`
  unfoldable pub delete : Bytes → List (Bytes × V) → List (Bytes × V)
  delete key [] = []
  delete key ((held, old) ∷ rest) =
      if bytes_eq held key then delete key rest else (held, old) ∷ delete key rest

  pub lookup-insert :
      (key other : Bytes) (value : V) (rest : List (Bytes × V))
      → lookup other (insert key value rest)
        ≡ (if bytes_eq key other then some value else lookup other rest)
  unfolding lookup insert
  lookup-insert key other value [] = refl
  lookup-insert key other value ((held, old) ∷ rest) =
      let ih = lookup-insert key other value rest in
      ground (arith, bytes_eq_iff held other, bytes_eq_iff held key, bytes_eq_iff key other)

  pub lookup-delete :
      (key other : Bytes) (rest : List (Bytes × V))
      → lookup other (delete key rest) ≡ (if bytes_eq key other then none else lookup other rest)
  unfolding lookup delete
  lookup-delete key other [] = ground arith
  lookup-delete key other ((held, old) ∷ rest) =
      let ih = lookup-delete key other rest in
      ground (arith, bytes_eq_iff held other, bytes_eq_iff held key, bytes_eq_iff key other)

  module _ {κ} (P : Bytes × V → Type κ) where
    pub All-insert :
        (k : Bytes) (v : V) (m : List (Bytes × V)) → P (k, v) → All P m → All P (insert k v m)
    unfolding insert
    All-insert k v [] p h = (p, tt)
    All-insert k v ((j, w) ∷ m) p h = elim (Bool-cases (bytes_eq j k)) [
      | inl y ↦ rw y (p, h.1)
      | inr y ↦ rw y (h.0, All-insert k v m p h.1)
    ]

    pub All-delete : (k : Bytes) (m : List (Bytes × V)) → All P m → All P (delete k m)
    unfolding delete
    All-delete k [] h = tt
    All-delete k ((j, w) ∷ m) h = elim (Bool-cases (bytes_eq j k)) [
      | inl y ↦ rw y (All-delete k m h.1)
      | inr y ↦ rw y (h.0, All-delete k m h.1)
    ]
