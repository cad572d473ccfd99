-- ===== src/Common/Lists.antt =====
-- Lists measured and indexed by native numbers, under the library's names.
use Prim.Native.Nat.{ℕ, zero, suc, ◌+◌, ◌-◌, ◌≤◌, ◌<◌, min}
use mathlib.Core.Path.{◌≡◌, refl, ap, sym, ◌∙◌}
use mathlib.Core.Bool.{Bool}
use mathlib.Core.List.{List, [], ◌∷◌, ◌++◌, map}
use mathlib.Core.Option.{Option, none, some}
use native.Mathlib.Omega.{arith}
use mqttview.Common.Tests.{if◌then◌else◌}

module _ {ℓ} {A : Type ℓ} where
  abbrev pub length : List A → ℕ
  length [] = 0
  length (a ∷ l) = suc (length l)

  abbrev pub get_elem? : List A → ℕ → Option A
  get_elem? [] i = none
  get_elem? (a ∷ l) zero = some a
  get_elem? (a ∷ l) (suc i) = get_elem? l i

  abbrev pub get_or : List A → ℕ → A → A
  get_or [] i d = d
  get_or (a ∷ l) zero d = a
  get_or (a ∷ l) (suc i) d = get_or l i d

  -- A write out of bounds changes nothing.
  abbrev pub set : List A → ℕ → A → List A
  set [] i v = []
  set (a ∷ l) zero v = v ∷ l
  set (a ∷ l) (suc i) v = a ∷ set l i v

  abbrev pub take : ℕ → List A → List A
  take zero l = []
  take (suc n) [] = []
  take (suc n) (a ∷ l) = a ∷ take n l

  abbrev pub drop : ℕ → List A → List A
  drop zero l = l
  drop (suc n) [] = []
  drop (suc n) (a ∷ l) = drop n l

  abbrev pub replicate : ℕ → A → List A
  replicate zero a = []
  replicate (suc n) a = a ∷ replicate n a

  -- The library's `filter` over a Boolean test.
  abbrev pub keep_if : (A → Bool) → List A → List A
  keep_if p [] = []
  keep_if p (a ∷ l) = if p a then a ∷ keep_if p l else keep_if p l

  -- The last `n` elements.
  abbrev pub last_n : ℕ → List A → List A
  last_n n l = drop (length l - n) l

  abbrev pub All {κ} : (A → Type κ) → List A → Type κ
  All P [] = Unit
  All P (a ∷ l) = P a × All P l

module _ {ℓ} {A : Type ℓ} where
  pub length-append : (l ys : List A) → length (l ++ ys) ≡ length l + length ys
  length-append [] ys = omega arith
  length-append (a ∷ l) ys = omega (arith, length-append l ys)

  pub length-set : (l : List A) (i : ℕ) (v : A) → length (set l i v) ≡ length l
  length-set [] i v = refl
  length-set (a ∷ l) zero v = refl
  length-set (a ∷ l) (suc i) v = ap suc (length-set l i v)

  pub length-replicate : (n : ℕ) (a : A) → length (replicate n a) ≡ n
  length-replicate zero a = refl
  length-replicate (suc n) a = ap suc (length-replicate n a)

  pub length-take : (n : ℕ) (l : List A) → length (take n l) ≡ min n (length l)
  length-take zero l = omega arith
  length-take (suc n) [] = omega arith
  length-take (suc n) (a ∷ l) = omega (arith, length-take n l)

  pub length-drop : (n : ℕ) (l : List A) → length (drop n l) ≡ length l - n
  length-drop zero l = omega arith
  length-drop (suc n) [] = omega arith
  length-drop (suc n) (a ∷ l) = omega (arith, length-drop n l)

  pub length-map {κ} : {B : Type κ} (f : A → B) (l : List A) → length (map f l) ≡ length l
  length-map f [] = refl
  length-map f (a ∷ l) = ap suc (length-map f l)

  pub length-keep_if-le : (p : A → Bool) (l : List A) → length (keep_if p l) ≤ length l
  length-keep_if-le p [] = omega arith
  length-keep_if-le p (a ∷ l) = ground (arith, length-keep_if-le p l)

  pub keep_if-append :
      (p : A → Bool) (l ys : List A) → keep_if p (l ++ ys) ≡ keep_if p l ++ keep_if p ys
  keep_if-append p [] ys = refl
  keep_if-append p (a ∷ l) ys = ground (arith, keep_if-append p l ys)

  pub take-append-drop : (n : ℕ) (l : List A) → take n l ++ drop n l ≡ l
  take-append-drop zero l = refl
  take-append-drop (suc n) [] = refl
  take-append-drop (suc n) (a ∷ l) = ap (◌∷◌ a) (take-append-drop n l)

  pub take_of_length-le : (n : ℕ) (l : List A) → length l ≤ n → take n l ≡ l
  take_of_length-le (suc n) (a ∷ l) h =
      let ih = take_of_length-le n l (omega arith) in ap (◌∷◌ a) ih
  take_of_length-le (suc n) [] h = refl
  take_of_length-le zero (a ∷ l) h = absurd (omega arith)
  take_of_length-le zero [] h = refl

  pub drop_of_length-le : (n : ℕ) (l : List A) → length l ≤ n → drop n l ≡ []
  drop_of_length-le zero [] h = refl
  drop_of_length-le zero (a ∷ l) h = absurd (omega arith)
  drop_of_length-le (suc n) [] h = refl
  drop_of_length-le (suc n) (a ∷ l) h = drop_of_length-le n l (omega arith)

  pub drop-append_left : (n : ℕ) (l ys : List A) → n ≤ length l → drop n (l ++ ys) ≡ drop n l ++ ys
  drop-append_left zero l ys h = refl
  drop-append_left (suc n) [] ys h = absurd (omega arith)
  drop-append_left (suc n) (a ∷ l) ys h = drop-append_left n l ys (omega arith)

  pub drop-drop : (m n : ℕ) (l : List A) → drop m (drop n l) ≡ drop (n + m) l
  drop-drop m zero l = ap (λ k. drop k l) (omega arith)
  drop-drop zero (suc n) [] = let e : suc n + 0 ≡ suc n = omega arith in rw e refl
  drop-drop (suc m) (suc n) [] = let e : suc n + suc m ≡ suc (n + suc m) = omega arith in rw e refl
  drop-drop m (suc n) (a ∷ l) =
      let e : suc n + m ≡ suc (n + m) = omega arith in rw e (drop-drop m n l)

  -- A write inside the list splits it there.
  pub set-take-drop :
      (l : List A) (i : ℕ) (v : A) → i < length l → set l i v ≡ take i l ++ v ∷ drop (suc i) l
  set-take-drop [] i v h = elim h [ ]
  set-take-drop (a ∷ l) zero v h = refl
  set-take-drop (a ∷ l) (suc i) v h = ap (◌∷◌ a) (set-take-drop l i v (omega arith))

  pub take-set : (l : List A) (i : ℕ) (v : A) → take i (set l i v) ≡ take i l
  take-set [] i v = refl
  take-set (a ∷ l) zero v = refl
  take-set (a ∷ l) (suc i) v = ap (◌∷◌ a) (take-set l i v)

  pub take-suc-set :
      (l : List A) (i : ℕ) (v : A) → i < length l → take (suc i) (set l i v) ≡ take i l ++ v ∷ []
  take-suc-set [] i v h = elim h [ ]
  take-suc-set (a ∷ l) zero v h = refl
  take-suc-set (a ∷ l) (suc i) v h = ap (◌∷◌ a) (take-suc-set l i v (omega arith))

  pub drop-suc-set : (l : List A) (i : ℕ) (v : A) → drop (suc i) (set l i v) ≡ drop (suc i) l
  drop-suc-set [] i v = refl
  drop-suc-set (a ∷ l) zero v = refl
  drop-suc-set (a ∷ l) (suc i) v = drop-suc-set l i v

  pub drop_one-drop : (i : ℕ) (l : List A) → drop 1 (drop i l) ≡ drop (suc i) l
  drop_one-drop zero l = refl
  drop_one-drop (suc i) [] = refl
  drop_one-drop (suc i) (a ∷ l) = drop_one-drop i l

  -- Keeping the last `n` of a list whose front was already cut to `n` loses nothing.
  pub last_n-append_one :
      (n : ℕ) (l : List A) (a : A)
      → last_n (suc n) (last_n (suc n) l ++ a ∷ []) ≡ last_n (suc n) (l ++ a ∷ [])
  last_n-append_one n l a =
      let ys = last_n (suc n) l in
      let d = length l - suc n in
      let e = length ys + 1 - suc n in
      let l1 : length (ys ++ a ∷ []) ≡ length ys + 1 = length-append ys (a ∷ []) in
      let l2 : length (l ++ a ∷ []) ≡ length l + 1 = length-append l (a ∷ []) in
      let l3 : length ys ≡ length l - d = length-drop d l in
      let s : d + (length (ys ++ a ∷ []) - suc n) ≡ length (l ++ a ∷ []) - suc n = omega arith in
      ap (drop (length (ys ++ a ∷ []) - suc n)) (sym (drop-append_left d l (a ∷ []) (omega arith)))
      ∙ drop-drop (length (ys ++ a ∷ []) - suc n) d (l ++ a ∷ [])
      ∙ ap (λ k. drop k (l ++ a ∷ [])) s

pub drop-cons {ℓ} :
    {A : Type ℓ} (d : A) (i : ℕ) (l : List A)
    → i < length l
    → drop i l ≡ get_or l i d ∷ drop (suc i) l
drop-cons d i [] h = absurd (omega arith)
drop-cons d zero (a ∷ l) h = refl
drop-cons d (suc i) (a ∷ l) h = drop-cons d i l (omega arith)

pub All-append_left {ℓ κ} :
    {A : Type ℓ} (P : A → Type κ) (l ys : List A) → All P (l ++ ys) → All P l
All-append_left P [] ys h = tt
All-append_left P (a ∷ l) ys h = (h.0, All-append_left P l ys h.1)

pub All-drop {ℓ κ} : {A : Type ℓ} (P : A → Type κ) (n : ℕ) (l : List A) → All P l → All P (drop n l)
All-drop P zero l h = h
All-drop P (suc n) [] h = tt
All-drop P (suc n) (a ∷ l) h = All-drop P n l h.1

pub drop-nil {ℓ} : {A : Type ℓ} (n : ℕ) → drop {A = A} n [] ≡ []
drop-nil zero = refl
drop-nil (suc n) = refl

pub All-map {ℓ κ} :
    {A : Type ℓ} (P Q : A → Type κ) (l : List A) → ((a : A) → P a → Q a) → All P l → All Q l
All-map P Q [] f h = tt
All-map P Q (a ∷ l) f h = (f a h.0, All-map P Q l f h.1)

pub take-append_enough {ℓ} :
    {A : Type ℓ} (n : ℕ) (l r : List A) → n ≤ length l → take n (l ++ r) ≡ take n l
take-append_enough zero l r h = refl
take-append_enough (suc n) [] r h = absurd (omega arith)
take-append_enough (suc n) (a ∷ l) r h = ap (◌∷◌ a) (take-append_enough n l r (omega arith))

pub take_all {ℓ} : {A : Type ℓ} (n : ℕ) (l r : List A) → length l ≡ n → take n (l ++ r) ≡ l
take_all n l r h = take-append_enough n l r (omega arith) ∙ take_of_length-le n l (omega arith)

pub All-append {ℓ κ} :
    {A : Type ℓ} (P : A → Type κ) (l ys : List A) → All P l → All P ys → All P (l ++ ys)
All-append P [] ys h g = g
All-append P (a ∷ l) ys h g = (h.0, All-append P l ys h.1 g)
