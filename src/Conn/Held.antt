-- ===== src/Conn/Held.antt =====
-- What the operations on subscriptions do to what is wanted and what is held.
use mqttview.Common.{
  ◌≡◌, refl, sym, ap, ◌∙◌, subst, ◌⊎◌, inl, inr, Bool, true, false, not, ◌&&◌, ◌||◌, none, List, [],
  ◌∷◌, ◌++◌, foldl, Bytes, bytes_eq, bytes_eq_iff, lookup, insert, delete, lookup-insert,
  lookup-delete, is_some, keep_if, if_inv, ap_if, Bool-cases, arith,
}
use mqttview.Conn.{Conn, Subscription, contains, has_filter, filters_of, sys_filter, replace}

-- Whether the user, a plugin or the statistics want a filter.
unfoldable pub wants : Bytes → Conn → Bool
wants f c =
    has_filter f c.subscriptions
    || (is_some (lookup f c.ephemeral) || (c.sys_stats && bytes_eq sys_filter f))

pub none_left : is_some {A = Subscription} none ≡ true → ⊥
none_left e = ground arith

pub contains-append :
    (f : Bytes) (gs hs : List Bytes) → contains f (gs ++ hs) ≡ (contains f gs || contains f hs)
contains-append f [] hs = refl
contains-append f (g ∷ gs) hs = ground (arith, contains-append f gs hs)

pub contains-filters_of :
    (f : Bytes) (subs : List Subscription) → contains f (filters_of subs) ≡ has_filter f subs
contains-filters_of f [] = refl
contains-filters_of f (s ∷ subs) = ap (λ b. bytes_eq s.filter f || b) (contains-filters_of f subs)

pub contains-keep_if :
    (f : Bytes) (p : Bytes → Bool) (gs : List Bytes)
    → contains f gs ≡ true
    → p f ≡ true
    → contains f (keep_if p gs) ≡ true
contains-keep_if f p [] h k = h
contains-keep_if f p (g ∷ gs) h k = elim (Bool-cases (bytes_eq g f)) [
  | inl y ↦ let kept : p g ≡ true = ap p ((bytes_eq_iff g f).0 y) ∙ k in rw (kept, y) refl
  | inr n ↦ elim (Bool-cases (p g)) [
    | inl kept ↦
        rw (kept, n) (contains-keep_if f p gs (subst (λ b. (b || contains f gs) ≡ true) n h) k)
    | inr gone ↦ rw gone (contains-keep_if f p gs (subst (λ b. (b || contains f gs) ≡ true) n h) k)
  ]
]

pub kept-inv :
    (f : Bytes) (p : Bytes → Bool) (gs : List Bytes)
    → contains f (keep_if p gs) ≡ true
    → (contains f gs ≡ true) × (p f ≡ true)
kept-inv f p [] h = absurd (ground arith)
kept-inv f p (g ∷ gs) h =
    let rest = keep_if p gs in
    elim (if_inv (p g) (contains f (g ∷ rest)) (contains f rest) true
      (sym (ap_if (contains f) (p g) (g ∷ rest) rest) ∙ h)) [
        | inl (y, e) ↦ elim (Bool-cases (bytes_eq g f)) [
          | inl here ↦ (rw here refl, ap p (sym ((bytes_eq_iff g f).0 here)) ∙ y)
          | inr differ ↦
              let (there, k) =
                kept-inv f p gs (subst (λ b. (b || contains f rest) ≡ true) differ e) in
              (rw differ there, k)
        ]
        | inr (n, e) ↦ let (there, k) = kept-inv f p gs e in (ground arith, k)
      ]

has_filter-replace :
    (f : Bytes) (s : Subscription) (l : List Subscription)
    → has_filter f (replace s l) ≡ true
    → (bytes_eq s.filter f ≡ true) ⊎ (has_filter f l ≡ true)
unfolding replace
has_filter-replace f s [] h = ground arith
has_filter-replace f s (t ∷ l) h =
    let same = bytes_eq t.filter s.filter in
    elim (if_inv same (has_filter f (s ∷ l)) (has_filter f (t ∷ replace s l)) true
      (sym (ap_if (has_filter f) same (s ∷ l) (t ∷ replace s l)) ∙ h)) [
        | inl (y, e) ↦ ground arith
        | inr (n, e) ↦ elim (Bool-cases (bytes_eq t.filter f)) [
          | inl here ↦ inr (rw here refl)
          | inr differ ↦
              elim (has_filter-replace f s l
                (subst (λ b. (b || has_filter f (replace s l)) ≡ true) differ e)) [
                  | inl y ↦ inl y
                  | inr there ↦ inr (rw differ there)
                ]
        ]
      ]

pub has_filter-replaces :
    (f : Bytes) (subs l : List Subscription)
    → has_filter f (foldl (λ l s. replace s l) l subs) ≡ true
    → (has_filter f subs ≡ true) ⊎ (has_filter f l ≡ true)
has_filter-replaces f [] l h = inr h
has_filter-replaces f (s ∷ subs) l h = elim (has_filter-replaces f subs (replace s l) h) [
  | inl later ↦ inl (ground arith)
  | inr now ↦ elim (has_filter-replace f s l now) [
    | inl y ↦ inl (ground arith)
    | inr before ↦ inr before
  ]
]

pub lookup-inserts :
    (f : Bytes) (subs : List Subscription) (m : List (Bytes × Subscription))
    → is_some (lookup f (foldl (λ m s. insert s.filter s m) m subs)) ≡ true
    → (has_filter f subs ≡ true) ⊎ (is_some (lookup f m) ≡ true)
lookup-inserts f [] m h = inr h
lookup-inserts f (s ∷ subs) m h = elim (lookup-inserts f subs (insert s.filter s m) h) [
  | inl later ↦ inl (ground arith)
  | inr now ↦ elim (Bool-cases (bytes_eq s.filter f)) [
    | inl y ↦ inl (ground arith)
    | inr n ↦ inr (ap is_some (sym (lookup-insert s.filter f s m ∙ rw n refl)) ∙ now)
  ]
]

pub has_filter-keep_if :
    (f : Bytes) (fs : List Bytes) (l : List Subscription)
    → has_filter f (keep_if (λ s. not (contains s.filter fs)) l) ≡ true
    → (contains f fs ≡ false) × (has_filter f l ≡ true)
has_filter-keep_if f fs [] h = absurd (ground arith)
has_filter-keep_if f fs (s ∷ l) h =
    let p = not (contains s.filter fs) in
    let rest = keep_if (λ t. not (contains t.filter fs)) l in
    elim (if_inv p (has_filter f (s ∷ rest)) (has_filter f rest) true
      (sym (ap_if (has_filter f) p (s ∷ rest) rest) ∙ h)) [
        | inl (y, e) ↦ elim (Bool-cases (bytes_eq s.filter f)) [
          | inl here ↦
              let free : contains s.filter fs ≡ false = ground arith in
              (
                subst (λ g. contains g fs ≡ false) ((bytes_eq_iff s.filter f).0 here) free,
                rw here refl,
              )
          | inr differ ↦
              let (free, there) =
                has_filter-keep_if f fs l (subst (λ b. (b || has_filter f rest) ≡ true) differ e) in
              (free, rw differ there)
        ]
        | inr (n, e) ↦ let (free, there) = has_filter-keep_if f fs l e in (free, ground arith)
      ]

pub lookup-deletes :
    (f : Bytes) (fs : List Bytes) (m : List (Bytes × Subscription))
    → is_some (lookup f (foldl (λ m g. delete g m) m fs)) ≡ true
    → (contains f fs ≡ false) × (is_some (lookup f m) ≡ true)
lookup-deletes f [] m h = (refl, h)
lookup-deletes f (g ∷ fs) m h =
    let (later, there) = lookup-deletes f fs (delete g m) h in
    elim (Bool-cases (bytes_eq g f)) [
      | inl y ↦
          let gone : lookup f (delete g m) ≡ none = lookup-delete g f m ∙ rw y refl in
          absurd (none_left (sym (ap is_some gone) ∙ there))
      | inr n ↦
          let same : lookup f (delete g m) ≡ lookup f m = lookup-delete g f m ∙ rw n refl in
          (rw n later, ap is_some (sym same) ∙ there)
    ]
