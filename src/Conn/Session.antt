-- ===== src/Conn/Session.antt =====
-- A session that holds what is wanted, and what requests to the broker make of it.
use mqttview.Common.{
  ◌≡◌, refl, sym, ap, ◌∙◌, subst, ◌⊎◌, inl, inr, Bool, true, false, not, ◌&&◌, ◌||◌, Option, none,
  some, List, [], ◌∷◌, ◌++◌, map, foldl, Bytes, bytes_eq, bytes_eq_iff, lookup, insert, delete,
  is_some, if◌then◌else◌, Bool-cases, All, All-insert, All-delete, arith,
}
use mqttview.Conn.{
  Conn, Subscription, contains, has_filter, filters_of, sys_filter, sys_subscription, asked,
  asked_to_drop, ask, wanted_subscriptions, connected,
}
use mqttview.Conn.Held.{wants, contains-append, contains-filters_of, contains-keep_if, none_left}

-- The map of the plugins' subscriptions is keyed by their filters.
abbrev pub IsKeyed : List (Bytes × Subscription) → Type 0
IsKeyed m = All (λ x. x.1.filter ≡ x.0) m

-- Every filter that is wanted is held, while there is a session.
pub record IsConn (c : Conn) : Type 0 where
  pub keyed : All (λ x. x.1.filter ≡ x.0) c.ephemeral
  pub held :
      (session : List Bytes)
      → c.session ≡ some session
      → (f : Bytes) → wants f c ≡ true
      → contains f session ≡ true

pub inserts-IsKeyed :
    (subs : List Subscription) (m : List (Bytes × Subscription))
    → IsKeyed m
    → IsKeyed (foldl (λ m s. insert s.filter s m) m subs)
inserts-IsKeyed [] m h = h
inserts-IsKeyed (s ∷ subs) m h =
    inserts-IsKeyed subs (insert s.filter s m)
      (All-insert (λ x. x.1.filter ≡ x.0) s.filter s m refl h)

pub deletes-IsKeyed :
    (fs : List Bytes) (m : List (Bytes × Subscription))
    → IsKeyed m
    → IsKeyed (foldl (λ m g. delete g m) m fs)
deletes-IsKeyed [] m h = h
deletes-IsKeyed (g ∷ fs) m h =
    deletes-IsKeyed fs (delete g m) (All-delete (λ x. x.1.filter ≡ x.0) g m h)

-- What is in the map is among the subscriptions that `connect` asks for.
looked-has_filter :
    (f : Bytes) (m : List (Bytes × Subscription))
    → IsKeyed m
    → is_some (lookup f m) ≡ true
    → has_filter f (map (λ x. x.1) m) ≡ true
unfolding lookup
looked-has_filter f [] k h = absurd (none_left h)
looked-has_filter f ((g, s) ∷ m) k h = elim (Bool-cases (bytes_eq g f)) [
  | inl y ↦
      let here : bytes_eq s.filter f ≡ true =
        (bytes_eq_iff s.filter f).1 (k.0 ∙ (bytes_eq_iff g f).0 y) in
      rw here refl
  | inr n ↦
      let later : is_some (lookup f m) ≡ true =
        subst (λ b. is_some (if b then some s else lookup f m) ≡ true) n h in
      let ih = looked-has_filter f m k.1 later in ground arith
]

has_filter-append :
    (f : Bytes) (a b : List Subscription)
    → has_filter f (a ++ b) ≡ (has_filter f a || has_filter f b)
has_filter-append f [] b = refl
has_filter-append f (s ∷ a) b = ground (arith, has_filter-append f a b)

pub no_session : {l : List Bytes} → some l ≡ none → ⊥
no_session e = ground arith

some-inj : {a b : List Bytes} → some a ≡ some b → a ≡ b
some-inj e = cc

or_true : (b : Bool) → (b || true) ≡ true
or_true b = ground arith

pub or3 : (a b c : Bool) → (a || (b || c)) ≡ true → (a ≡ true) ⊎ ((b ≡ true) ⊎ (c ≡ true))
or3 true b c e = inl refl
or3 false true c e = inr (inl refl)
or3 false false c e = inr (inr e)

or3_intro : (a b c : Bool) → (a ≡ true) ⊎ ((b ≡ true) ⊎ (c ≡ true)) → (a || (b || c)) ≡ true
or3_intro a b c (inl e) = ground arith
or3_intro a b c (inr (inl e)) = ground arith
or3_intro a b c (inr (inr e)) = ground arith

sys_listed :
    (f : Bytes) (on : Bool)
    → has_filter f (if on then sys_subscription ∷ [] else []) ≡ (on && bytes_eq sys_filter f)
sys_listed f true = ground arith
sys_listed f false = refl

pub both : true ≡ false → ⊥
both e = ground arith

pub none_of : (a b : Bool) → (a ≡ true → ⊥) → b ≡ false → (a || b) ≡ false
none_of a b never e = elim (Bool-cases a) [ inl y ↦ absurd (never y) | inr n ↦ rw (n, e) refl ]

unless : (a b : Bool) → b ≡ true → (a ≡ true → b ≡ false) → not a ≡ true
unless a b h k = elim (Bool-cases a) [
  | inl y ↦ let bad = k y in absurd (ground arith)
  | inr n ↦ rw n refl
]

-- The two halves of what a request for filters needs.
pub record Asks (filters : List Bytes) (c : Conn) : Type 0 where
  pub keyed : IsKeyed c.ephemeral
  pub more :
      (held : List Bytes)
      → c.session ≡ some held
      → (f : Bytes) → wants f c ≡ true
      → (contains f filters ≡ true) ⊎ (contains f held ≡ true)

pub asked-IsConn :
    (filters : List Bytes) (c : Conn) (o : Option (List Bytes))
    → c.session ≡ o
    → Asks filters c
    → IsConn (asked true filters c o).0
unfolding asked wants
asked-IsConn filters c none e a = record {
  keyed = a.keyed;
  held = λ session there f w. absurd (no_session (sym there ∙ e));
}
asked-IsConn filters c (some held) e a = record {
  keyed = a.keyed;
  held = λ session there f w.
      subst (λ l. contains f l ≡ true) (some-inj there)
        (contains-append f filters held ∙ elim (a.more held e f w) [
          | inl y ↦ rw y refl
          | inr y ↦ rw y (or_true (contains f filters))
        ]);
}

pub asked_to_drop-IsConn :
    (filters : List Bytes) (c : Conn) (o : Option (List Bytes))
    → c.session ≡ o
    → IsConn c
    → ((f : Bytes) → contains f filters ≡ true → wants f c ≡ false)
    → IsConn (asked_to_drop true filters c o).0
unfolding asked_to_drop wants
asked_to_drop-IsConn filters c none e i free = i
asked_to_drop-IsConn filters c (some held) e i free = record {
  keyed = i.keyed;
  held = λ session there f w.
      subst (λ l. contains f l ≡ true) (some-inj there)
        (contains-keep_if f (λ g. not (contains g filters)) held (i.held held e f w)
          (unless (contains f filters) (wants f c) w (free f)));
}

-- The connection that wants less holds what it wants.
pub fewer-IsConn :
    (c c' : Conn)
    → IsConn c
    → IsKeyed c'.ephemeral
    → c'.session ≡ c.session
    → ((f : Bytes) → wants f c' ≡ true → wants f c ≡ true)
    → IsConn c'
fewer-IsConn c c' i keyed same fewer = record {
  keyed = keyed;
  held = λ session there f w. i.held session (sym same ∙ there) f (fewer f w);
}

-- What the list that `connect` asks for holds.
wanted-asked :
    (c : Conn) (f : Bytes)
    → IsKeyed c.ephemeral
    → wants f c ≡ true
    → contains f (filters_of (wanted_subscriptions c)) ≡ true
unfolding wants wanted_subscriptions
wanted-asked c f keyed w =
    contains-filters_of f _
    ∙ (has_filter-append f c.subscriptions _
        ∙ ap (λ b. has_filter f c.subscriptions || b)
            (has_filter-append f (map (λ x. x.1) c.ephemeral) _)
        ∙ or3_intro (has_filter f c.subscriptions) (has_filter f (map (λ x. x.1) c.ephemeral))
            (has_filter f (if c.sys_stats then sys_subscription ∷ [] else []))
            (elim (or3 (has_filter f c.subscriptions) (is_some (lookup f c.ephemeral))
              (c.sys_stats && bytes_eq sys_filter f) w) [
                | inl y ↦ inl y
                | inr (inl y) ↦ inr (inl (looked-has_filter f c.ephemeral keyed y))
                | inr (inr y) ↦ inr (inr (sys_listed f c.sys_stats ∙ y))
              ]))

pub connected-IsConn : (c : Conn) → IsKeyed c.ephemeral → IsConn (connected true c)
unfolding connected ask wants
connected-IsConn c keyed =
    asked-IsConn (filters_of (wanted_subscriptions c)) (record c { session = some [] }) (some [])
      refl (record { keyed = keyed; more = λ held e f w. inl (wanted-asked c f keyed w) })

pub wants_by :
    (f : Bytes) (c : Conn)
    → (has_filter f c.subscriptions ≡ true)
      ⊎ ((is_some (lookup f c.ephemeral) ≡ true) ⊎ ((c.sys_stats && bytes_eq sys_filter f) ≡ true))
    → wants f c ≡ true
unfolding wants
wants_by f c h =
    or3_intro (has_filter f c.subscriptions) (is_some (lookup f c.ephemeral))
      (c.sys_stats && bytes_eq sys_filter f) h
