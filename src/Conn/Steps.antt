-- ===== src/Conn/Steps.antt =====
-- The broker holds every subscription that somebody wants.
use mqttview.Common.{
  ◌≡◌, refl, sym, ◌∙◌, subst, inl, inr, Bool, true, false, not, ◌&&◌, ◌||◌, Option, none, some,
  List, [], ◌∷◌, foldl, Bytes, bytes_eq, lookup, insert, delete, is_some, keep_if, arith,
}
use mqttview.Conn.{
  Conn, new_conn, Subscription, ConnError, contains, has_filter, filters_of, sys_filter, ask,
  ask_to_drop, connected, check_filters, check_subscriptions, subscribe_ephemeral,
  unsubscribe_ephemeral, replace, subscribe, unsubscribe,
}
use mqttview.Conn.Held.{
  wants, contains-filters_of, kept-inv, has_filter-replaces, lookup-inserts, has_filter-keep_if,
  lookup-deletes,
}
use mqttview.Conn.Session.{
  IsConn, inserts-IsKeyed, deletes-IsKeyed, no_session, or3, both, none_of, asked-IsConn,
  asked_to_drop-IsConn, fewer-IsConn, connected-IsConn, wants_by,
}

-- An operation that succeeds, on a connection that has a client or not. `Unsubscribe` drops at the
-- broker what is also wanted by a plugin or the statistics, and `UnsubscribeEphemeral` what is also
-- wanted by the statistics: these steps are the ones where nobody else wants what is dropped.
pub data Step : Conn → Conn → Type 0 where
  connects : (c : Conn) → Step c (connected true c)
  disconnects : (c : Conn) → Step c (record c { session = none })
  subscribes : (c : Conn) (subs : List Subscription) → Step c (subscribe true subs c).0
  subscribes_ephemeral :
      (c : Conn) (subs : List Subscription) → Step c (subscribe_ephemeral true subs c).0
  unsubscribes :
      (c : Conn) (filters : List Bytes)
      → ((f : Bytes)
          → contains f filters ≡ true
          → (is_some (lookup f c.ephemeral) || (c.sys_stats && bytes_eq sys_filter f)) ≡ false)
      → Step c (unsubscribe true filters c).0
  unsubscribes_ephemeral :
      (c : Conn) (filters : List Bytes)
      → ((f : Bytes) → contains f filters ≡ true → (c.sys_stats && bytes_eq sys_filter f) ≡ false)
      → Step c (unsubscribe_ephemeral true filters c).0

subscribe-IsConn :
    (c : Conn) (subs : List Subscription) (o : Option ConnError)
    → IsConn c
    → IsConn
        (elim o as (λ _. Conn × Option ConnError) [
          | some e ↦ (c, some e)
          | none ↦
              ask true
                (filters_of subs)
                (record c { subscriptions = foldl (λ l s. replace s l) c.subscriptions subs })
        ]).0
unfolding ask wants
subscribe-IsConn c subs (some e) i = i
subscribe-IsConn c subs none i =
    asked-IsConn (filters_of subs)
      (record c { subscriptions = foldl (λ l s. replace s l) c.subscriptions subs }) c.session refl
      (record {
        keyed = i.keyed;
        more = λ held e f w.
            elim (or3 (has_filter f (foldl (λ l s. replace s l) c.subscriptions subs))
              (is_some (lookup f c.ephemeral)) (c.sys_stats && bytes_eq sys_filter f) w) [
                | inl y ↦ elim (has_filter-replaces f subs c.subscriptions y) [
                  | inl new ↦ inl (contains-filters_of f subs ∙ new)
                  | inr old ↦ inr (i.held held e f (wants_by f c (inl old)))
                ]
                | inr others ↦ inr (i.held held e f (wants_by f c (inr others)))
              ];
      })

subscribe_ephemeral-IsConn :
    (c : Conn) (subs : List Subscription) (o : Option ConnError)
    → IsConn c
    → IsConn
        (elim o as (λ _. Conn × Option ConnError) [
          | some e ↦ (c, some e)
          | none ↦
              ask true
                (filters_of subs)
                (record c { ephemeral = foldl (λ m s. insert s.filter s m) c.ephemeral subs })
        ]).0
unfolding ask wants
subscribe_ephemeral-IsConn c subs (some e) i = i
subscribe_ephemeral-IsConn c subs none i =
    asked-IsConn (filters_of subs)
      (record c { ephemeral = foldl (λ m s. insert s.filter s m) c.ephemeral subs }) c.session refl
      (record {
        keyed = inserts-IsKeyed subs c.ephemeral i.keyed;
        more = λ held e f w.
            elim (or3 (has_filter f c.subscriptions)
              (is_some (lookup f (foldl (λ m s. insert s.filter s m) c.ephemeral subs)))
              (c.sys_stats && bytes_eq sys_filter f) w) [
                | inl y ↦ inr (i.held held e f (wants_by f c (inl y)))
                | inr (inl y) ↦ elim (lookup-inserts f subs c.ephemeral y) [
                  | inl new ↦ inl (contains-filters_of f subs ∙ new)
                  | inr old ↦ inr (i.held held e f (wants_by f c (inr (inl old))))
                ]
                | inr (inr y) ↦ inr (i.held held e f (wants_by f c (inr (inr y))))
              ];
      })

-- Of the user's own, only what is not dropped is left; the others want none of that.
unsubscribe-IsConn :
    (c : Conn) (filters : List Bytes)
    → IsConn c
    → ((f : Bytes)
        → contains f filters ≡ true
        → (is_some (lookup f c.ephemeral) || (c.sys_stats && bytes_eq sys_filter f)) ≡ false)
    → IsConn (unsubscribe true filters c).0
unfolding unsubscribe ask_to_drop wants
unsubscribe-IsConn c filters i free =
    let left = keep_if (λ s. not (contains s.filter filters)) c.subscriptions in
    let c' = record c { subscriptions = left } in
    asked_to_drop-IsConn filters c' c.session refl
      (fewer-IsConn c c' i i.keyed refl (λ f w.
        elim (or3 (has_filter f left) (is_some (lookup f c.ephemeral))
          (c.sys_stats && bytes_eq sys_filter f) w) [
            | inl y ↦ wants_by f c (inl (has_filter-keep_if f filters c.subscriptions y).1)
            | inr others ↦ wants_by f c (inr others)
          ]))
      (λ f dropped.
        none_of (has_filter f left) _
          (λ y.
            let (kept, there) = has_filter-keep_if f filters c.subscriptions y in
            both (sym dropped ∙ kept))
          (free f dropped))

-- Without what is dropped, a connection wants less.
forgotten-IsConn :
    (c : Conn) (filters : List Bytes)
    → IsConn c
    → IsConn (record c { ephemeral = foldl (λ m f. delete f m) c.ephemeral filters })
unfolding wants
forgotten-IsConn c filters i =
    let left = foldl (λ m f. delete f m) c.ephemeral filters in
    fewer-IsConn c (record c { ephemeral = left }) i (deletes-IsKeyed filters c.ephemeral i.keyed)
      refl
      (λ f w.
        elim (or3 (has_filter f c.subscriptions) (is_some (lookup f left))
          (c.sys_stats && bytes_eq sys_filter f) w) [
            | inl y ↦ wants_by f c (inl y)
            | inr (inl y) ↦ wants_by f c (inr (inl (lookup-deletes f filters c.ephemeral y).1))
            | inr (inr y) ↦ wants_by f c (inr (inr y))
          ])

unsubscribe_ephemeral-IsConn :
    (c : Conn) (filters dropped : List Bytes)
    → IsConn c
    → dropped ≡ keep_if (λ f. not (has_filter f c.subscriptions)) filters
    → ((f : Bytes) → contains f filters ≡ true → (c.sys_stats && bytes_eq sys_filter f) ≡ false)
    → IsConn
        (elim dropped as (λ _. Conn × Option ConnError) [
          | [] ↦ (record c { ephemeral = foldl (λ m f. delete f m) c.ephemeral filters }, none)
          | f ∷ fs ↦
              ask_to_drop true
                (f ∷ fs)
                (record c { ephemeral = foldl (λ m f. delete f m) c.ephemeral filters })
        ]).0
unfolding ask_to_drop wants
unsubscribe_ephemeral-IsConn c filters [] i e free = forgotten-IsConn c filters i
unsubscribe_ephemeral-IsConn c filters (d ∷ ds) i e free =
    let left = foldl (λ m f. delete f m) c.ephemeral filters in
    asked_to_drop-IsConn (d ∷ ds) (record c { ephemeral = left }) c.session refl
      (forgotten-IsConn c filters i)
      (λ f dropped.
        let (named, unheld) =
          kept-inv f (λ g. not (has_filter g c.subscriptions)) filters
            (subst (λ l. contains f l ≡ true) e dropped) in
        let own : has_filter f c.subscriptions ≡ false = ground arith in
        rw own (
          none_of (is_some (lookup f left)) (c.sys_stats && bytes_eq sys_filter f)
            (λ y. both (sym named ∙ (lookup-deletes f filters c.ephemeral y).0)) (free f named)))

Step-IsConn : (c c' : Conn) → Step c c' → IsConn c → IsConn c'
unfolding subscribe subscribe_ephemeral unsubscribe_ephemeral wants
Step-IsConn c c' (Step.connects _) i = connected-IsConn c i.keyed
Step-IsConn c c' (Step.disconnects _) i = record {
  keyed = i.keyed;
  held = λ session there f w. absurd (no_session (sym there));
}
Step-IsConn c c' (Step.subscribes _ subs) i = subscribe-IsConn c subs (check_subscriptions subs) i
Step-IsConn c c' (Step.subscribes_ephemeral _ subs) i =
    subscribe_ephemeral-IsConn c subs (check_filters subs) i
Step-IsConn c c' (Step.unsubscribes _ filters free) i = unsubscribe-IsConn c filters i free
Step-IsConn c c' (Step.unsubscribes_ephemeral _ filters free) i =
    unsubscribe_ephemeral-IsConn c filters _ i refl free

-- Any sequence of such operations.
pub data Reaches : Conn → Conn → Type 0 where
  stays : (c : Conn) → Reaches c c
  goes : (c c' c'' : Conn) → Reaches c c' → Step c' c'' → Reaches c c''

Reaches-IsConn : (c c' : Conn) → Reaches c c' → IsConn c → IsConn c'
Reaches-IsConn c c' (Reaches.stays _) i = i
Reaches-IsConn c c' (Reaches.goes _ b _ r s) i = Step-IsConn b c' s (Reaches-IsConn c b r i)

-- Whatever sequence of operations follows on a new connection, as long as each succeeds and nobody
-- else wants what `Unsubscribe` or `UnsubscribeEphemeral` drops, the broker holds for the session
-- every filter that the user, a plugin or the statistics want.
pub new-IsConn :
    (subs : List Subscription) (on : Bool) (c : Conn)
    → Reaches (new_conn subs on) c
    → (session : List Bytes) → c.session ≡ some session
    → (f : Bytes) → wants f c ≡ true
    → contains f session ≡ true
unfolding new_conn
new-IsConn subs on c r =
    (Reaches-IsConn (new_conn subs on) c r
      (record { keyed = tt; held = λ session there f w. absurd (no_session (sym there)) })).held
