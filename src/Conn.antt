-- ===== src/Conn.antt =====
-- internal/mqttc/manager.go and types.go: the subscriptions of one connection, those of the user,
-- those of plugins and `$SYS/#`, and what the client is asked for. The client is a parameter of
-- each operation: `answer` says whether it succeeds, and a session is the filters that the broker
-- holds for it, which a failed request leaves as they are.
pub mod Distinct
pub mod Held
pub mod Session
pub mod Steps
pub mod Messages
pub mod Retry
pub mod Status
use mqttview.Common.{
  ℕ, Bool, true, false, not, ◌&&◌, ◌||◌, Option, none, some, List, [], ◌∷◌, ◌++◌, map, foldl, Bytes,
  codes, bytes_eq, lookup, insert, delete, is_some, keep_if, ltb, if◌then◌else◌,
}
use mqttview.Strings.{trim_space}
use mqttview.Topic.{TopicError, validate_filter, is_empty}

pub record Subscription : Type 0 where
  pub filter : Bytes
  pub qos : ℕ
  pub no_local : Bool
  pub retain_as_published : Bool
  pub retain_handling : ℕ

pub data ConnError : Type 0 where
  invalid_filter : TopicError → ConnError
  bad_qos bad_retain_handling client_failed : ConnError

abbrev pub sys_filter : Bytes
sys_filter = codes "$SYS/#"

abbrev pub contains : Bytes → List Bytes → Bool
contains f [] = false
contains f (g ∷ gs) = bytes_eq g f || contains f gs

abbrev pub has_filter : Bytes → List Subscription → Bool
has_filter f [] = false
has_filter f (s ∷ subs) = bytes_eq s.filter f || has_filter f subs

-- The list that the loop of `Normalize` keeps, or its error.
pub data NormalizedList : Type 0 where
  kept : List Subscription → NormalizedList
  rejected : ConnError → NormalizedList

unfoldable pub keep : Subscription → NormalizedList → NormalizedList
keep s (kept subs) = kept (s ∷ subs)
keep s (rejected e) = rejected e

-- The checks of one subscription, in their order.
unfoldable pub subscription_error : Subscription → Option ConnError
subscription_error s = elim (validate_filter s.filter) [
  | some e ↦ some (invalid_filter e)
  | none ↦
      if ltb 2 s.qos
      then some bad_qos
      else if ltb 2 s.retain_handling
      then some bad_retain_handling
      else none
]

unfoldable pub normalize_subscriptions : List Bytes → List Subscription → NormalizedList
unfolding subscription_error keep
normalize_subscriptions seen [] = kept []
normalize_subscriptions seen (s ∷ subs) =
    let s' = record s { filter = trim_space s.filter } in
    let skipped = normalize_subscriptions seen subs in
    let rest = normalize_subscriptions (s'.filter ∷ seen) subs in
    if is_empty s'.filter then skipped else (elim (subscription_error s') [
      | some e ↦ rejected e
      | none ↦ if contains s'.filter seen then skipped else keep s' rest
    ])

-- `session` is there while there is a client.
pub record Conn : Type 0 where
  pub subscriptions : List Subscription
  pub sys_stats : Bool
  pub ephemeral : List (Bytes × Subscription)
  pub session : Option (List Bytes)

-- `newConn`, with what the specification says.
unfoldable pub new_conn : List Subscription → Bool → Conn
new_conn subs sys_stats = record {
  subscriptions = subs;
  sys_stats = sys_stats;
  ephemeral = [];
  session = none;
}

abbrev pub filters_of : List Subscription → List Bytes
filters_of subs = map (λ s. s.filter) subs

-- `client.Subscribe` and `client.Unsubscribe`, where there is a client.
unfoldable pub asked : Bool → List Bytes → Conn → Option (List Bytes) → Conn × Option ConnError
asked answer filters c none = (c, none)
asked answer filters c (some held) =
    if answer
    then (record c { session = some (filters ++ held) }, none)
    else (c, some client_failed)

unfoldable pub ask : Bool → List Bytes → Conn → Conn × Option ConnError
unfolding asked
ask answer filters c = asked answer filters c c.session

abbrev pub without : List Bytes → List Bytes → List Bytes
without filters held = keep_if (λ f. not (contains f filters)) held

unfoldable pub asked_to_drop :
    Bool → List Bytes → Conn → Option (List Bytes) → Conn × Option ConnError
asked_to_drop answer filters c none = (c, none)
asked_to_drop answer filters c (some held) =
    if answer
    then (record c { session = some (without filters held) }, none)
    else (c, some client_failed)

unfoldable pub ask_to_drop : Bool → List Bytes → Conn → Conn × Option ConnError
unfolding asked_to_drop
ask_to_drop answer filters c = asked_to_drop answer filters c c.session

unfoldable pub wants_sys : Conn → Bool
wants_sys c = c.sys_stats || has_filter sys_filter c.subscriptions

abbrev pub sys_subscription : Subscription
sys_subscription = record {
  filter = sys_filter;
  qos = 0;
  no_local = false;
  retain_as_published = false;
  retain_handling = 0;
}

unfoldable pub wanted_subscriptions : Conn → List Subscription
wanted_subscriptions c =
    c.subscriptions
    ++ (map (λ x. x.1) c.ephemeral ++ (if c.sys_stats then sys_subscription ∷ [] else []))

-- What `connect` does once the client's own `Connect` has succeeded; a failure is only logged.
unfoldable pub connected : Bool → Conn → Conn
unfolding ask wanted_subscriptions
connected answer c =
    (ask answer (filters_of (wanted_subscriptions c)) (record c { session = some [] })).0

unfoldable pub check_filters : List Subscription → Option ConnError
check_filters [] = none
check_filters (s ∷ subs) =
    let rest = check_filters subs in
    elim (validate_filter s.filter) [ some e ↦ some (invalid_filter e) | none ↦ rest ]

unfoldable pub check_subscriptions : List Subscription → Option ConnError
check_subscriptions [] = none
check_subscriptions (s ∷ subs) =
    let rest = check_subscriptions subs in
    elim (validate_filter s.filter) [
      | some e ↦ some (invalid_filter e)
      | none ↦ if ltb 2 s.qos then some bad_qos else rest
    ]

unfoldable pub subscribe_ephemeral : Bool → List Subscription → Conn → Conn × Option ConnError
unfolding check_filters ask
subscribe_ephemeral answer subs c = elim (check_filters subs) [
  | some e ↦ (c, some e)
  | none ↦
      ask answer (filters_of subs)
        (record c { ephemeral = foldl (λ m s. insert s.filter s m) c.ephemeral subs })
]

unfoldable pub unsubscribe_ephemeral : Bool → List Bytes → Conn → Conn × Option ConnError
unfolding ask_to_drop
unsubscribe_ephemeral answer filters c =
    let dropped = keep_if (λ f. not (has_filter f c.subscriptions)) filters in
    let c' = record c { ephemeral = foldl (λ m f. delete f m) c.ephemeral filters } in
    elim dropped [ [] ↦ (c', none) | f ∷ fs ↦ ask_to_drop answer (f ∷ fs) c' ]

-- The inner loop of `Subscribe`, with the append where nothing was replaced.
unfoldable pub replace : Subscription → List Subscription → List Subscription
replace s [] = s ∷ []
replace s (t ∷ subs) = if bytes_eq t.filter s.filter then s ∷ subs else t ∷ replace s subs

unfoldable pub subscribe : Bool → List Subscription → Conn → Conn × Option ConnError
unfolding check_subscriptions replace ask
subscribe answer subs c = elim (check_subscriptions subs) [
  | some e ↦ (c, some e)
  | none ↦
      ask answer (filters_of subs)
        (record c { subscriptions = foldl (λ l s. replace s l) c.subscriptions subs })
]

unfoldable pub unsubscribe : Bool → List Bytes → Conn → Conn × Option ConnError
unfolding ask_to_drop
unsubscribe answer filters c =
    ask_to_drop answer filters
      (record c { subscriptions = keep_if (λ s. not (contains s.filter filters)) c.subscriptions })

-- A failure to drop `$SYS/#` is only logged.
unfoldable pub sync_subscriptions : Bool → Bool → Conn → Conn × Option ConnError
unfolding ask ask_to_drop wants_sys wanted_subscriptions
sync_subscriptions drop_answer answer c = elim c.session [
  | none ↦ (c, none)
  | some _ ↦
      let c' = if wants_sys c then c else (ask_to_drop drop_answer (sys_filter ∷ []) c).0 in
      ask answer (filters_of (wanted_subscriptions c')) c'
]
