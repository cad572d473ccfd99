-- ===== src/Plugin/Runtime/Switching.antt =====
-- What a switched plugin answers to requests.
use mqttview.Common.{
  ◌≡◌, refl, sym, ap, ◌∙◌, inl, inr, Bool, true, false, not, Option, none, some, List, [], ◌∷◌,
  Bytes, bytes_eq_refl, lookup, lookup-insert, is_some, if◌then◌else◌, Bool-cases, Option-cases,
  arith, subst,
}
use mqttview.Conn.{Subscription}
use mqttview.Plugin.Runtime.{
  Behaviour, Instance, Runtime, RuntimeError, SettingValues, with_instance, started, stopped, start,
  start_instance, apply_subscriptions, stop_instance, stop_found, stop_running, save, note_enabled,
  set_enabled, route, Routed, disabled, served_by_plugin,
}
use mqttview.Plugin.Runtime.Instances.{IsInstance, IsRuntime, lookup-Holds}

-- The runtime has an instance under the name that satisfies `P`.
record Has (id : Bytes) (P : Instance → Type 0) (r : Runtime) : Type 0 where
  one : Instance
  there : lookup id r.instances ≡ some one
  holds : P one

lookup-with_instance :
    (id : Bytes) (i : Instance) (r : Runtime) → lookup id (with_instance id i r).instances ≡ some i
lookup-with_instance id i r = lookup-insert id id i r.instances ∙ rw (bytes_eq_refl id) refl

abbrev Routes : Instance → Type 0
Routes i = i.has_router ≡ true

apply_subscriptions-Has :
    (id : Bytes) (P : Instance → Type 0) (subs : List Subscription) (r : Runtime)
    → Has id P r
    → Has id P (apply_subscriptions subs r)
unfolding apply_subscriptions
apply_subscriptions-Has id P [] r h = h
apply_subscriptions-Has id P (s ∷ subs) r h = record {
  one = h.one;
  there = h.there;
  holds = h.holds;
}

start_instance-Has :
    (id : Bytes) (p : Behaviour) (i : Instance) (r r' : Runtime)
    → IsInstance i
    → lookup id r.instances ≡ some i
    → start_instance id p i r ≡ (r', none)
    → Has id Routes r'
unfolding start_instance
start_instance-Has id p i r r' g there e = elim (Bool-cases (is_some i.plugin)) [
  | inl y ↦
      let same : r ≡ r' = ground (arith, y, e) in
      subst (Has id Routes) same (record { one = i; there = there; holds = g.routed ∙ y })
  | inr y ↦ elim (Option-cases p.init_error) [
    | inl fine ↦
        let got : apply_subscriptions p.subscriptions (with_instance id (started p i) r) ≡ r' =
          ground (arith, y, fine, e) in
        subst (Has id Routes) got (
          apply_subscriptions-Has id Routes p.subscriptions (with_instance id (started p i) r)
            (record {
              one = started p i;
              there = lookup-with_instance id (started p i) r;
              holds = refl;
            }))
    | inr (text, failed) ↦ absurd (ground (arith, y, failed, e))
  ]
]

start-Has :
    (id : Bytes) (factory : Option Behaviour) (r r' : Runtime)
    → IsRuntime r
    → start id factory r ≡ (r', none)
    → Has id Routes r'
unfolding start
start-Has id none r r' h e = absurd (ground (arith, e))
start-Has id (some p) r r' h e = elim (Option-cases (lookup id r.instances)) [
  | inl absent ↦ absurd (ground (arith, absent, e))
  | inr (i, there) ↦
      start_instance-Has id p i r r' (lookup-Holds id r.instances i h.instances there) there
        (ground (arith, there, e))
]

abbrev Anything : Instance → Type 0
Anything _ = Unit {0}

stop_found-Has :
    (id : Bytes) (i : Instance) (r : Runtime)
    → lookup id r.instances ≡ some i
    → Has id Anything (stop_found id i r).0
unfolding stop_found stop_running
stop_found-Has id i r there = elim (Option-cases i.plugin) [
  | inl e ↦ rw e (record { one = i; there = there; holds = tt })
  | inr (p, e) ↦
      rw e (record { one = stopped i; there = lookup-with_instance id (stopped i) r; holds = tt })
]

stop_instance-Has :
    (id : Bytes) (i : Instance) (r : Runtime)
    → lookup id r.instances ≡ some i
    → Has id Anything (stop_instance id r).0
unfolding stop_instance
stop_instance-Has id i r there = rw (there, stop_instance) (stop_found-Has id i r there)

save-instances :
    (saves : Bool) (id : Bytes) (enabled : Bool) (settings : SettingValues) (r r' : Runtime)
    → save saves id enabled settings r ≡ (r', none)
    → r'.instances ≡ r.instances
unfolding save
save-instances true id enabled settings r r' e =
    sym (ap (λ (q : Runtime × Option RuntimeError). q.0.instances) e)
save-instances false id enabled settings r r' e = absurd (ground (arith, e))

abbrev answer : Bool → Instance → Routed
answer enabled i =
    if not enabled then disabled else if i.has_router then served_by_plugin else Routed.no_api

route_there :
    (id : Bytes) (i : Instance) (r : Runtime)
    → lookup id r.instances ≡ some i
    → route id r ≡ answer i.enabled i
unfolding route
route_there id i r there = rw (there, route) refl

-- The end of `SetEnabled`, where it succeeds: the instance is marked.
note_enabled-route :
    (saves : Bool) (id : Bytes) (enabled : Bool) (P : Instance → Type 0) (r r' : Runtime)
    (h : Has id P r)
    → note_enabled saves id enabled (r, none) ≡ (r', none)
    → route id r' ≡ answer enabled h.one
unfolding note_enabled
note_enabled-route saves id enabled P r r' h e =
    let marked = record h.one { enabled = enabled } in
    let r1 = with_instance id marked r in
    let saved : save saves id enabled h.one.settings r1 ≡ (r', none) =
      rw (h.there, note_enabled) at e in
    let kept = save-instances saves id enabled h.one.settings r1 r' saved in
    route_there id marked r' (ap (lookup id) kept ∙ lookup-with_instance id marked r)

note_enabled_failed :
    (saves : Bool) (id : Bytes) (enabled : Bool) (p : Runtime × Option RuntimeError) (r' : Runtime)
    → note_enabled saves id enabled p ≡ (r', none)
    → p ≡ (p.0, none)
unfolding note_enabled
note_enabled_failed saves id enabled (r, some x) r' e = absurd (ground (arith, e))
note_enabled_failed saves id enabled (r, none) r' e = refl

switched :
    (saves : Bool) (id : Bytes) (factory : Option Behaviour) (enabled : Bool) (r r' : Runtime)
    (i : Instance)
    → IsRuntime r
    → lookup id r.instances ≡ some i
    → note_enabled saves id enabled (if enabled then start id factory r else stop_instance id r)
      ≡ (r', none)
    → route id r' ≡ (if enabled then served_by_plugin else disabled)
switched saves id factory true r r' i h there e =
    let p = start id factory r in
    let succeeded = note_enabled_failed saves id true p r' e in
    let running = start-Has id factory r p.0 h succeeded in
    note_enabled-route saves id true Routes p.0 r' running
      (ap (note_enabled saves id true) (sym succeeded) ∙ e)
    ∙ rw running.holds refl
switched saves id factory false r r' i h there e =
    let p = stop_instance id r in
    let succeeded = note_enabled_failed saves id false p r' e in
    note_enabled-route saves id false Anything p.0 r' (stop_instance-Has id i r there)
      (ap (note_enabled saves id false) (sym succeeded) ∙ e)

-- Where `SetEnabled` succeeds, requests under the plugin's prefix are served by the plugin if it
-- was switched on, and refused as those of a disabled plugin if it was switched off.
pub set_enabled-route :
    (saves : Bool) (id : Bytes) (factory : Option Behaviour) (enabled : Bool) (r r' : Runtime)
    → IsRuntime r
    → set_enabled saves id factory enabled r ≡ (r', none)
    → route id r' ≡ (if enabled then served_by_plugin else disabled)
unfolding set_enabled
set_enabled-route saves id factory enabled r r' h e = elim (Option-cases (lookup id r.instances)) [
  | inl absent ↦ absurd (ground (arith, absent, e))
  | inr (i, there) ↦ switched saves id factory enabled r r' i h there (rw (there, set_enabled) at e)
]
