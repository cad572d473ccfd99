-- ===== src/Plugin/Runtime/Lifecycle.antt =====
-- Starting, stopping, switching and configuring a plugin keep what holds of every instance.
use mqttview.Common.{
  refl, inl, inr, Bool, true, false, Option, none, some, List, [], ◌∷◌, Bytes, lookup, is_some,
  if◌then◌else◌, if_both, Bool-cases, Option-cases,
}
use mqttview.Conn.{Subscription}
use mqttview.Plugin.Runtime.{
  Behaviour, Instance, Runtime, RuntimeError, SettingValues, with_instance, started, stopped, start,
  start_instance, apply_subscriptions, stop_instance, stop_found, stop_running, save, note_enabled,
  set_enabled, restart_plugin, save_settings, restarted, apply_schema_defaults,
}
use mqttview.Plugin.Runtime.Instances.{
  IsInstance, IsRuntime, started-IsInstance, stopped-IsInstance, lookup-Holds,
  with_instance-IsRuntime, same_IsInstance,
}

apply_subscriptions-IsRuntime :
    (subs : List Subscription) (r : Runtime) → IsRuntime r → IsRuntime (apply_subscriptions subs r)
unfolding apply_subscriptions
apply_subscriptions-IsRuntime [] r h = h
apply_subscriptions-IsRuntime (s ∷ subs) r h = record { instances = h.instances }

start_instance-IsRuntime :
    (id : Bytes) (p : Behaviour) (i : Instance) (r : Runtime)
    → IsInstance i
    → IsRuntime r
    → IsRuntime (start_instance id p i r).0
unfolding start_instance
start_instance-IsRuntime id p i r g h = elim (Bool-cases (is_some i.plugin)) [
  | inl y ↦ rw y h
  | inr y ↦ elim (Option-cases p.init_error) [
    | inl e ↦
        rw (y, e)
          (apply_subscriptions-IsRuntime p.subscriptions (with_instance id (started p i) r)
            (with_instance-IsRuntime id (started p i) r (started-IsInstance p i) h))
    | inr (text, e) ↦
        rw (y, e)
          (with_instance-IsRuntime id (record i { last_err = text }) r
            (same_IsInstance i _ refl refl refl refl refl g) h)
  ]
]

pub start-IsRuntime :
    (id : Bytes) (factory : Option Behaviour) (r : Runtime)
    → IsRuntime r
    → IsRuntime (start id factory r).0
unfolding start
start-IsRuntime id none r h = h
start-IsRuntime id (some p) r h = elim (Option-cases (lookup id r.instances)) [
  | inl e ↦ rw (e, start) h
  | inr (i, e) ↦
      rw (e, start)
        (start_instance-IsRuntime id p i r (lookup-Holds id r.instances i h.instances e) h)
]

stop_found-IsRuntime :
    (id : Bytes) (i : Instance) (r : Runtime) → IsRuntime r → IsRuntime (stop_found id i r).0
unfolding stop_found stop_running
stop_found-IsRuntime id i r h = elim (Option-cases i.plugin) [
  | inl e ↦ rw e h
  | inr (p, e) ↦ rw e (record {
    instances = (with_instance-IsRuntime id (stopped i) r (stopped-IsInstance i) h).instances;
  })
]

pub stop_instance-IsRuntime :
    (id : Bytes) (r : Runtime) → IsRuntime r → IsRuntime (stop_instance id r).0
unfolding stop_instance
stop_instance-IsRuntime id r h = elim (Option-cases (lookup id r.instances)) [
  | inl e ↦ rw (e, stop_instance) h
  | inr (i, e) ↦ rw (e, stop_instance) (stop_found-IsRuntime id i r h)
]

save-IsRuntime :
    (saves : Bool) (id : Bytes) (enabled : Bool) (settings : SettingValues) (r : Runtime)
    → IsRuntime r
    → IsRuntime (save saves id enabled settings r).0
unfolding save
save-IsRuntime true id enabled settings r h = record { instances = h.instances }
save-IsRuntime false id enabled settings r h = h

note_enabled-IsRuntime :
    (saves : Bool) (id : Bytes) (enabled : Bool) (p : Runtime × Option RuntimeError)
    → IsRuntime p.0
    → IsRuntime (note_enabled saves id enabled p).0
unfolding note_enabled
note_enabled-IsRuntime saves id enabled (r, some e) h = h
note_enabled-IsRuntime saves id enabled (r, none) h = elim (Option-cases (lookup id r.instances)) [
  | inl e ↦ rw (e, note_enabled) h
  | inr (i, e) ↦
      let g = lookup-Holds id r.instances i h.instances e in
      rw (e, note_enabled)
        (save-IsRuntime saves id enabled i.settings
          (with_instance id (record i { enabled = enabled }) r)
          (with_instance-IsRuntime id (record i { enabled = enabled }) r
            (same_IsInstance i _ refl refl refl refl refl g) h))
]

pub set_enabled-IsRuntime :
    (saves : Bool) (id : Bytes) (factory : Option Behaviour) (enabled : Bool) (r : Runtime)
    → IsRuntime r
    → IsRuntime (set_enabled saves id factory enabled r).0
unfolding set_enabled
set_enabled-IsRuntime saves id factory enabled r h = elim (Option-cases (lookup id r.instances)) [
  | inl e ↦ rw (e, set_enabled) h
  | inr (i, e) ↦
      rw (e, set_enabled)
        (note_enabled-IsRuntime saves id enabled
          (if enabled then start id factory r else stop_instance id r)
          (if_both (λ (p : Runtime × Option RuntimeError). IsRuntime p.0) enabled
            (start-IsRuntime id factory r h) (stop_instance-IsRuntime id r h)))
]

restarted-IsRuntime :
    (id : Bytes) (factory : Option Behaviour) (r : Runtime) (failed : Option RuntimeError)
    → IsRuntime r
    → IsRuntime (restarted id factory (r, failed)).0
unfolding restarted
restarted-IsRuntime id factory r none h = start-IsRuntime id factory r h
restarted-IsRuntime id factory r (some e) h = h

restart_plugin-IsRuntime :
    (id : Bytes) (factory : Option Behaviour) (was_enabled : Bool)
    (p : Runtime × Option RuntimeError)
    → IsRuntime p.0
    → IsRuntime (restart_plugin id factory was_enabled p).0
unfolding restart_plugin
restart_plugin-IsRuntime id factory was_enabled (r, some e) h = h
restart_plugin-IsRuntime id factory false (r, none) h = h
restart_plugin-IsRuntime id factory true (r, none) h =
    restarted-IsRuntime id factory (stop_instance id r).0 (stop_instance id r).1
      (stop_instance-IsRuntime id r h)

pub save_settings-IsRuntime :
    (saves : Bool) (id : Bytes) (factory : Option Behaviour) (settings : SettingValues)
    (r : Runtime)
    → IsRuntime r
    → IsRuntime (save_settings saves id factory settings r).0
unfolding save_settings
save_settings-IsRuntime saves id factory settings r h =
    elim (Option-cases (lookup id r.instances)) [
      | inl e ↦ rw (e, save_settings) h
      | inr (i, e) ↦
          let filled = apply_schema_defaults i.schema settings in
          let g = lookup-Holds id r.instances i h.instances e in
          let r' = with_instance id (record i { settings = filled }) r in
          rw (e, save_settings)
            (restart_plugin-IsRuntime id factory i.enabled (save saves id i.enabled filled r') (
              save-IsRuntime saves id i.enabled filled r' (
                with_instance-IsRuntime id (record i { settings = filled }) r
                  (same_IsInstance i _ refl refl refl refl refl g) h)))
    ]
