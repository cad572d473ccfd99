-- ===== src/Plugin/Runtime/Instances.antt =====
-- What holds of every instance: its queue, its router and its filters go with the plugin.
use mqttview.Common.{
  ◌≤◌, ◌≡◌, refl, sym, ap, ◌∙◌, inl, inr, Bool, Option, none, some, List, [], ◌∷◌, Bytes, bytes_eq,
  lookup, All, All-insert, is_some, length, Bool-cases, Option-cases, arith, subst,
}
use mqttview.Message.{Message}
use mqttview.Plugin.Runtime.{
  Behaviour, Instance, Runtime, SettingValues, queue_size, with_instance, started, stopped,
  change_instance, new_instance,
}

abbrev pub Fits : Option (List Message) → Type 0
Fits none = Unit {0}
Fits (some queue) = length queue ≤ queue_size

-- A plugin has a queue, a router and a map of filters exactly while it runs; one that does not
-- run has no subscriptions; a queue is within its size.
pub record IsInstance (i : Instance) : Type 0 where
  pub queued : is_some i.queue ≡ is_some i.plugin
  pub routed : i.has_router ≡ is_some i.plugin
  pub mapped : is_some i.dynamic ≡ is_some i.plugin
  pub quiet : i.plugin ≡ none → i.subs ≡ []
  pub fits : Fits i.queue

abbrev pub Holds : Bytes × Instance → Type 0
Holds x = IsInstance x.1

pub record IsRuntime (r : Runtime) : Type 0 where
  pub instances : All Holds r.instances

pub started-IsInstance : (p : Behaviour) (i : Instance) → IsInstance (started p i)
started-IsInstance p i = record {
  queued = refl;
  routed = refl;
  mapped = refl;
  quiet = λ e. cc;
  fits = omega arith;
}

pub stopped-IsInstance : (i : Instance) → IsInstance (stopped i)
stopped-IsInstance i = record {
  queued = refl;
  routed = refl;
  mapped = refl;
  quiet = λ e. refl;
  fits = tt;
}

-- Settings, the switch and the last error are not among what an instance has to satisfy.
pub same_IsInstance :
    (i j : Instance)
    → i.plugin ≡ j.plugin
    → i.has_router ≡ j.has_router
    → i.subs ≡ j.subs
    → i.dynamic ≡ j.dynamic
    → i.queue ≡ j.queue
    → IsInstance i
    → IsInstance j
same_IsInstance i j p r s d q h = record {
  queued = sym (ap is_some q) ∙ (h.queued ∙ ap is_some p);
  routed = sym r ∙ (h.routed ∙ ap is_some p);
  mapped = sym (ap is_some d) ∙ (h.mapped ∙ ap is_some p);
  quiet = λ e. sym s ∙ h.quiet (p ∙ e);
  fits = subst Fits q h.fits;
}

pub lookup-Holds :
    (id : Bytes) (m : List (Bytes × Instance)) (i : Instance)
    → All Holds m
    → lookup id m ≡ some i
    → IsInstance i
unfolding lookup
lookup-Holds id [] i h e = cc
lookup-Holds id ((k, j) ∷ m) i h e = elim (Bool-cases (bytes_eq k id)) [
  | inl y ↦ subst IsInstance (ground (arith, y, e)) h.0
  | inr y ↦ lookup-Holds id m i h.1 (ground (arith, y, e))
]

pub with_instance-IsRuntime :
    (id : Bytes) (i : Instance) (r : Runtime)
    → IsInstance i
    → IsRuntime r
    → IsRuntime (with_instance id i r)
with_instance-IsRuntime id i r h g = record {
  instances = All-insert Holds id i r.instances h g.instances;
}

-- A change that keeps each instance keeps the runtime.
pub change_instance-IsRuntime :
    (id : Bytes) (f : Instance → Instance) (r : Runtime)
    → ((i : Instance) → IsInstance i → IsInstance (f i))
    → IsRuntime r
    → IsRuntime (change_instance id f r)
change_instance-IsRuntime id f r keeps h = elim (Option-cases (lookup id r.instances)) [
  | inl e ↦ rw (e, change_instance) h
  | inr (i, e) ↦
      rw (e, change_instance)
        (with_instance-IsRuntime id (f i) r (keeps i (lookup-Holds id r.instances i h.instances e))
          h)
]

pub new_instance-IsInstance :
    (schema : List (Bytes × Option Bytes)) (persisted defaults : Option (Bool × SettingValues))
    → IsInstance (new_instance schema persisted defaults)
unfolding new_instance
new_instance-IsInstance schema persisted defaults = record {
  queued = refl;
  routed = refl;
  mapped = refl;
  quiet = λ e. refl;
  fits = tt;
}
