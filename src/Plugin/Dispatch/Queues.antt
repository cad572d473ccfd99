-- ===== src/Plugin/Dispatch/Queues.antt =====
-- Messages and the requests of plugins keep what holds of every instance.
use mqttview.Common.{
  ◌≡◌, refl, sym, ap, ◌∙◌, inl, inr, Bool, true, false, ◌&&◌, Option, none, some, List, [], ◌∷◌,
  map, Bytes, All, is_some, length, length-append, ltb, if_both, Bool-cases, arith, subst,
}
use mathlib.Core.Option
use mqttview.Message.{Message}
use mqttview.Conn.{Subscription}
use mqttview.Plugin.Runtime.{Instance, Runtime, queue_size, change_instance, Request}
use mqttview.Plugin.Runtime.Instances.{
  Fits, IsInstance, Holds, IsRuntime, change_instance-IsRuntime,
}
use mqttview.Plugin.Dispatch.{
  dispatch, offer_message, offer_to, take_from, enqueue_message, take_message, take_of,
  host_subscribe, host_unsubscribe, on_connections, add_dynamic, drop_dynamic, wants_topic,
  change_dynamic,
}

is_some-map {ℓ κ} :
    {A : Type ℓ} {B : Type κ} (f : A → B) (o : Option A) → is_some (Option.map f o) ≡ is_some o
is_some-map f none = refl
is_some-map f (some a) = refl

change_dynamic-IsInstance :
    (f : List (Bytes × Subscription) → List (Bytes × Subscription)) (i : Instance)
    → IsInstance i
    → IsInstance (change_dynamic f i)
change_dynamic-IsInstance f i h = record {
  queued = h.queued;
  routed = h.routed;
  mapped = is_some-map f i.dynamic ∙ h.mapped;
  quiet = h.quiet;
  fits = h.fits;
}

enqueue_message-IsInstance :
    (m : Message) (i : Instance) (queue : List Message)
    → i.queue ≡ some queue
    → IsInstance i
    → IsInstance (enqueue_message m i queue)
unfolding enqueue_message
enqueue_message-IsInstance m i queue e h =
    let len = length-append queue (m ∷ []) in
    let running : true ≡ is_some i.plugin = sym (ap is_some e) ∙ h.queued in
    elim (Bool-cases (ltb (length queue) queue_size)) [
      | inl y ↦ rw y (record {
        queued = running;
        routed = h.routed;
        mapped = h.mapped;
        quiet = h.quiet;
        fits = ground (arith, y, len);
      })
      | inr y ↦ rw y (record {
        queued = h.queued;
        routed = h.routed;
        mapped = h.mapped;
        quiet = h.quiet;
        fits = h.fits;
      })
    ]

offer_to-IsInstance :
    (m : Message) (i : Instance) (o : Option (List Message))
    → i.queue ≡ o
    → IsInstance i
    → IsInstance (offer_to m i o)
unfolding offer_to
offer_to-IsInstance m i none e h = h
offer_to-IsInstance m i (some queue) e h =
    if_both IsInstance (is_some i.plugin && wants_topic i m.topic)
      (enqueue_message-IsInstance m i queue e h) h

take_from-IsInstance :
    (i : Instance) (o : Option (List Message))
    → i.queue ≡ o
    → IsInstance i
    → IsInstance (take_from i o).0
unfolding take_from
take_from-IsInstance i none e h = h
take_from-IsInstance i (some []) e h = h
take_from-IsInstance i (some (m ∷ queue)) e h = record {
  queued = sym (ap is_some e) ∙ h.queued;
  routed = h.routed;
  mapped = h.mapped;
  quiet = h.quiet;
  fits = let f = subst Fits e h.fits in omega arith;
}

pub dispatch-IsRuntime : (m : Message) (r : Runtime) → IsRuntime r → IsRuntime (dispatch m r)
unfolding dispatch
dispatch-IsRuntime m r h = record { instances = offered m r.instances h.instances }
  where
    offered :
        (m : Message) (l : List (Bytes × Instance))
        → All Holds l
        → All Holds (map (λ (x : Bytes × Instance). (x.0, offer_message m x.1)) l)
    offered m [] h = tt
    offered m (x ∷ l) h =
        (unfold offer_message in offer_to-IsInstance m x.1 x.1.queue refl h.0, offered m l h.1)

on_connections-IsRuntime :
    (connection : Option Bytes) (known : Bool) (request : Request) (r : Runtime)
    → IsRuntime r
    → IsRuntime (on_connections connection known request r).0
unfolding on_connections
on_connections-IsRuntime none known request r h = record { instances = h.instances }
on_connections-IsRuntime (some c) true request r h = record { instances = h.instances }
on_connections-IsRuntime (some c) false request r h = h

dynamic-IsRuntime :
    (id : Bytes) (connection : Option Bytes) (known : Bool) (request : Request)
    (f : List (Bytes × Subscription) → List (Bytes × Subscription)) (r : Runtime)
    → IsRuntime r
    → IsRuntime
        (on_connections connection known request (change_instance id (change_dynamic f) r)).0
dynamic-IsRuntime id connection known request f r h =
    on_connections-IsRuntime connection known request (change_instance id (change_dynamic f) r)
      (change_instance-IsRuntime id (change_dynamic f) r (change_dynamic-IsInstance f) h)

pub host_subscribe-IsRuntime :
    (id : Bytes) (connection : Option Bytes) (known : Bool) (subs : List Subscription) (r : Runtime)
    → IsRuntime r
    → IsRuntime (host_subscribe id connection known subs r).0
unfolding host_subscribe
host_subscribe-IsRuntime id connection known [] r h = h
host_subscribe-IsRuntime id connection known (s ∷ subs) r h =
    dynamic-IsRuntime id connection known _ (add_dynamic (s ∷ subs)) r h

pub host_unsubscribe-IsRuntime :
    (id : Bytes) (connection : Option Bytes) (known : Bool) (filters : List Bytes) (r : Runtime)
    → IsRuntime r
    → IsRuntime (host_unsubscribe id connection known filters r).0
unfolding host_unsubscribe
host_unsubscribe-IsRuntime id connection known [] r h = h
host_unsubscribe-IsRuntime id connection known (f ∷ filters) r h =
    dynamic-IsRuntime id connection known _ (drop_dynamic (f ∷ filters)) r h

pub take_of-IsRuntime : (id : Bytes) (r : Runtime) → IsRuntime r → IsRuntime (take_of id r)
unfolding take_of take_message
take_of-IsRuntime id r h =
    change_instance-IsRuntime id (λ i. (take_from i i.queue).0) r
      (λ i g. take_from-IsInstance i i.queue refl g) h
