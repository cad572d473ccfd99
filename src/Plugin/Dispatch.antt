-- ===== src/Plugin/Dispatch.antt =====
-- internal/plugin/runtime.go: routing messages to the queues of plugins, and what the host does for
-- a plugin that asks for filters of its own.
pub mod Queues
use mqttview.Common.{
  ◌+◌, ◌%◌, u64_mod, Bool, true, false, ◌&&◌, ◌||◌, Option, none, some, List, [], ◌∷◌, ◌++◌, map,
  Bytes, insert, delete, is_some, length, ltb, if◌then◌else◌,
}
use mathlib.Core.Option
use mqttview.Message.{Message}
use mqttview.Topic.{match_filter}
use mqttview.Conn.{Subscription}
use mqttview.Plugin.Runtime.{
  Instance, Runtime, RuntimeError, unknown_connection, Request, subscribe_on, unsubscribe_on,
  queue_size, change_instance,
}

unfoldable pub matches_any : List Subscription → Bytes → Bool
matches_any [] topic = false
matches_any (s ∷ subs) topic = match_filter s.filter topic || matches_any subs topic

unfoldable pub matches_dynamic : Option (List (Bytes × Subscription)) → Bytes → Bool
matches_dynamic none topic = false
matches_dynamic (some []) topic = false
matches_dynamic (some ((filter, _) ∷ rest)) topic =
    match_filter filter topic || matches_dynamic (some rest) topic

-- The non-blocking send.
unfoldable pub enqueue_message : Message → Instance → List Message → Instance
enqueue_message m i queue =
    if ltb (length queue) queue_size
    then record i { queue = some (queue ++ m ∷ []) }
    else record i { dropped = (i.dropped + 1) % u64_mod }

unfoldable pub wants_topic : Instance → Bytes → Bool
unfolding matches_any matches_dynamic
wants_topic i topic = matches_any i.subs topic || matches_dynamic i.dynamic topic

unfoldable pub offer_to : Message → Instance → Option (List Message) → Instance
unfolding enqueue_message wants_topic
offer_to m i none = i
offer_to m i (some queue) =
    if is_some i.plugin && wants_topic i m.topic then enqueue_message m i queue else i

unfoldable pub offer_message : Message → Instance → Instance
unfolding offer_to
offer_message m i = offer_to m i i.queue

unfoldable pub dispatch : Message → Runtime → Runtime
unfolding offer_message
dispatch m r = record r {
  instances = map (λ (x : Bytes × Instance). (x.0, offer_message m x.1)) r.instances;
}

-- The worker of a plugin takes a message to hand to `HandleMessage`.
unfoldable pub take_from : Instance → Option (List Message) → Instance × Option Message
take_from i none = (i, none)
take_from i (some []) = (i, none)
take_from i (some (m ∷ queue)) = (record i { queue = some queue }, some m)

unfoldable pub take_message : Instance → Instance × Option Message
unfolding take_from
take_message i = take_from i i.queue

-- `Host.Subscribe` and `Host.Unsubscribe` of a plugin: what they note of the filters.
unfoldable pub add_dynamic :
    List Subscription → List (Bytes × Subscription) → List (Bytes × Subscription)
add_dynamic [] d = d
add_dynamic (s ∷ subs) d = add_dynamic subs (insert s.filter s d)

unfoldable pub drop_dynamic : List Bytes → List (Bytes × Subscription) → List (Bytes × Subscription)
drop_dynamic [] d = d
drop_dynamic (f ∷ filters) d = drop_dynamic filters (delete f d)

abbrev pub change_dynamic :
    (List (Bytes × Subscription) → List (Bytes × Subscription)) → Instance → Instance
change_dynamic f i = record i { dynamic = Option.map f i.dynamic }

-- `forEachConnection`: `known` says whether the manager has the connection that is named.
unfoldable pub on_connections :
    Option Bytes → Bool → Request → Runtime → Runtime × Option RuntimeError
on_connections none known request r = (record r { requests = r.requests ++ request ∷ [] }, none)
on_connections (some connection) known request r =
    if known
    then (record r { requests = r.requests ++ request ∷ [] }, none)
    else (r, some unknown_connection)

unfoldable pub host_subscribe :
    Bytes → Option Bytes → Bool → List Subscription → Runtime → Runtime × Option RuntimeError
unfolding add_dynamic on_connections
host_subscribe id connection known [] r = (r, none)
host_subscribe id connection known (s ∷ subs) r =
    on_connections connection known (subscribe_on connection (s ∷ subs))
      (change_instance id (change_dynamic (add_dynamic (s ∷ subs))) r)

unfoldable pub host_unsubscribe :
    Bytes → Option Bytes → Bool → List Bytes → Runtime → Runtime × Option RuntimeError
unfolding drop_dynamic on_connections
host_unsubscribe id connection known [] r = (r, none)
host_unsubscribe id connection known (f ∷ filters) r =
    on_connections connection known (unsubscribe_on connection (f ∷ filters))
      (change_instance id (change_dynamic (drop_dynamic (f ∷ filters))) r)

-- The worker of a plugin, for one message.
unfoldable pub take_of : Bytes → Runtime → Runtime
unfolding take_message
take_of id r = change_instance id (λ i. (take_message i).0) r
