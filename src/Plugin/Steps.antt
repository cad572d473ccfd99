-- ===== src/Plugin/Steps.antt =====
-- Everything that happens to the plugins, in any order.
use mqttview.Common.{Bool, Option, List, [], Bytes}
use mqttview.Message.{Message}
use mqttview.Conn.{Subscription}
use mqttview.Plugin.Runtime.{
  Behaviour, Runtime, SettingValues, with_instance, start, stop_instance, set_enabled,
  save_settings, new_instance,
}
use mqttview.Plugin.Runtime.Instances.{IsRuntime, new_instance-IsInstance, with_instance-IsRuntime}
use mqttview.Plugin.Dispatch.{dispatch, take_of, host_subscribe, host_unsubscribe}
use mqttview.Plugin.Runtime.Lifecycle.{
  start-IsRuntime, stop_instance-IsRuntime, set_enabled-IsRuntime, save_settings-IsRuntime,
}
use mqttview.Plugin.Dispatch.Queues.{
  dispatch-IsRuntime, host_subscribe-IsRuntime, host_unsubscribe-IsRuntime, take_of-IsRuntime,
}

-- Everything that happens to the runtime, in any order.
pub data Step (r : Runtime) : Runtime → Type 0 where
  install :
      (id : Bytes) (schema : List (Bytes × Option Bytes))
      (persisted defaults : Option (Bool × SettingValues))
      → Step r (with_instance id (new_instance schema persisted defaults) r)
  start_up : (id : Bytes) (factory : Option Behaviour) → Step r (start id factory r).0
  shut_down : (id : Bytes) → Step r (stop_instance id r).0
  switch :
      (saves : Bool) (id : Bytes) (factory : Option Behaviour) (enabled : Bool)
      → Step r (set_enabled saves id factory enabled r).0
  configure :
      (saves : Bool) (id : Bytes) (factory : Option Behaviour) (settings : SettingValues)
      → Step r (save_settings saves id factory settings r).0
  arrive : (m : Message) → Step r (dispatch m r)
  work : (id : Bytes) → Step r (take_of id r)
  subscribe_more :
      (id : Bytes) (connection : Option Bytes) (known : Bool) (subs : List Subscription)
      → Step r (host_subscribe id connection known subs r).0
  unsubscribe_some :
      (id : Bytes) (connection : Option Bytes) (known : Bool) (filters : List Bytes)
      → Step r (host_unsubscribe id connection known filters r).0

pub data Reaches : Runtime → Type 0 where
  fresh : Reaches (record { instances = []; saved = []; requests = [] })
  next : {r s : Runtime} → Reaches r → Step r s → Reaches s

Step-IsRuntime : {r s : Runtime} → Step r s → IsRuntime r → IsRuntime s
Step-IsRuntime {r} (install id schema persisted defaults) h =
    with_instance-IsRuntime id _ r (new_instance-IsInstance schema persisted defaults) h
Step-IsRuntime {r} (start_up id factory) h = start-IsRuntime id factory r h
Step-IsRuntime {r} (shut_down id) h = stop_instance-IsRuntime id r h
Step-IsRuntime {r} (switch saves id factory enabled) h =
    set_enabled-IsRuntime saves id factory enabled r h
Step-IsRuntime {r} (configure saves id factory settings) h =
    save_settings-IsRuntime saves id factory settings r h
Step-IsRuntime {r} (arrive m) h = dispatch-IsRuntime m r h
Step-IsRuntime {r} (work id) h = take_of-IsRuntime id r h
Step-IsRuntime {r} (subscribe_more id connection known subs) h =
    host_subscribe-IsRuntime id connection known subs r h
Step-IsRuntime {r} (unsubscribe_some id connection known filters) h =
    host_unsubscribe-IsRuntime id connection known filters r h

-- Whatever is started, stopped, switched, configured, subscribed, delivered and worked off, in any
-- order and with any failures: each plugin has a queue, a router and a map of its own filters
-- exactly while it runs, has no subscriptions while it does not, and never queues more than 4096
-- messages.
pub Reaches-IsRuntime : {r : Runtime} → Reaches r → IsRuntime r
Reaches-IsRuntime fresh = record { instances = tt }
Reaches-IsRuntime (next before st) = Step-IsRuntime st (Reaches-IsRuntime before)
