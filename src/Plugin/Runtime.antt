-- ===== src/Plugin/Runtime.antt =====
-- internal/plugin/runtime.go: starting, stopping and configuring plugins. A plugin is what it answers: to Init, Subscriptions and Close. Whether a save to
-- the database succeeds is an argument. What connections are asked for is a log of requests; a
-- request that a connection refuses is logged, or told to the plugin.
pub mod Instances
pub mod Lifecycle
pub mod Switching
use mqttview.Common.{
  ℕ, zero, suc, ◌+◌, ◌%◌, u64_mod, Bool, true, false, not, ◌&&◌, ◌||◌, Option, none, some, List, [],
  ◌∷◌, ◌++◌, map, Bytes, lookup, insert, delete, is_some, length, ltb, if◌then◌else◌,
}
use mathlib.Core.Option
use mqttview.Message.{Message}
use mqttview.Topic.{match_filter}
use mqttview.Conn.{Subscription}

abbrev pub queue_size : ℕ
queue_size = 4096

-- A setting's value, which the runtime only hands on.
abbrev pub SettingValues : Type 0
SettingValues = List (Bytes × Bytes)

-- The answers of a plugin that a factory has made; `none` is a nil error.
pub record Behaviour : Type 0 where
  pub init_error : Option Bytes
  pub subscriptions : List Subscription
  pub close_error : Option Bytes

-- `queue` and `dynamic` are `none` where they are nil.
pub record Instance : Type 0 where
  pub schema : List (Bytes × Option Bytes)
  pub plugin : Option Behaviour
  pub settings : SettingValues
  pub enabled : Bool
  pub last_err : Bytes
  pub has_router : Bool
  pub subs : List Subscription
  pub dynamic : Option (List (Bytes × Subscription))
  pub queue : Option (List Message)
  pub dropped : ℕ

-- What a connection is asked for, or every one where none is named.
pub data Request : Type 0 where
  subscribe_on : Option Bytes → List Subscription → Request
  unsubscribe_on : Option Bytes → List Bytes → Request

pub record Runtime : Type 0 where
  pub instances : List (Bytes × Instance)
  pub saved : List (Bytes × (Bool × SettingValues))
  pub requests : List Request

pub data RuntimeError : Type 0 where
  unknown_plugin save_failed unknown_connection : RuntimeError
  init_failed close_failed : Bytes → RuntimeError

abbrev pub with_instance : Bytes → Instance → Runtime → Runtime
with_instance id i r = record r { instances = insert id i r.instances }

abbrev pub change_instance : Bytes → (Instance → Instance) → Runtime → Runtime
change_instance id f r = elim (lookup id r.instances) [
  | none ↦ r
  | some i ↦ with_instance id (f i) r
]

-- The loop of `applySchemaDefaults`.
unfoldable pub apply_schema_defaults : List (Bytes × Option Bytes) → SettingValues → SettingValues
apply_schema_defaults [] settings = settings
apply_schema_defaults ((key, none) ∷ fields) settings = apply_schema_defaults fields settings
apply_schema_defaults ((key, some value) ∷ fields) settings =
    apply_schema_defaults fields
      (if is_some (lookup key settings) then settings else insert key value settings)

-- An instance before its first start, from the database or else from the configuration.
unfoldable pub new_instance :
    List (Bytes × Option Bytes)
    → Option (Bool × SettingValues)
    → Option (Bool × SettingValues)
    → Instance
unfolding apply_schema_defaults
new_instance schema persisted defaults =
    let from : Bool × SettingValues = elim persisted [
      | some p ↦ p
      | none ↦ elim defaults [ some d ↦ d | none ↦ (false, []) ]
    ] in
    record {
      schema = schema;
      plugin = none;
      settings = apply_schema_defaults schema from.1;
      enabled = from.0;
      last_err = [];
      has_router = false;
      subs = [];
      dynamic = none;
      queue = none;
      dropped = 0;
    }

unfoldable pub apply_subscriptions : List Subscription → Runtime → Runtime
apply_subscriptions [] r = r
apply_subscriptions (s ∷ subs) r = record r {
  requests = r.requests ++ subscribe_on none (s ∷ subs) ∷ [];
}

abbrev pub started : Behaviour → Instance → Instance
started p i = record i {
  plugin = some p;
  has_router = true;
  subs = p.subscriptions;
  dynamic = some [];
  queue = some [];
  last_err = [];
}

-- `start` with an instance that is there; `p` is what the factory makes.
unfoldable pub start_instance :
    Bytes → Behaviour → Instance → Runtime → Runtime × Option RuntimeError
unfolding apply_subscriptions
start_instance id p i r = if is_some i.plugin then (r, none) else elim p.init_error [
  | some e ↦ (with_instance id (record i { last_err = e }) r, some (init_failed e))
  | none ↦ (apply_subscriptions p.subscriptions (with_instance id (started p i) r), none)
]

-- `factory` is `none` where nothing is registered under the name.
unfoldable pub start : Bytes → Option Behaviour → Runtime → Runtime × Option RuntimeError
unfolding start_instance
start id none r = (r, some unknown_plugin)
start id (some p) r = elim (lookup id r.instances) [
  | none ↦ (r, some unknown_plugin)
  | some i ↦ start_instance id p i r
]

abbrev pub dynamic_filters : Option (List (Bytes × Subscription)) → List Bytes
dynamic_filters none = []
dynamic_filters (some d) = map (λ (x : Bytes × Subscription). x.0) d

abbrev pub stopped : Instance → Instance
stopped i = record i { plugin = none; has_router = false; queue = none; subs = []; dynamic = none }

-- The rest of `stopInstance`, where the plugin runs.
unfoldable pub stop_running : Bytes → Instance → Behaviour → Runtime → Runtime × Option RuntimeError
stop_running id i p r =
    let filters = map (λ (s : Subscription). s.filter) i.subs ++ dynamic_filters i.dynamic in
    let r' = with_instance id (stopped i) r in
    (
      record r' { requests = r'.requests ++ unsubscribe_on none filters ∷ [] },
      elim p.close_error [ none ↦ none | some e ↦ some (close_failed e) ],
    )

unfoldable pub stop_found : Bytes → Instance → Runtime → Runtime × Option RuntimeError
unfolding stop_running
stop_found id i r = elim i.plugin [ none ↦ (r, none) | some p ↦ stop_running id i p r ]

unfoldable pub stop_instance : Bytes → Runtime → Runtime × Option RuntimeError
unfolding stop_found
stop_instance id r = elim (lookup id r.instances) [ none ↦ (r, none) | some i ↦ stop_found id i r ]

-- `SavePluginSettings`, which may fail.
unfoldable pub save : Bool → Bytes → Bool → SettingValues → Runtime → Runtime × Option RuntimeError
save saves id enabled settings r =
    if saves
    then (record r { saved = insert id (enabled, settings) r.saved }, none)
    else (r, some save_failed)

-- The end of `SetEnabled`, after the plugin was started or stopped.
unfoldable pub note_enabled :
    Bool → Bytes → Bool → Runtime × Option RuntimeError → Runtime × Option RuntimeError
unfolding save
note_enabled saves id enabled (r, some e) = (r, some e)
note_enabled saves id enabled (r, none) = elim (lookup id r.instances) [
  | none ↦ (r, none)
  | some i ↦ save saves id enabled i.settings (with_instance id (record i { enabled = enabled }) r)
]

unfoldable pub set_enabled :
    Bool → Bytes → Option Behaviour → Bool → Runtime → Runtime × Option RuntimeError
unfolding start stop_instance note_enabled
set_enabled saves id factory enabled r = elim (lookup id r.instances) [
  | none ↦ (r, some unknown_plugin)
  | some _ ↦
      note_enabled saves id enabled (if enabled then start id factory r else stop_instance id r)
]

-- The start that follows a stop which did not fail.
unfoldable pub restarted :
    Bytes → Option Behaviour → Runtime × Option RuntimeError → Runtime × Option RuntimeError
unfolding start
restarted id factory (r, none) = start id factory r
restarted id factory (r, some e) = (r, some e)

-- The restart at the end of `SaveSettings`.
unfoldable pub restart_plugin :
    Bytes → Option Behaviour → Bool → Runtime × Option RuntimeError → Runtime × Option RuntimeError
unfolding restarted stop_instance
restart_plugin id factory was_enabled (r, some e) = (r, some e)
restart_plugin id factory false (r, none) = (r, none)
restart_plugin id factory true (r, none) = restarted id factory (stop_instance id r)

unfoldable pub save_settings :
    Bool → Bytes → Option Behaviour → SettingValues → Runtime → Runtime × Option RuntimeError
unfolding apply_schema_defaults save restart_plugin
save_settings saves id factory settings r = elim (lookup id r.instances) [
  | none ↦ (r, some unknown_plugin)
  | some i ↦
      let filled = apply_schema_defaults i.schema settings in
      restart_plugin id factory i.enabled
        (save saves id i.enabled filled (with_instance id (record i { settings = filled }) r))
]

-- What answers a request under a plugin's prefix.
pub data Routed : Type 0 where
  no_such_plugin disabled no_api served_by_plugin : Routed

unfoldable pub route : Bytes → Runtime → Routed
route id r = elim (lookup id r.instances) [
  | none ↦ no_such_plugin
  | some i ↦ if not i.enabled then disabled else if i.has_router then served_by_plugin else no_api
]
