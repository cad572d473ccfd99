-- ===== src/Witness/Plugins.antt =====
-- The results about internal/plugin at concrete inputs.
use mqttview.Common.{
  ◌≡◌, refl, true, false, none, some, [], ◌∷◌, Bytes, codes, lookup, insert, bytes_eq,
}
use mqttview.Plugin.Runtime.{
  Behaviour, Runtime, with_instance, new_instance, set_enabled, route, served_by_plugin,
}
use mqttview.Plugin.Runtime.Instances.{IsRuntime}
use mqttview.Plugin.Steps.{Reaches, fresh, next, install, switch, Reaches-IsRuntime}
use mqttview.Plugin.Runtime.Switching.{set_enabled-route}

abbrev hass : Bytes
hass = codes "hass"

abbrev discovery : Behaviour
discovery = record {
  init_error = none;
  subscriptions =
      record {
        filter = codes "homeassistant/#";
        qos = 0;
        no_local = false;
        retain_as_published = false;
        retain_handling = 0;
      }
      ∷ [];
  close_error = none;
}

abbrev installed : Runtime
installed =
    with_instance hass (new_instance [] none none)
      (record { instances = []; saved = []; requests = [] })

installed-Reaches : Reaches installed
installed-Reaches = next fresh (install hass [] none none)

abbrev switched_on : Runtime
switched_on = (set_enabled true hass (some discovery) true installed).0

Reaches-IsRuntime_example : IsRuntime switched_on
Reaches-IsRuntime_example =
    Reaches-IsRuntime (next installed-Reaches (switch true hass (some discovery) true))

switching_on : set_enabled true hass (some discovery) true installed ≡ (switched_on, none)
unfolding set_enabled lookup insert bytes_eq new_instance
switching_on = refl

set_enabled-route_example : route hass switched_on ≡ served_by_plugin
set_enabled-route_example =
    set_enabled-route true hass (some discovery) true installed switched_on
      (Reaches-IsRuntime installed-Reaches) switching_on
