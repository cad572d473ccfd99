-- ===== src/Witness/Control.antt =====
-- The results about internal/plugins/plc and the connection's subscriptions at concrete inputs.
use mqttview.Common.{
  List, get_elem?, ◌≡◌, refl, true, false, Option, none, some, [], ◌∷◌, Bytes, codes, bytes_eq,
  lookup, pos,
}
use mqttview.Strings.{trim_space}
use mqttview.Topic.{is_empty}
use mqttview.Auth.SignIn.{User, at_least}
use mqttview.Plc.Command.{
  CommandRequest, CommandPayload, build_command, built, lookup_command, level, light, CommandSpec,
}
use mqttview.Plc.Command.Handler.{Settings, handle_command}
use mqttview.Plc.Command.Allowed.{IsAllowed, build_command-IsAllowed}
use mqttview.Plc.Command.Permitted.{IsPermitted, published-IsPermitted}
use mqttview.Plc.Mapping.{Mapping, set_mapping, describe_point, state}
use mqttview.Plc.Mapping.Described.{IsShown, set_mapping-described}
use mqttview.Conn.{Subscription, new_conn, connected, contains}
use mqttview.Conn.Held.{wants}
use mqttview.Conn.Retry.{Round, supervise_auto_connect}
use mqttview.Conn.Retry.Backoff.{interval, supervise_auto_connect-interval}
use mqttview.Conn.Status.{connect_begins, dial_succeeded, went_down, happens, new_live}
use mqttview.Conn.Status.Times.{IsTimed, live-IsTimed}
use mqttview.Conn.Steps.{Step, Reaches, new-IsConn}

abbrev marshal : CommandPayload → Option Bytes
marshal p = some p.command

abbrev set_level : CommandRequest
set_level = record {
  connection_id = codes "c1";
  target = codes "dali";
  command = codes " arc";
  address = pos 7;
  params = codes "120" ∷ [];
}

abbrev arc : CommandSpec
arc = record {
  target = codes "dali";
  command = codes "arc";
  min_address = 1;
  max_address = 64;
  param = level;
  tier = light;
}

arc_built : build_command marshal set_level ≡ built arc (codes "arc")
unfolding build_command bytes_eq trim_space lookup_command
arc_built = refl

build_command-IsAllowed_example :
    (p : CommandPayload) × IsAllowed arc p × (marshal p ≡ some (codes "arc"))
build_command-IsAllowed_example =
    build_command-IsAllowed marshal set_level arc (codes "arc") arc_built

abbrev ann : User
ann = record {
  id = codes "u1";
  email = codes "ann";
  name = codes "Ann";
  password_hash = codes "h";
  role = codes "operator";
  provider = codes "local";
  provider_subject = [];
  disabled = false;
  created_at = 0;
  last_login_at = none;
  totp_secret_enc = [];
  totp_confirmed_at = none;
}

abbrev lights_only : Settings
lights_only = record { allow_control = true; allow_digital_outputs = false }

arc_published :
    (handle_command marshal (λ id body. true) (some ann) (some set_level) lights_only []).published
    ≡ (codes "c1", codes "arc") ∷ []
unfolding handle_command at_least bytes_eq build_command trim_space lookup_command
arc_published = refl

published-IsPermitted_example :
    (u : User) × (some ann ≡ some u) × IsPermitted marshal u lights_only (codes "arc")
published-IsPermitted_example =
    published-IsPermitted marshal (λ id body. true) (some ann) (some set_level) lights_only []
      (codes "c1") (codes "arc") arc_published

abbrev kitchen : Mapping
kitchen = record { name = []; label = codes "Kitchen switch"; location = []; type = []; notes = [] }

name_full : is_empty (trim_space (codes "DI-31-5")) ≡ false
unfolding trim_space
name_full = refl

set_mapping-described_example :
    IsShown kitchen (lookup (trim_space (codes "DI-31-5")) (state [] (codes "c1")).meta) (
      describe_point
        (state (set_mapping (codes "c1") (codes "DI-31-5") kitchen []) (codes "c1"))
        (trim_space (codes "DI-31-5")))
    × ((other : Bytes)
        → bytes_eq (trim_space (codes "DI-31-5")) other ≡ false
        → describe_point
            (state (set_mapping (codes "c1") (codes "DI-31-5") kitchen []) (codes "c1"))
            other
          ≡ describe_point (state [] (codes "c1")) other)
    × ((j : Bytes)
        → bytes_eq (codes "c1") j ≡ false
        → state (set_mapping (codes "c1") (codes "DI-31-5") kitchen []) j ≡ state [] j)
set_mapping-described_example =
    set_mapping-described [] (codes "c1") (codes "DI-31-5") kitchen name_full

abbrev home : Subscription
home = record {
  filter = codes "home/#";
  qos = 1;
  no_local = false;
  retain_as_published = false;
  retain_handling = 0;
}

home_session : (connected true (new_conn (home ∷ []) false)).session ≡ some (codes "home/#" ∷ [])
unfolding connected new_conn
home_session = refl

home_wanted : wants (codes "home/#") (connected true (new_conn (home ∷ []) false)) ≡ true
unfolding wants connected new_conn bytes_eq
home_wanted = refl

new-IsConn_example : contains (codes "home/#") (codes "home/#" ∷ []) ≡ true
new-IsConn_example =
    new-IsConn (home ∷ []) false (connected true (new_conn (home ∷ []) false))
      (Reaches.goes (new_conn (home ∷ []) false) (new_conn (home ∷ []) false)
        (connected true (new_conn (home ∷ []) false)) (Reaches.stays (new_conn (home ∷ []) false))
        (Step.connects (new_conn (home ∷ []) false)))
      (codes "home/#" ∷ []) home_session (codes "home/#") home_wanted

abbrev failure : Round
failure = record { ended = false; dialled = false; wanted = true; ended_in_wait = false }

abbrev five_failures : List Round
five_failures = failure ∷ failure ∷ failure ∷ failure ∷ failure ∷ []

fifth_wait : get_elem? (supervise_auto_connect five_failures).0 4 ≡ some 80_000_000_000
unfolding supervise_auto_connect
fifth_wait = refl

supervise_auto_connect-interval_example : 80_000_000_000 ≡ interval 4
supervise_auto_connect-interval_example =
    supervise_auto_connect-interval five_failures 4 80_000_000_000 fifth_wait

live-IsTimed_example :
    IsTimed
      (happens
        (new_live 1)
        ((2, connect_begins none) ∷ (3, dial_succeeded) ∷ (4, went_down none) ∷ [])).status
live-IsTimed_example =
    live-IsTimed 1 ((2, connect_begins none) ∷ (3, dial_succeeded) ∷ (4, went_down none) ∷ [])
