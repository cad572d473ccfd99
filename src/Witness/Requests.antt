-- ===== src/Witness/Requests.antt =====
-- The results about internal/api at concrete inputs.
use mqttview.Common.{
  ◌≡◌, not, ◌&&◌, false, true, List, [], ◌∷◌, ◌-◌, Bytes, codes, bytes_eq, contains_byte, All,
  is_some, refl, none, some, length, take, keep_if, ltb, leb, ◌==◌, if◌then◌else◌,
}
use mqttview.Message.{Message, zero_message}
use mqttview.Conn.{new_conn, has_filter}
use mqttview.Api.Series.{
  Json, number, boolean, object, no_members, member, Numbers, get_member, numeric_at,
  collect_numeric_paths,
}
use mqttview.Api.Series.Charted.{IsKeyed, collect_numeric_paths-numeric}
use mqttview.Api.Collect.{new_collector, collection, count_of}
use mqttview.Api.Windows.{Windows, lease_key, begin_hold, begin_release}
use mqttview.Api.Collect.Collected.{collect_all, concerns, collection-collect_all}
use mqttview.Api.Windows.Leases.{idle, next, opens, windows_on, Reaches-leased}

abbrev broker : Bytes
broker = codes "c1"

abbrev lamp : Message
lamp = record zero_message { connection_id = broker; topic = codes "home/lamp" }

abbrev elsewhere_lamp : Message
elsewhere_lamp = record lamp { connection_id = codes "c2" }

abbrev seen : List Message
seen = lamp ∷ elsewhere_lamp ∷ lamp ∷ lamp ∷ []

collection-collect_all_example :
    ((collection (collect_all seen (new_collector broker (codes "home/#") 2))).messages
      ≡ take 2 (keep_if (concerns broker (codes "home/#")) seen))
    × ((collection (collect_all seen (new_collector broker (codes "home/#") 2))).dropped
        ≡ length (keep_if (concerns broker (codes "home/#")) seen) - 2)
    × ((collection (collect_all seen (new_collector broker (codes "home/#") 2))).truncated
        ≡ ltb 2 (length (keep_if (concerns broker (codes "home/#")) seen)))
    × (count_of
          (codes "home/lamp")
          (collection (collect_all seen (new_collector broker (codes "home/#") 2))).topics
        ≡ length (
            keep_if
              (λ (m : Message). bytes_eq m.topic (codes "home/lamp"))
              (take 2 (keep_if (concerns broker (codes "home/#")) seen))))
collection-collect_all_example =
    collection-collect_all broker (codes "home/#") 2 seen (codes "home/lamp")

abbrev no_windows : Windows
no_windows = record {
  leases = [];
  conn = new_conn [] false;
  subscribing = [];
  holding = [];
  dropping = [];
}

-- Two windows on one filter.
abbrev overlapping : Windows
overlapping = begin_hold broker (codes "home/#") (begin_hold broker (codes "home/#") no_windows)

Reaches-leased_example :
    (count_of (lease_key broker (codes "home/#")) overlapping.leases
      ≡ windows_on (codes "home/#") overlapping)
    × ((begin_hold broker (codes "home/#") overlapping).subscribing ≡ (
        if not (has_filter (codes "home/#") overlapping.conn.subscriptions)
          && (windows_on (codes "home/#") overlapping == 0)
        then codes "home/#" ∷ overlapping.subscribing
        else overlapping.subscribing))
    × ((begin_release broker (codes "home/#") overlapping).dropping ≡ (
        if leb (windows_on (codes "home/#") overlapping) 1
        then codes "home/#" ∷ overlapping.dropping
        else overlapping.dropping))
Reaches-leased_example =
    Reaches-leased broker (codes "home/#")
      (next (next (idle (new_conn [] false)) (opens (codes "home/#"))) (opens (codes "home/#")))

abbrev reading : Json
reading = object (
    member (codes "room")
      (object (member (codes "temp") (number 21) (member (codes "open") (boolean true) no_members)))
      no_members)

-- A library that knows one document and no other number.
abbrev numbers : Numbers
numbers = record {
  parse_float = λ s. none;
  is_finite = λ v. true;
  to_upper = λ s. s;
  unmarshal = λ s. some reading;
  one = 1;
  nought = 0;
}

abbrev payload : Bytes
payload = codes "{}"

reading-IsKeyed : IsKeyed reading
unfolding IsKeyed get_member bytes_eq contains_byte
reading-IsKeyed = (
  record { not_empty = refl; no_dot = refl },
  refl,
  (
    record { not_empty = refl; no_dot = refl },
    refl,
    tt,
    (record { not_empty = refl; no_dot = refl }, refl, tt, tt),
  ),
  tt,
)

collect_numeric_paths-numeric_example :
    All
      (λ (field : Bytes). is_some (numeric_at numbers payload field) ≡ true)
      (collect_numeric_paths numbers payload)
collect_numeric_paths-numeric_example =
    collect_numeric_paths-numeric numbers payload reading reading-IsKeyed refl
