-- ===== src/Api/Windows.antt =====
-- internal/api/collect.go: the leases of the windows that collect messages. A request is split where
-- it waits: for the broker to subscribe, for the end of its window, and for the broker to
-- unsubscribe. Windows overlap, so the parts of several may come in any order.
pub mod Leases
use mqttview.Common.{
  ℕ, zero, suc, ◌+◌, ◌-◌, ◌*◌, ◌^◌, Bool, true, false, not, ◌&&◌, ◌||◌, Option, none, some, List,
  [], ◌∷◌, ◌++◌, Bytes, codes, bytes_eq, lookup, insert, delete, ℤ, pos, negsuc, length, leb, ltb,
  ◌==◌, if◌then◌else◌,
}
use mqttview.Message.{Message}
use mqttview.Topic.{TopicError, validate_filter, match_filter, is_empty}
use mqttview.Conn.{
  Conn, ConnError, Subscription, has_filter, subscribe_ephemeral, unsubscribe_ephemeral,
}
use mqttview.Api.Collect.{count_of}

-- `s.leases` counts the windows of each filter; it goes down only where a window has a lease.
abbrev pub lease_key : Bytes → Bytes → Bytes
lease_key id filter = id ++ 0 ∷ filter

unfoldable pub acquire : Bytes → List (Bytes × ℕ) → List (Bytes × ℕ)
acquire key leases = insert key (count_of key leases + 1) leases

unfoldable pub give_back : Bytes → List (Bytes × ℕ) → List (Bytes × ℕ)
give_back key leases = insert key (count_of key leases - 1) leases

-- The leases, the connection, and the filters of the windows that wait for the broker to subscribe
-- them, that have their lease, and that were the last and have yet to unsubscribe.
pub record Windows : Type 0 where
  pub leases : List (Bytes × ℕ)
  pub conn : Conn
  pub subscribing : List Bytes
  pub holding : List Bytes
  pub dropping : List Bytes

abbrev pub remove_one : Bytes → List Bytes → List Bytes
remove_one f [] = []
remove_one f (g ∷ gs) = if bytes_eq g f then gs else g ∷ remove_one f gs

-- `holdFilter` up to its call of `SubscribeEphemeral`.
unfoldable pub begin_hold : Bytes → Bytes → Windows → Windows
unfolding acquire
begin_hold id filter w =
    let leases = acquire (lease_key id filter) w.leases in
    if has_filter filter w.conn.subscriptions
    then w
    else if count_of (lease_key id filter) leases == 1
    then record w { leases = leases; subscribing = filter ∷ w.subscribing }
    else record w { leases = leases; holding = filter ∷ w.holding }

abbrev pub window_subscription : Bytes → Subscription
window_subscription filter = record {
  filter = filter;
  qos = 0;
  no_local = false;
  retain_as_published = false;
  retain_handling = 0;
}

unfoldable pub settle_hold : Bytes → Bytes → Windows → Conn × Option ConnError → Windows
unfolding give_back
settle_hold id filter w (c, none) = record w {
  conn = c;
  subscribing = remove_one filter w.subscribing;
  holding = filter ∷ w.holding;
}
settle_hold id filter w (c, some e) = record w {
  conn = c;
  subscribing = remove_one filter w.subscribing;
  leases = give_back (lease_key id filter) w.leases;
}

-- The rest of it.
unfoldable pub end_hold : Bool → Bytes → Bytes → Windows → Windows
unfolding settle_hold
end_hold answer id filter w =
    settle_hold id filter w (subscribe_ephemeral answer (window_subscription filter ∷ []) w.conn)

-- `releaseFilter` up to its call of `UnsubscribeEphemeral`, and that call.
unfoldable pub begin_release : Bytes → Bytes → Windows → Windows
unfolding give_back
begin_release id filter w =
    let key = lease_key id filter in
    let leases = give_back key w.leases in
    if count_of key leases == 0
    then record w {
      leases = delete key leases;
      holding = remove_one filter w.holding;
      dropping = filter ∷ w.dropping;
    }
    else record w { leases = leases; holding = remove_one filter w.holding }

unfoldable pub end_release : Bool → Bytes → Windows → Windows
end_release answer filter w = record w {
  conn = (unsubscribe_ephemeral answer (filter ∷ []) w.conn).0;
  dropping = remove_one filter w.dropping;
}
