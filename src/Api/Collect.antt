-- ===== src/Api/Collect.antt =====
-- internal/api/collect.go: collecting the messages of a window: the checks of a request, what the
-- window keeps, and the answer at its end.
pub mod Collected
use mqttview.Common.{
  ℕ, zero, suc, ◌+◌, ◌-◌, ◌*◌, ◌^◌, Bool, true, false, not, ◌&&◌, ◌||◌, Option, none, some, List,
  [], ◌∷◌, ◌++◌, Bytes, codes, bytes_eq, lookup, insert, delete, ℤ, pos, negsuc, length, leb, ltb,
  ◌==◌, if◌then◌else◌,
}
use mqttview.Message.{Message}
use mqttview.Topic.{TopicError, validate_filter, match_filter, is_empty}
use mqttview.Conn.{
  Conn, ConnError, Subscription, has_filter, subscribe_ephemeral, unsubscribe_ephemeral,
}

abbrev pub default_collect_seconds : ℕ
default_collect_seconds = 10

abbrev pub max_collect_seconds : ℕ
max_collect_seconds = 120

abbrev pub default_collect_limit : ℕ
default_collect_limit = 500

abbrev pub max_collect_limit : ℕ
max_collect_limit = 5000

-- `dropped` is an int that a window does not bring to its end.
pub record Collector : Type 0 where
  pub connection_id : Bytes
  pub filter : Bytes
  pub limit : ℕ
  pub messages : List Message
  pub dropped : ℕ

unfoldable pub new_collector : Bytes → Bytes → ℕ → Collector
new_collector id filter limit = record {
  connection_id = id;
  filter = filter;
  limit = limit;
  messages = [];
  dropped = 0;
}

-- The first test of `add`.
unfoldable pub passed_over : Message → Collector → Bool
passed_over m c =
    not (bytes_eq m.connection_id c.connection_id) || not (match_filter c.filter m.topic)

unfoldable pub collect : Message → Collector → Collector
unfolding passed_over
collect m c =
    if passed_over m c
    then c
    else if leb c.limit (length c.messages)
    then record c { dropped = c.dropped + 1 }
    else record c { messages = c.messages ++ m ∷ [] }

-- `strconv.Atoi` on 64 bits.
unfoldable pub read_digits : ℕ → Bytes → Option ℕ
read_digits n [] = some n
read_digits n (b ∷ bs) =
    if leb b'0' b && leb b b'9' then read_digits (n * 10 + (b - b'0')) bs else none

unfoldable pub read_magnitude : Bytes → Option ℕ
unfolding read_digits
read_magnitude bs = if is_empty bs then none else read_digits 0 bs

abbrev pub signed_number : Bool → ℕ → Option ℤ
signed_number true zero = some (pos 0)
signed_number true (suc n) = if ltb n (2 ^ 63) then some (negsuc n) else none
signed_number false n = if ltb n (2 ^ 63) then some (pos n) else none

unfoldable pub atoi : Bytes → Option ℤ
unfolding read_magnitude
atoi [] = none
atoi (b ∷ bs) =
    if b == b'-'
    then elim (read_magnitude bs) [ none ↦ none | some n ↦ signed_number true n ]
    else elim (read_magnitude (if b == b'+' then bs else b ∷ bs)) [
      | none ↦ none
      | some n ↦ signed_number false n
    ]

-- What `strictInt` returns: the value, or which of its two errors.
pub data IntParam : Type 0 where
  value : ℕ → IntParam
  not_a_number : IntParam
  not_between : ℤ → IntParam

unfoldable pub bounded : ℕ → ℕ → Option ℤ → IntParam
bounded least most none = not_a_number
bounded least most (some (negsuc n)) = not_between (negsuc n)
bounded least most (some (pos n)) =
    if ltb n least || ltb most n then not_between (pos n) else value n

unfoldable pub strict_int : Bytes → ℕ → ℕ → ℕ → IntParam
unfolding bounded atoi
strict_int raw default least most =
    if is_empty raw then value default else bounded least most (atoi raw)

-- How far the checks of `handleCollect` let a request go.
pub data CollectCheck : Type 0 where
  not_found conflict : CollectCheck
  bad_seconds bad_limit : IntParam → CollectCheck
  bad_filter : TopicError → CollectCheck
  window : ℕ → Collector → CollectCheck

unfoldable pub check_filter : Bool → ℕ → ℕ → Bytes → Bytes → CollectCheck
unfolding new_collector
check_filter connected seconds limit id filter = elim (validate_filter filter) [
  | some e ↦ bad_filter e
  | none ↦ if connected then window seconds (new_collector id filter limit) else conflict
]

unfoldable pub check_limit : Bool → ℕ → IntParam → Bytes → Bytes → CollectCheck
unfolding check_filter
check_limit connected seconds (value limit) id filter =
    check_filter connected seconds limit id (if is_empty filter then codes "#" else filter)
check_limit connected seconds other id filter = bad_limit other

unfoldable pub check_seconds : Bool → IntParam → Bytes → Bytes → Bytes → CollectCheck
unfolding check_limit strict_int
check_seconds connected (value seconds) limit id filter =
    check_limit connected seconds (strict_int limit default_collect_limit 1 max_collect_limit) id
      filter
check_seconds connected other limit id filter = bad_seconds other

-- The parameters are as the query has them; the connection is there or not, and connected or not.
unfoldable pub check_collect : Bool → Bool → Bytes → Bytes → Bytes → Bytes → CollectCheck
unfolding check_seconds strict_int
check_collect found connected seconds limit id filter =
    if found
    then check_seconds connected (strict_int seconds default_collect_seconds 1 max_collect_seconds)
        limit id filter
    else not_found

-- The answer at the end of the window, less its times.
pub record Collection : Type 0 where
  pub messages : List Message
  pub topics : List (Bytes × ℕ)
  pub dropped : ℕ
  pub truncated : Bool

-- A missing key counts nothing.
abbrev pub or_zero : Option ℕ → ℕ
or_zero none = 0
or_zero (some n) = n

abbrev pub count_of : Bytes → List (Bytes × ℕ) → ℕ
count_of key counts = or_zero (lookup key counts)

unfoldable pub count_topics : List Message → List (Bytes × ℕ) → List (Bytes × ℕ)
count_topics [] counts = counts
count_topics (m ∷ ms) counts = count_topics ms (insert m.topic (count_of m.topic counts + 1) counts)

unfoldable pub collection : Collector → Collection
unfolding count_topics
collection c = record {
  messages = c.messages;
  topics = count_topics c.messages [];
  dropped = c.dropped;
  truncated = ltb 0 c.dropped;
}
