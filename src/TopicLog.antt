-- ===== src/TopicLog.antt =====
-- internal/mqttc/topiclog.go: a bounded ring of recent messages for each topic, within a budget
-- of payload bytes over all topics. The mutex makes each method one step.
pub mod Eviction
pub mod Contents
pub mod Rings
pub mod Accounting
use mqttview.Common.{
  ℕ, zero, suc, ◌+◌, ◌-◌, ◌*◌, ◌^◌, ◌%◌, u64_mod, Bool, true, false, ◌&&◌, Option, none, some, List,
  [], ◌∷◌, ◌++◌, Bytes, bytes_eq, ℤ, pos, negsuc, or_default, length, get_or, take, drop, ltb, ◌==◌,
  if◌then◌else◌,
}
use mqttview.Message.{Message, zero_message, Time}
use mqttview.Ring
use mqttview.Ring.{Ring}

abbrev pub default_topic_log_entries : ℕ
default_topic_log_entries = 100

abbrev pub max_topic_log_entries : ℕ
max_topic_log_entries = 10_000

abbrev pub default_topic_log_budget : ℕ
default_topic_log_budget = 32 * 2 ^ 20

abbrev pub max_topic_log_payload : ℕ
max_topic_log_payload = 8 * 2 ^ 10

-- `buf`, `next` and `filled` of the struct are its ring.
pub record TopicRing : Type 0 where
  pub topic : Bytes
  pub ring : Ring Message
  pub bytes : ℕ

-- `order` is the linked list, most recent first. The map `rings` points from a topic to its
-- element of `order`; each method changes the two together, so that here it is a search in
-- `order`. The code's byte counts are int64 and are never subtracted below 0 (see Accounting).
pub record TopicLog : Type 0 where
  pub per_topic : ℕ
  pub budget : ℕ
  pub bytes : ℕ
  pub order : List TopicRing
  pub evicted : ℕ

-- `l.rings[topic]`
unfoldable pub find : Bytes → List TopicRing → Option TopicRing
find topic [] = none
find topic (r ∷ rs) = if bytes_eq r.topic topic then some r else find topic rs

-- The other elements, in order: what follows an element that is moved to the front.
unfoldable pub without : Bytes → List TopicRing → List TopicRing
without topic [] = []
without topic (r ∷ rs) = if bytes_eq r.topic topic then rs else r ∷ without topic rs

unfoldable pub entries_per_topic : ℤ → ℕ
entries_per_topic entries =
    let n = or_default default_topic_log_entries entries in
    if ltb max_topic_log_entries n then max_topic_log_entries else n

unfoldable pub new_topic_log : ℤ → ℤ → TopicLog
new_topic_log entries budget = record {
  per_topic = entries_per_topic entries;
  budget = or_default default_topic_log_budget budget;
  bytes = 0;
  order = [];
  evicted = 0;
}

unfoldable pub clip : Message → Message
clip m =
    if ltb max_topic_log_payload (length m.payload)
    then record m { payload = take max_topic_log_payload m.payload; truncated = true }
    else m

abbrev pub size : Message → ℕ
size m = length m.payload

-- What stops counting against the budget when the slot at `next` is overwritten.
unfoldable pub replaced : Ring Message → ℕ
replaced r = if r.filled then size (get_or r.buf r.next zero_message) else 0

unfoldable pub new_ring : ℕ → Bytes → TopicRing
unfolding Ring.new
new_ring per_topic topic = record {
  topic = topic;
  ring = Ring.new zero_message per_topic;
  bytes = 0;
}

unfoldable pub write : TopicRing → Message → TopicRing
unfolding Ring.put replaced
write r m = record r { ring = Ring.put r.ring m; bytes = r.bytes - replaced r.ring + size m }

-- `l.order.Back()`
unfoldable pub back : List TopicRing → Option TopicRing
back [] = none
back (r ∷ []) = some r
back (_ ∷ r ∷ rs) = back (r ∷ rs)

-- `l.order.Remove(back)`
unfoldable pub drop_back : List TopicRing → List TopicRing
drop_back [] = []
drop_back (r ∷ []) = []
drop_back (r ∷ s ∷ rs) = r ∷ drop_back (s ∷ rs)

-- The body of the loop of `evictLocked` once the budget is exceeded, and the rest of the loop.
unfoldable pub evict_back : TopicLog → (TopicLog → TopicLog) → Option TopicRing → TopicLog
unfolding drop_back
evict_back l loop none = l
evict_back l loop (some r) =
    let smaller = record l {
      bytes = l.bytes - r.bytes;
      order = drop_back l.order;
      evicted = (l.evicted + 1) % u64_mod;
    } in
    elim (length l.order == 1) [ true ↦ l | false ↦ loop smaller ]

-- `evictLocked`, with a round of fuel for each topic: every round but the last drops one.
unfoldable pub evict_loop : ℕ → TopicLog → TopicLog
unfolding evict_back back
evict_loop zero l = l
evict_loop (suc fuel) l = elim (ltb l.budget l.bytes) [
  | true ↦ evict_back l (evict_loop fuel) (back l.order)
  | false ↦ l
]

unfoldable pub evict : TopicLog → TopicLog
unfolding evict_loop
evict l = evict_loop (length l.order) l

-- The ring that `Add` writes: the topic's, or a new one.
unfoldable pub ring_for : TopicLog → Bytes → TopicRing
unfolding find new_ring
ring_for l topic = elim (find topic l.order) [ none ↦ new_ring l.per_topic topic | some r ↦ r ]

-- `Add` up to its call of `evictLocked`.
unfoldable pub record_message : TopicLog → Message → TopicLog
unfolding ring_for without write
record_message l m =
    let r = ring_for l m.topic in
    record l {
      bytes = l.bytes - replaced r.ring + size m;
      order = write r m ∷ without m.topic l.order;
    }

unfoldable pub add : TopicLog → Message → TopicLog
unfolding record_message clip evict
add l m = evict (record_message l (clip m))

-- A positive limit keeps the newest of the entries.
unfoldable pub newest : ℤ → List Message → List Message
newest (pos zero) out = out
newest (pos (suc n)) out = if ltb (suc n) (length out) then drop (length out - suc n) out else out
newest (negsuc _) out = out

-- `Entries` moves the topic to the front. A nil slice is the empty list.
unfoldable pub entries : TopicLog → Bytes → ℤ → TopicLog × List Message
unfolding find without Ring.chronological newest
entries l topic limit = elim (find topic l.order) [
  | none ↦ (l, [])
  | some r ↦
      (record l { order = r ∷ without topic l.order }, newest limit (Ring.chronological r.ring))
]

-- `none` where the code reports false.
unfoldable pub previous_of : List Message → Option Message
previous_of [] = none
previous_of (_ ∷ []) = none
previous_of (m ∷ _ ∷ _) = some m

unfoldable pub previous : TopicLog → Bytes → TopicLog × Option Message
unfolding entries previous_of
previous l topic = let (l', out) = entries l topic (pos 2) in (l', previous_of out)

unfoldable pub topics : TopicLog → ℕ
topics l = length l.order

pub record TopicLogStats : Type 0 where
  pub topics : ℕ
  pub bytes : ℕ
  pub budget : ℕ
  pub entries_per : ℕ
  pub topics_evicted : ℕ

unfoldable pub stats : TopicLog → TopicLogStats
stats l = record {
  topics = length l.order;
  bytes = l.bytes;
  budget = l.budget;
  entries_per = l.per_topic;
  topics_evicted = l.evicted;
}

unfoldable pub clear : TopicLog → TopicLog
clear l = record l { order = []; bytes = 0 }

-- The times of the first and the last entry and their number; `none` where `ok` is false.
unfoldable pub last_of : Message → List Message → Message
last_of m [] = m
last_of m (n ∷ ms) = last_of n ms

unfoldable pub span_of : List Message → Option (Time × Time × ℕ)
unfolding last_of
span_of [] = none
span_of (m ∷ ms) = some (m.received_at, (last_of m ms).received_at, length (m ∷ ms))

unfoldable pub span : TopicLog → Bytes → TopicLog × Option (Time × Time × ℕ)
unfolding entries span_of
span l topic = let (l', out) = entries l topic (pos 0) in (l', span_of out)
