-- ===== src/History.antt =====
-- internal/mqttc/history.go: the ring of a connection's most recent messages.
pub mod Newest
use mqttview.Common.{
  ℕ, zero, suc, ◌+◌, ◌*◌, Bool, true, false, not, ◌&&◌, ◌||◌, List, [], ◌∷◌, ◌++◌, Bytes, ℤ,
  or_default, length, get_or, take, ltb, if◌then◌else◌, min,
}
use mqttview.Message.{Message, zero_message}
use mqttview.Ring
use mqttview.Ring.{Ring}
use mqttview.Ring.Recent.{slot}
use mqttview.Topic.{match_filter, is_empty}

abbrev pub default_history_size : ℕ
default_history_size = 2000

abbrev pub max_history_payload : ℕ
max_history_payload = 64 * 1024

abbrev pub max_history_size : ℕ
max_history_size = 100_000

abbrev pub History : Type 0
History = Ring Message

unfoldable pub history_size : ℤ → ℕ
history_size size =
    let n = or_default default_history_size size in
    if ltb max_history_size n then max_history_size else n

unfoldable pub new_history : ℤ → History
unfolding history_size Ring.new
new_history size = Ring.new zero_message (history_size size)

-- The copy that `Add` stores: the payload is cut, and the message is not marked as truncated.
unfoldable pub clip_history : Message → Message
clip_history m =
    if ltb max_history_payload (length m.payload)
    then record m { payload = take max_history_payload m.payload }
    else m

unfoldable pub add : History → Message → History
unfolding clip_history Ring.put
add h m = Ring.put h (clip_history m)

-- What the loop of `Recent` does not skip.
unfoldable pub wanted : Bytes → Message → Bool
wanted filter m = not (is_empty m.topic) && (is_empty filter || match_filter filter m.topic)

-- The loop of `Recent`: the rounds that are left, `i`, and `out`.
unfoldable pub recent_loop : History → Bytes → ℕ → ℕ → ℕ → List Message → List Message
unfolding wanted
recent_loop h filter limit zero i out = out
recent_loop h filter limit (suc rounds) i out =
    let m = get_or h.buf (slot (length h.buf) h.next i) zero_message in
    let more =
      recent_loop h filter limit rounds (suc i) (if wanted filter m then out ++ m ∷ [] else out) in
    if ltb (length out) limit then more else out

unfoldable pub recent : History → ℤ → Bytes → List Message
unfolding recent_loop
recent h limit filter =
    let count = if h.filled then length h.buf else h.next in
    recent_loop h filter (or_default 200 limit) count 0 []

unfoldable pub len : History → ℕ
len h = if h.filled then length h.buf else h.next

unfoldable pub clear : History → History
unfolding Ring.new
clear h = Ring.new zero_message (length h.buf)
