-- ===== src/Witness/Mqttc.antt =====
-- The results about internal/mqttc at concrete inputs.
use mqttview.Common.{
  ◌≡◌, refl, ◌≢◌, ◌↔◌, ◌⊎◌, true, false, ◌&&◌, none, [], ◌∷◌, ◌++◌, map, foldl, reverse, Bytes,
  codes, split, pos, or_default, take, last_n, keep_if, contains_byte, bytes_eq, has_prefix,
}
use mqttview.Message.{Message, zero_message}
use mqttview.Topic.{
  slash, validate_filter, match_filter, starts_reserved, starts_wild, check_levels, has_wild,
  match_levels,
}
use mqttview.Topic.Utf8.{valid_string}
use mqttview.Topic.Validity.{IsFilter, validate_filter-IsFilter}
use mqttview.Topic.Matching.{Matches, match_filter-Matches}
use mqttview.History
use mqttview.History.{new_history, history_size, clip_history, wanted, recent, len}
use mqttview.History.Newest.{recent-add}
use mqttview.TopicLog
use mqttview.TopicLog.{
  TopicLog, new_topic_log, entries_per_topic, default_topic_log_budget, clip, entries, previous,
}
use mqttview.TopicLog.Accounting.{IsAccounted, adds-IsAccounted, new_topic_log-IsLog, add-IsLog}
use mqttview.TopicLog.Contents.{all_entries, entries-add}

abbrev kitchen : Bytes
kitchen = codes "home/kitchen"

abbrev any_room : Bytes
any_room = codes "home/+"

abbrev reading : Bytes → Bytes → Message
reading topic payload = record zero_message { topic = topic; payload = payload }

abbrev first : Message
first = reading kitchen (codes "20")

abbrev second : Message
second = reading (codes "home/hall") (codes "18")

abbrev third : Message
third = reading kitchen (codes "21")

any_room_valid : validate_filter any_room ≡ none
unfolding validate_filter valid_string contains_byte check_levels split bytes_eq has_wild
any_room_valid = refl

match_filter-Matches_example : (match_filter any_room kitchen ≡ true) ↔ (
    Matches (split slash any_room) (split slash kitchen)
    × ((starts_reserved (split slash kitchen) && starts_wild (split slash any_room)) ≡ false))
match_filter-Matches_example = match_filter-Matches any_room kitchen any_room_valid

validate_filter-IsFilter_example : (validate_filter any_room ≡ none) ↔ IsFilter any_room
validate_filter-IsFilter_example = validate_filter-IsFilter any_room

recent-add_example :
    recent (foldl History.add (new_history (pos 2)) (first ∷ second ∷ third ∷ [])) (pos 5) any_room
    ≡ take (or_default 200 (pos 5)) (
        keep_if (wanted any_room) (
          reverse (last_n (history_size (pos 2)) (map clip_history (first ∷ second ∷ third ∷ [])))))
recent-add_example = recent-add (pos 2) (pos 5) any_room (first ∷ second ∷ third ∷ [])

-- The same run, computed: the newest two, the newest first.
recent_run :
    recent (foldl History.add (new_history (pos 2)) (first ∷ second ∷ third ∷ [])) (pos 5) any_room
    ≡ third ∷ second ∷ []
unfolding recent History.add new_history match_filter bytes_eq starts_reserved split has_prefix
    match_levels
recent_run = refl

adds-IsAccounted_example :
    IsAccounted
      (entries_per_topic (pos 2))
      (or_default default_topic_log_budget (pos 3))
      (foldl TopicLog.add (new_topic_log (pos 2) (pos 3)) (first ∷ second ∷ third ∷ []))
adds-IsAccounted_example = adds-IsAccounted (pos 2) (pos 3) (first ∷ second ∷ third ∷ [])

abbrev small_log : TopicLog
small_log = TopicLog.add (new_topic_log (pos 2) (pos 3)) first

entries-add_example :
    (all_entries (TopicLog.add small_log second) second.topic
      ≡ last_n small_log.per_topic (all_entries small_log second.topic ++ clip second ∷ []))
    × ((t : Bytes)
        → t ≢ second.topic
        → (all_entries (TopicLog.add small_log second) t ≡ all_entries small_log t)
          ⊎ (all_entries (TopicLog.add small_log second) t ≡ []))
entries-add_example =
    entries-add small_log second
      (add-IsLog (new_topic_log (pos 2) (pos 3)) first (new_topic_log-IsLog (pos 2) (pos 3)))

-- Three bytes are the budget, so that the second topic evicts the first.
eviction_run : all_entries (TopicLog.add small_log second) kitchen ≡ []
unfolding entries TopicLog.add new_topic_log entries_per_topic bytes_eq
eviction_run = refl
