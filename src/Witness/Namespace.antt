-- ===== src/Witness/Namespace.antt =====
-- The results about internal/mqttc/tree.go at concrete inputs.
use mqttview.Common.{
  some, pos, length, take, last_n, leb, ◌≡◌, refl, arith, false, List, [], ◌∷◌, Bytes, codes, split,
  bytes_eq,
}
use mqttview.Message.{Message, zero_message, Time}
use mqttview.History.{recent, clip_history}
use mqttview.TopicLog.{clip}
use mqttview.TopicLog.Contents.{all_entries}
use mqttview.Conn.Messages.{new_views, handle_message, handle_all}
use mqttview.Conn.Messages.Agree.{stamped, handle_message-shown}
use mqttview.Tree.Reads.{GraphNode, graph}
use mqttview.Tree.Picture.{IsBreadthFirst, graph-IsBreadthFirst}
use mqttview.Tree.Nodes.{described, count_held}
use mqttview.Tree.{info_of, new_tree, fold_in, last_value, counters}
use mqttview.Tree.Latest.{fold_all, last_seen, last_value-last_seen}
use mqttview.Tree.Counting.{IsTree, fold_all-IsTree}

abbrev cellar : Bytes
cellar = codes "home/cellar"

abbrev told : Bytes → Bytes → Message
told topic payload = record zero_message { topic = topic; payload = payload; received_at = 5 }

abbrev three_messages : List Message
three_messages =
    told cellar (codes "9") ∷ told (codes "home") (codes "up") ∷ told cellar (codes "10") ∷ []

last_value-last_seen_example :
    last_value cellar (fold_all three_messages new_tree) ≡ last_seen cellar three_messages
last_value-last_seen_example = last_value-last_seen three_messages cellar (omega arith) (λ e. cc)

graph-IsBreadthFirst_example :
    (nodes : List GraphNode) × IsBreadthFirst 2 1
      ((fold_all three_messages new_tree).root ∷ [])
      nodes
    × (graph (pos 2) (pos 1) (fold_all three_messages new_tree) ≡ (
      take 1 nodes,
      (info_of (fold_all three_messages new_tree).root).sub_updated_at,
      leb 1 (length nodes),
    ))
graph-IsBreadthFirst_example =
    graph-IsBreadthFirst (pos 2) (pos 1) (fold_all three_messages new_tree)

abbrev arriving : List (Time × Message)
arriving = (7, told cellar (codes "9")) ∷ (8, told (codes "home") (codes "up")) ∷ []

handle_message-shown_example :
    let before = handle_all arriving (new_views (pos 10) (pos 5) (pos 100)) in
    let (after, shown) = handle_message 9 (told cellar (codes "10")) before in
    (last_value cellar after.tree
      ≡ some (described cellar shown (count_held (last_seen cellar (stamped 0 arriving)))))
    × (recent after.history (pos 1) [] ≡ clip_history shown ∷ [])
    × (last_n 1 (all_entries after.topic_log cellar) ≡ clip shown ∷ [])
    × (shown.seq ≡ 3)
    × (after.received ≡ 3)
handle_message-shown_example =
    handle_message-shown (pos 10) (pos 5) (pos 100) arriving 9 (told cellar (codes "10"))
      (omega arith) (λ e. cc)

fold_all-IsTree_example : IsTree (fold_all three_messages new_tree)
fold_all-IsTree_example = fold_all-IsTree three_messages

-- Two topics, one of them above the other, and three messages.
fold_three : counters (fold_all three_messages new_tree) ≡ (2, 3, false)
unfolding counters fold_in new_tree split bytes_eq
fold_three = refl
