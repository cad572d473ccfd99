-- ===== src/Conn/Messages.antt =====
-- internal/mqttc/manager.go: what a connection does with a message, and the views that it feeds.
-- The clock is an argument; the counters are atomic, so that they stand in the state.
pub mod Agree
use mqttview.Common.{ℕ, zero, suc, ◌+◌, ◌^◌, ◌%◌, u64_mod, ℤ, List, [], ◌∷◌, ◌==◌, if◌then◌else◌}
use mqttview.Message.{Message, Time}
use mqttview.Tree.{Tree, new_tree, fold_in, clear_tree}
use mqttview.History
use mqttview.History.{History, new_history}
use mqttview.TopicLog
use mqttview.TopicLog.{TopicLog, new_topic_log}

-- The part of a `Conn` that messages change.
pub record Views : Type 0 where
  pub tree : Tree
  pub history : History
  pub topic_log : TopicLog
  pub seq : ℕ
  pub received : ℕ

-- `newConn`, from the sizes of its specification.
unfoldable pub new_views : ℤ → ℤ → ℤ → Views
new_views history_size entries budget = record {
  tree = new_tree;
  history = new_history history_size;
  topic_log = new_topic_log entries budget;
  seq = 0;
  received = 0;
}

-- The message with its number and its time, as the views and the observers get it.
unfoldable pub stamp_message : Time → ℕ → Message → Message
stamp_message now seq m = record m {
  seq = seq;
  received_at = if m.received_at == 0 then now else m.received_at;
}

-- The second result is what `emitMessage` hands to each observer.
unfoldable pub handle_message : Time → Message → Views → Views × Message
unfolding stamp_message
handle_message now m v =
    let seq = (v.seq + 1) % u64_mod in
    let stamped = stamp_message now seq m in
    (
      record {
        tree = fold_in stamped v.tree;
        history = History.add v.history stamped;
        topic_log = TopicLog.add v.topic_log stamped;
        seq = seq;
        received = (v.received + 1) % u64_mod;
      },
      stamped,
    )

unfoldable pub clear_state : Views → Views
clear_state v = record v {
  tree = clear_tree v.tree;
  history = History.clear v.history;
  topic_log = TopicLog.clear v.topic_log;
}

-- The messages that arrive, each with the time of the clock.
abbrev pub handle_all : List (Time × Message) → Views → Views
handle_all [] v = v
handle_all ((now, m) ∷ rest) v = handle_all rest (handle_message now m v).0
