-- ===== src/Conn/Messages/Agree.antt =====
-- The tree, the history and the topic log show the same message after it was handled.
use mqttview.Common.{
  ℕ, zero, suc, ◌+◌, ◌-◌, ◌%◌, ◌<◌, u64_mod, ◌≡◌, refl, sym, ap, ◌∙◌, ◌≢◌, false, List, [], ◌∷◌,
  ◌++◌, map, map-append, foldl, reverse, reverse-append, Bytes, ℤ, pos, negsuc, length,
  length-append, take, drop, drop-append_left, last_n, keep_if, bytes_eq_refl, arith, subst, some,
}
use mqttview.Message.{Message, Time}
use mqttview.Topic.{is_empty}
use mqttview.Tree.{Tree, new_tree, fold_in, last_value, max_topics}
use mqttview.Tree.Nodes.{described, count_held}
use mqttview.Tree.Latest.{fold_all, last_seen, last_value-last_seen, last_seen-append}
use mqttview.History
use mqttview.History.{new_history, history_size, clip_history, recent, wanted}
use mqttview.History.Newest.{recent-add}
use mqttview.TopicLog
use mqttview.TopicLog.{new_topic_log, clip}
use mqttview.TopicLog.Rings.{IsLog}
use mqttview.TopicLog.Accounting.{new_topic_log-IsLog, add-IsLog}
use mqttview.TopicLog.Contents.{all_entries, entries-add}
use mqttview.Conn.Messages.{Views, new_views, stamp_message, handle_message, handle_all}

-- The arriving messages as they are shown, after `n` others.
abbrev pub stamped : ℕ → List (Time × Message) → List Message
stamped n [] = []
stamped n ((now, m) ∷ rest) =
    stamp_message now ((n + 1) % u64_mod) m ∷ stamped ((n + 1) % u64_mod) rest

-- Each view is fed the same messages, in the order of their arrival.
pub record Fed (v : Views) (ms : List Message) (w : Views) : Type 0 where
  pub tree : w.tree ≡ fold_all ms v.tree
  pub history : w.history ≡ foldl History.add v.history ms
  pub topic_log : w.topic_log ≡ foldl TopicLog.add v.topic_log ms
  pub seq : w.seq ≡ (v.seq + length ms) % u64_mod
  pub received : w.received ≡ (v.received + length ms) % u64_mod

handle_all-Fed :
    (arriving : List (Time × Message)) (v : Views)
    → v.seq < u64_mod
    → v.received < u64_mod
    → Fed v (stamped v.seq arriving) (handle_all arriving v)
unfolding handle_message
handle_all-Fed [] v s r = record {
  tree = refl;
  history = refl;
  topic_log = refl;
  seq = omega arith;
  received = omega arith;
}
handle_all-Fed ((now, m) ∷ rest) v s r =
    let h = handle_all-Fed rest (handle_message now m v).0 (omega arith) (omega arith) in
    record {
      tree = h.tree;
      history = h.history;
      topic_log = h.topic_log;
      seq = let e = h.seq in omega arith;
      received = let e = h.received in omega arith;
    }

length-stamped :
    (n : ℕ) (arriving : List (Time × Message)) → length (stamped n arriving) ≡ length arriving
length-stamped n [] = refl
length-stamped n ((now, m) ∷ rest) = ap suc (length-stamped ((n + 1) % u64_mod) rest)

-- A list's last elements end with the list.
last_n-snoc {ℓ} :
    {A : Type ℓ} (n : ℕ) (l : List A) (a : A)
    → last_n (suc n) (l ++ a ∷ []) ≡ drop (length l - n) l ++ a ∷ []
last_n-snoc n l a =
    let len = length-append l (a ∷ []) in
    let k : length (l ++ a ∷ []) - suc n ≡ length l - n = omega arith in
    ap (λ j. drop j (l ++ a ∷ [])) k ∙ drop-append_left (length l - n) l (a ∷ []) (omega arith)

drop-length-append {ℓ} : {A : Type ℓ} (l : List A) (a : A) → drop (length l) (l ++ a ∷ []) ≡ a ∷ []
drop-length-append [] a = refl
drop-length-append (x ∷ l) a = drop-length-append l a

last_one-last_n {ℓ} :
    {A : Type ℓ} (n : ℕ) (l : List A) (a : A) → 0 < n → last_n 1 (last_n n (l ++ a ∷ [])) ≡ a ∷ []
last_one-last_n zero l a h = absurd (omega arith)
last_one-last_n (suc n) l a h =
    let rest = drop (length l - n) l in
    let len = length-append rest (a ∷ []) in
    let k : length (rest ++ a ∷ []) - 1 ≡ length rest = omega arith in
    ap (last_n 1) (last_n-snoc n l a)
    ∙ ap (λ j. drop j (rest ++ a ∷ [])) k
    ∙ drop-length-append rest a

history_size_pos : (size : ℤ) → 0 < history_size size
unfolding history_size
history_size_pos (pos zero) = ground arith
history_size_pos (pos (suc n)) = ground arith
history_size_pos (negsuc n) = ground arith

clip_history-topic : (m : Message) → (clip_history m).topic ≡ m.topic
unfolding clip_history
clip_history-topic m = ground arith

is_empty-false : (t : Bytes) → t ≢ [] → is_empty t ≡ false
is_empty-false [] n = absurd (n refl)
is_empty-false (b ∷ t) n = refl

first_wanted :
    (x : Message) (l : List Message) → x.topic ≢ [] → take 1 (keep_if (wanted []) (x ∷ l)) ≡ x ∷ []
unfolding wanted
first_wanted x l n = rw (is_empty-false x.topic n)

newest_one :
    (n : ℕ) (l : List Message) (x : Message)
    → 0 < n
    → x.topic ≢ []
    → take 1 (keep_if (wanted []) (reverse (last_n n (l ++ x ∷ [])))) ≡ x ∷ []
newest_one zero l x h named = absurd (omega arith)
newest_one (suc n) l x h named =
    let rest = drop (length l - n) l in
    ap (λ (k : List Message). take 1 (keep_if (wanted []) (reverse k))) (last_n-snoc n l x)
    ∙ ap (λ (k : List Message). take 1 (keep_if (wanted []) k)) (reverse-append rest (x ∷ []))
    ∙ first_wanted x (reverse rest) named

-- The newest of the history is what was added last.
recent_one :
    (size : ℤ) (ms : List Message) (m : Message)
    → m.topic ≢ []
    → recent (foldl History.add (new_history size) (ms ++ m ∷ [])) (pos 1) [] ≡ clip_history m ∷ []
recent_one size ms m named =
    recent-add size (pos 1) [] (ms ++ m ∷ [])
    ∙ ap
        (λ (l : List Message).
          take 1 (keep_if (wanted []) (reverse (last_n (history_size size) l))))
        (map-append clip_history ms (m ∷ []))
    ∙ newest_one (history_size size) (map clip_history ms) (clip_history m) (history_size_pos size)
        (subst (λ t. t ≢ []) (sym (clip_history-topic m)) named)

adds-IsLog : (ms : List Message) (l : TopicLog.TopicLog) → IsLog l → IsLog (foldl TopicLog.add l ms)
adds-IsLog [] l h = h
adds-IsLog (m ∷ ms) l h = adds-IsLog ms (TopicLog.add l m) (add-IsLog l m h)

foldl-snoc {ℓ κ} :
    {A : Type ℓ} {B : Type κ} (f : B → A → B) (b : B) (l : List A) (a : A)
    → foldl f b (l ++ a ∷ []) ≡ f (foldl f b l) a
foldl-snoc f b [] a = refl
foldl-snoc f b (x ∷ l) a = foldl-snoc f (f b x) l a

-- The newest entry of a topic is what was added to it last.
entries_one :
    (l : TopicLog.TopicLog) (m : Message)
    → IsLog l
    → last_n 1 (all_entries (TopicLog.add l m) m.topic) ≡ clip m ∷ []
entries_one l m h =
    ap (last_n 1) (entries-add l m h).0
    ∙ last_one-last_n l.per_topic (all_entries l m.topic) (clip m) h.positive

fold_all-snoc :
    (ms : List Message) (m : Message) (t : Tree)
    → fold_all (ms ++ m ∷ []) t ≡ fold_in m (fold_all ms t)
fold_all-snoc [] m t = refl
fold_all-snoc (x ∷ ms) m t = fold_all-snoc ms m (fold_in x t)

last_value_one :
    (ms : List Message) (m : Message)
    → length ms < max_topics
    → m.topic ≢ []
    → last_value m.topic (fold_in m (fold_all ms new_tree))
      ≡ some (described m.topic m (count_held (last_seen m.topic ms)))
last_value_one ms m room named =
    let len = length-append ms (m ∷ []) in
    ap (last_value m.topic) (sym (fold_all-snoc ms m new_tree))
    ∙ last_value-last_seen (ms ++ m ∷ []) m.topic (omega arith) named
    ∙ last_seen-append m.topic ms m
    ∙ rw (bytes_eq_refl m.topic) refl

-- After `handleMessage`, on a connection that handled fewer than `maxTopics` messages before, a
-- message whose topic is not empty is, with its number and time, what the tree gives for the topic
-- (with the number of the topic's messages), the newest of the history and the newest entry of the
-- topic's log, each with the payload cut at that view's bound; and the number is one more than
-- the messages before, modulo 2^64, as is the count of received messages.
pub handle_message-shown :
    (history_size entries budget : ℤ) (arriving : List (Time × Message)) (now : Time) (m : Message)
    → length arriving < max_topics
    → m.topic ≢ []
    → let before = handle_all arriving (new_views history_size entries budget) in
      let (after, shown) = handle_message now m before in
      (last_value m.topic after.tree
        ≡ some (described m.topic shown (count_held (last_seen m.topic (stamped 0 arriving)))))
      × (recent after.history (pos 1) [] ≡ clip_history shown ∷ [])
      × (last_n 1 (all_entries after.topic_log m.topic) ≡ clip shown ∷ [])
      × (shown.seq ≡ (length arriving + 1) % u64_mod)
      × (after.received ≡ (length arriving + 1) % u64_mod)
unfolding handle_message stamp_message new_views
handle_message-shown history_size entries budget arriving now m room named =
    let start = new_views history_size entries budget in
    let fed = handle_all-Fed arriving start (omega arith) (omega arith) in
    let before = handle_all arriving start in
    let shown = (handle_message now m before).1 in
    let ms = stamped 0 arriving in
    let len = length-stamped 0 arriving in
    let s = fed.seq in
    let r = fed.received in
    (
      ap (λ t. last_value m.topic (fold_in shown t)) fed.tree
          ∙ last_value_one ms shown (omega arith) named,
      ap (λ h. recent (History.add h shown) (pos 1) []) fed.history
          ∙ ap (λ h. recent h (pos 1) [])
              (sym (foldl-snoc History.add (new_history history_size) ms shown))
          ∙ recent_one history_size ms shown named,
      entries_one before.topic_log shown (
          subst IsLog (sym fed.topic_log)
            (adds-IsLog ms (new_topic_log entries budget) (new_topic_log-IsLog entries budget))),
      omega arith,
      omega arith,
    )
