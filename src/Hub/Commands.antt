-- ===== src/Hub/Commands.antt =====
-- What a browser's commands leave behind, and what a watch then delivers.
use mqttview.Common.{
  zero, suc, ◌≤◌, ◌<◌, ◌≡◌, refl, sym, ap, ◌∙◌, ◌≢◌, ◌↔◌, ◌⊎◌, inl, inr, Bool, true, false, ◌&&◌,
  ◌||◌, Option, none, some, List, [], ◌∷◌, Bytes, codes, bytes_eq, bytes_eq_iff, bytes_eq_ne,
  lookup, insert, delete, lookup-insert, All, All-insert, All-delete, Bool-cases, if_both,
  Option-cases, length, length-append, if◌then◌else◌, ltb, ℤ, pos, negsuc, arith, split,
}
use mqttview.Message.{Message, Time}
use mqttview.Topic.{
  TopicError, validate_filter, match_filter, is_empty, hash, slash, starts_reserved, starts_wild,
}
use mqttview.Topic.Validity.{validate_filter-IsFilter}
use mqttview.Topic.Matching.{Matches, match_filter-Matches}
use mqttview.Hub.{
  Frame, hello, default_rate, error, pong, malformed_command, watch_requires_connection,
  invalid_filter, unknown_command, Command, Client, send_buffer, max_client_rate, push, count_drop,
  wants, set_rate, connect, push_frame, handle_watch, handle, Inbound, not_text, undecodable,
  command, read_loop,
}

abbrev pub IsAllowed : Bytes × Bytes → Type 0
IsAllowed (_, filter) = (filter ≡ []) ⊎ (validate_filter filter ≡ none)

pub record IsClient (c : Client) : Type 0 where
  pub queue : length c.send ≤ send_buffer
  pub rate_pos : 0 < c.rate
  pub rate_cap : c.rate ≤ max_client_rate
  pub filters : All IsAllowed c.watch

pub push-IsClient : (raw : Option Bytes) (c : Client) → IsClient c → IsClient (push raw c)
unfolding push count_drop
push-IsClient none c v = v
push-IsClient (some raw) c v = elim (Bool-cases (ltb (length c.send) send_buffer)) [
  | inl y ↦ rw y (record {
    queue = ground (arith, length-append c.send (raw ∷ []));
    rate_pos = v.rate_pos;
    rate_cap = v.rate_cap;
    filters = v.filters;
  })
  | inr y ↦ rw y (record {
    queue = v.queue;
    rate_pos = v.rate_pos;
    rate_cap = v.rate_cap;
    filters = v.filters;
  })
]

set_rate-IsClient : (n : ℤ) (c : Client) → IsClient c → IsClient (set_rate n c)
unfolding set_rate
set_rate-IsClient (pos zero) c v = v
set_rate-IsClient (pos (suc n)) c v = record {
  queue = v.queue;
  rate_pos = omega arith;
  rate_cap = omega arith;
  filters = v.filters;
}
set_rate-IsClient (negsuc n) c v = v

watch-IsClient :
    (c : Client) (m : List (Bytes × Bytes))
    → IsClient c
    → All IsAllowed m
    → IsClient (record c { watch = m })
watch-IsClient c m v h = record {
  queue = v.queue;
  rate_pos = v.rate_pos;
  rate_cap = v.rate_cap;
  filters = h;
}

-- What `watch` checks before it stores the filter.
abbrev filter_error : Bytes → Option TopicError
filter_error f = if is_empty f then none else validate_filter f

filter_error-IsAllowed : (k f : Bytes) → filter_error f ≡ none → IsAllowed (k, f)
filter_error-IsAllowed k [] h = inl refl
filter_error-IsAllowed k (b ∷ f) h = inr h

module _ (encode : Frame → Option Bytes) where
  handle_watch-IsClient :
      (cmd : Command) (c : Client) → IsClient c → IsClient (handle_watch encode cmd c)
  unfolding handle_watch push_frame
  handle_watch-IsClient cmd c v = elim (Bool-cases (is_empty cmd.connection_id)) [
    | inl y ↦ rw y (push-IsClient (encode (error watch_requires_connection)) c v)
    | inr y ↦ elim (Option-cases (filter_error cmd.filter)) [
      | inl ok ↦
          rw (y, ok)
            (set_rate-IsClient cmd.max_rate _ (
              watch-IsClient c (insert cmd.connection_id cmd.filter c.watch) v (
                All-insert IsAllowed cmd.connection_id cmd.filter c.watch
                  (filter_error-IsAllowed cmd.connection_id cmd.filter ok) v.filters)))
      | inr (err, bad) ↦ rw (y, bad) (push-IsClient (encode (error (invalid_filter err))) c v)
    ]
  ]

  handle-IsClient : (cmd : Command) (c : Client) → IsClient c → IsClient (handle encode cmd c)
  unfolding handle push_frame
  handle-IsClient cmd c v =
      if_both IsClient (bytes_eq cmd.type (codes "watch")) (handle_watch-IsClient cmd c v) (
        if_both IsClient (bytes_eq cmd.type (codes "unwatch"))
          (watch-IsClient c (delete cmd.connection_id c.watch) v
            (All-delete IsAllowed cmd.connection_id c.watch v.filters))
          (if_both IsClient (bytes_eq cmd.type (codes "rate")) (set_rate-IsClient cmd.max_rate c v)
            (if_both IsClient (bytes_eq cmd.type (codes "ping")) (push-IsClient (encode pong) c v)
              (push-IsClient (encode (error (unknown_command cmd.type))) c v))))

  read_loop-IsClient :
      (ins : List Inbound) (c : Client) → IsClient c → IsClient (read_loop encode ins c)
  unfolding read_loop push_frame
  read_loop-IsClient [] c v = v
  read_loop-IsClient (not_text ∷ rest) c v = read_loop-IsClient rest c v
  read_loop-IsClient (undecodable ∷ rest) c v =
      read_loop-IsClient rest _ (push-IsClient (encode (error malformed_command)) c v)
  read_loop-IsClient (command cmd ∷ rest) c v = read_loop-IsClient rest _ (handle-IsClient cmd c v)

  connect-IsClient : (now : Time) → IsClient (connect encode now)
  unfolding connect
  connect-IsClient now =
      push-IsClient (encode (hello default_rate)) _ (record {
        queue = omega arith;
        rate_pos = omega arith;
        rate_cap = omega arith;
        filters = tt;
      })

  -- Whatever a browser sends after it has connected, its queue holds at most 512 frames, its rate
  -- is between 1 and 5000, and each filter that it watches is empty or one that `ValidateFilter`
  -- accepts.
  pub connected-IsClient :
      (now : Time) (ins : List Inbound) → IsClient (read_loop encode ins (connect encode now))
  connected-IsClient now ins = read_loop-IsClient ins (connect encode now) (connect-IsClient now)

set_rate-watch : (n : ℤ) (c : Client) → (set_rate n c).watch ≡ c.watch
unfolding set_rate
set_rate-watch (pos zero) c = refl
set_rate-watch (pos (suc n)) c = refl
set_rate-watch (negsuc n) c = refl

-- The answer of `wants` for a connection's filter.
pub admits : Option Bytes → Bytes → Bool
admits none topic = false
admits (some f) topic = if is_empty f || bytes_eq f hash then true else match_filter f topic

pub wants-admits :
    (c : Client) (m : Message) → wants c m ≡ admits (lookup m.connection_id c.watch) m.topic
unfolding wants admits
wants-admits c m = elim (Option-cases (lookup m.connection_id c.watch)) [
  | inl e ↦ rw (e, wants) refl
  | inr (f, e) ↦ rw (e, wants) refl
]

not-empty : (s : Bytes) → s ≢ [] → is_empty s ≡ false
not-empty [] h = absurd (h refl)
not-empty (_ ∷ _) h = refl

filter-ne-nil : (f : Bytes) → validate_filter f ≡ none → f ≢ []
filter-ne-nil f h = ((validate_filter-IsFilter f).0 h).nonempty

admits-valid :
    (f t : Bytes)
    → validate_filter f ≡ none
    → (admits (some f) t ≡ true) ↔ (
        (f ≡ hash)
        ⊎ (Matches (split slash f) (split slash t)
            × ((starts_reserved (split slash t) && starts_wild (split slash f)) ≡ false)))
unfolding admits
admits-valid f t h =
    let full = not-empty f (filter-ne-nil f h) in
    elim (Bool-cases (bytes_eq f hash)) [
      | inl y ↦ rw (full, y) (λ _. inl ((bytes_eq_iff f hash).0 y), λ _. refl)
      | inr y ↦
          rw (full, y)
            (
              λ e. inr ((match_filter-Matches f t h).0 e),
              λ o. elim o [
                | inl e ↦ cc ((bytes_eq_iff f hash).1 e)
                | inr p ↦ (match_filter-Matches f t h).1 p
              ],
            )
    ]

module _ (encode : Frame → Option Bytes) (cmd : Command) (c : Client)
    (watch : cmd.type ≡ codes "watch") (named : cmd.connection_id ≢ [])
    (valid : validate_filter cmd.filter ≡ none) where
  watched : (handle encode cmd c).watch ≡ insert cmd.connection_id cmd.filter c.watch
  unfolding handle handle_watch
  watched =
      let is_watch = (bytes_eq_iff cmd.type (codes "watch")).1 watch in
      let some_id = not-empty cmd.connection_id named in
      let full = not-empty cmd.filter (filter-ne-nil cmd.filter valid) in
      rw (is_watch, some_id, full, valid) (set_rate-watch cmd.max_rate _)

  -- After a `watch` command with a connection and a valid filter, the client wants a message of
  -- that connection exactly if the filter is `#` or matches its topic by MQTT's rules, and wants of
  -- any other connection what it wanted before.
  pub wants-watch :
      (m : Message)
      → (m.connection_id ≡ cmd.connection_id
          → (wants (handle encode cmd c) m ≡ true) ↔ (
              (cmd.filter ≡ hash)
              ⊎ (Matches (split slash cmd.filter) (split slash m.topic)
                  × ((starts_reserved (split slash m.topic) && starts_wild (split slash cmd.filter))
                      ≡ false))))
        × (m.connection_id ≢ cmd.connection_id → wants (handle encode cmd c) m ≡ wants c m)
  wants-watch m =
      let look = λ (k : Bytes).
        ap (lookup k) watched ∙ lookup-insert cmd.connection_id k cmd.filter c.watch in
      (
        λ e.
            let here : lookup m.connection_id (handle encode cmd c).watch ≡ some cmd.filter =
              look m.connection_id
              ∙ ap (λ b. if b then some cmd.filter else lookup m.connection_id c.watch)
                  ((bytes_eq_iff cmd.connection_id m.connection_id).1 (sym e)) in
            rw (wants-admits (handle encode cmd c) m ∙ ap (λ o. admits o m.topic) here)
              (admits-valid cmd.filter m.topic valid),
        λ n.
            let there : lookup m.connection_id (handle encode cmd c).watch
                ≡ lookup m.connection_id c.watch =
              look m.connection_id
              ∙ ap (λ b. if b then some cmd.filter else lookup m.connection_id c.watch)
                  (bytes_eq_ne cmd.connection_id m.connection_id (λ e. n (sym e))) in
            wants-admits (handle encode cmd c) m
            ∙ ap (λ o. admits o m.topic) there
            ∙ sym (wants-admits c m),
      )
