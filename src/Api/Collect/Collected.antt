-- ===== src/Api/Collect/Collected.antt =====
-- What a window has collected when it ends.
use mqttview.Common.{
  ℕ, zero, suc, ◌+◌, ◌-◌, ◌≡◌, refl, sym, ap, ap₂, ◌∙◌, inl, inr, Bool, true, false, not, ◌&&◌,
  List, [], ◌∷◌, ◌++◌, append_assoc, append-nil, Bytes, bytes_eq, lookup, insert, lookup-insert,
  bytes_eq_iff, length, length-append, length-take, take, take_of_length-le, take-append_enough,
  keep_if, keep_if-append, subst, ltb, leb, Bool-cases, arith,
}
use mqttview.Message.{Message}
use mqttview.Topic.{match_filter}
use mqttview.Api.Collect.{
  Collector, new_collector, collect, passed_over, collection, count_topics, count_of, or_zero,
}

abbrev pub collect_all : List Message → Collector → Collector
collect_all [] c = c
collect_all (m ∷ ms) c = collect_all ms (collect m c)

-- A message that a window is for.
abbrev pub concerns : Bytes → Bytes → Message → Bool
concerns id filter m = bytes_eq m.connection_id id && match_filter filter m.topic

-- The collector has the first of what it has seen, and the number of the others.
record HasSeen (id filter : Bytes) (limit : ℕ) (seen : List Message) (c : Collector) : Type 0 where
  messages : c.messages ≡ take limit seen
  dropped : c.dropped ≡ length seen - limit
  same_id : c.connection_id ≡ id
  same_filter : c.filter ≡ filter
  same_limit : c.limit ≡ limit

collect-HasSeen :
    (id filter : Bytes) (limit : ℕ) (seen : List Message) (c : Collector) (m : Message)
    → HasSeen id filter limit seen c
    → HasSeen id filter limit (seen ++ keep_if (concerns id filter) (m ∷ [])) (collect m c)
unfolding collect passed_over
collect-HasSeen id filter limit seen c m h =
    let passed = ap not (
      ap₂ (λ (i f : Bytes). bytes_eq m.connection_id i && match_filter f m.topic) h.same_id
        h.same_filter) in
    let taken = ap (λ (l : List Message). length l) h.messages ∙ length-take limit seen in
    let longer = length-append seen (m ∷ []) in
    elim (Bool-cases (concerns id filter m)) [
      | inl y ↦
          let here : passed_over m c ≡ false = ground (arith, y, passed) in
          elim (Bool-cases (leb c.limit (length c.messages))) [
            | inl z ↦
                rw (y, here, z)
                  record {
                    messages =
                        h.messages
                        ∙ sym (
                            take-append_enough limit seen (m ∷ [])
                              (ground (arith, z, taken, h.same_limit)));
                    dropped = ground (arith, z, taken, longer, h.dropped, h.same_limit);
                    same_id = h.same_id;
                    same_filter = h.same_filter;
                    same_limit = h.same_limit;
                  }
            | inr z ↦
                rw (y, here, z)
                  record {
                    messages =
                        ap (λ (l : List Message). l ++ m ∷ [])
                          (h.messages
                            ∙ take_of_length-le limit seen (ground (arith, z, taken, h.same_limit)))
                        ∙ sym (
                            take_of_length-le limit (seen ++ m ∷ [])
                              (ground (arith, z, taken, longer, h.same_limit)));
                    dropped = ground (arith, z, taken, longer, h.dropped, h.same_limit);
                    same_id = h.same_id;
                    same_filter = h.same_filter;
                    same_limit = h.same_limit;
                  }
          ]
      | inr y ↦
          let over : passed_over m c ≡ true = ground (arith, y, passed) in
          rw (y, over)
            (subst (λ (l : List Message). HasSeen id filter limit l c) (sym (append-nil seen)) h)
    ]

collect_all-HasSeen :
    (id filter : Bytes) (limit : ℕ) (seen : List Message) (c : Collector) (ms : List Message)
    → HasSeen id filter limit seen c
    → HasSeen id filter limit (seen ++ keep_if (concerns id filter) ms) (collect_all ms c)
collect_all-HasSeen id filter limit seen c [] h =
    subst (λ (l : List Message). HasSeen id filter limit l c) (sym (append-nil seen)) h
collect_all-HasSeen id filter limit seen c (m ∷ ms) h =
    let one = keep_if (concerns id filter) (m ∷ []) in
    subst (λ (l : List Message). HasSeen id filter limit l (collect_all ms (collect m c)))
      (append_assoc seen one (keep_if (concerns id filter) ms)
        ∙ ap (λ (l : List Message). seen ++ l)
            (sym (keep_if-append (concerns id filter) (m ∷ []) ms)))
      (collect_all-HasSeen id filter limit (seen ++ one) (collect m c) ms
        (collect-HasSeen id filter limit seen c m h))

new-HasSeen :
    (id filter : Bytes) (limit : ℕ) → HasSeen id filter limit [] (new_collector id filter limit)
unfolding new_collector
new-HasSeen id filter limit = record {
  messages = take_nil limit;
  dropped = omega arith;
  same_id = refl;
  same_filter = refl;
  same_limit = refl;
}
  where
    take_nil : (n : ℕ) → [] ≡ take {A = Message} n []
    take_nil zero = refl
    take_nil (suc n) = refl

count_of-count_topics :
    (t : Bytes) (ms : List Message) (counts : List (Bytes × ℕ))
    → count_of t (count_topics ms counts)
      ≡ count_of t counts + length (keep_if (λ (m : Message). bytes_eq m.topic t) ms)
unfolding count_topics
count_of-count_topics t [] counts = omega arith
count_of-count_topics t (m ∷ ms) counts =
    let ih = count_of-count_topics t ms (insert m.topic (count_of m.topic counts + 1) counts) in
    let e = ap or_zero (lookup-insert m.topic t (count_of m.topic counts + 1) counts) in
    elim (Bool-cases (bytes_eq m.topic t)) [
      | inl y ↦
          let s = ap (λ (k : Bytes). count_of k counts) ((bytes_eq_iff m.topic t).0 y) in
          ground (arith, ih, e, y, s)
      | inr y ↦ ground (arith, ih, e, y)
    ]

-- What a window answers when it ends: it has the first messages of its connection that its filter
-- matches, as many as its limit; it tells how many more there were, and that it is truncated
-- exactly where there were more; and it counts for each topic the messages that it has of it.
pub collection-collect_all :
    (id filter : Bytes) (limit : ℕ) (ms : List Message) (t : Bytes)
    → ((collection (collect_all ms (new_collector id filter limit))).messages
        ≡ take limit (keep_if (concerns id filter) ms))
      × ((collection (collect_all ms (new_collector id filter limit))).dropped
          ≡ length (keep_if (concerns id filter) ms) - limit)
      × ((collection (collect_all ms (new_collector id filter limit))).truncated
          ≡ ltb limit (length (keep_if (concerns id filter) ms)))
      × (count_of t (collection (collect_all ms (new_collector id filter limit))).topics
          ≡ length (
              keep_if
                (λ (m : Message). bytes_eq m.topic t)
                (take limit (keep_if (concerns id filter) ms))))
unfolding collection
collection-collect_all id filter limit ms t =
    let start : HasSeen id filter limit [] (new_collector id filter limit) =
      new-HasSeen id filter limit in
    let h = collect_all-HasSeen id filter limit [] (new_collector id filter limit) ms start in
    let c = collect_all ms (new_collector id filter limit) in
    let nothing : count_of t [] ≡ 0 = unfold lookup in refl in
    let counted : count_of t (count_topics c.messages [])
        ≡ length (keep_if (λ (m : Message). bytes_eq m.topic t) c.messages) =
      let e = count_of-count_topics t c.messages [] in omega arith in
    (
      h.messages,
      h.dropped,
      ground (arith, h.dropped),
      counted
          ∙ ap (λ (l : List Message). length (keep_if (λ (m : Message). bytes_eq m.topic t) l))
              h.messages,
    )
