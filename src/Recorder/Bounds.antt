-- ===== src/Recorder/Bounds.antt =====
-- The recorder's memory stays in bounds.
use mqttview.Common.{
  ℕ, ◌≤◌, ◌<◌, ◌≡◌, refl, sym, ap, subst, if_both, inl, inr, true, false, Option, List, [], ◌∷◌,
  ◌++◌, length, length-append, length-take, leb, ltb, ◌==◌, All, arith, Bool-cases, Option-cases,
  Bytes, ℤ, ◌||◌, ltb→lt,
}
use mqttview.Message.{Message}
use mqttview.Recorder.{
  Recorder, RecordedMessage, Event, configured, observed, turned, stopped, context_done, Turn,
  receive, flush, prune_due, halt, Phase, running, draining, done, recorded, recording, enqueue,
  observe, configure, write, gather, running_round, drain_round, round, step, run, queue_depth,
  batch_size, max_payload, new_recorder, prune,
}

abbrev pub IsSmall : RecordedMessage → Type 0
IsSmall rec = length rec.payload ≤ max_payload

-- The queue holds at most 4096 messages, the batch fewer than 500, and each payload at most 64 KiB.
pub record IsRecorder {Db : Type 0} (r : Recorder Db) : Type 0 where
  pub queue : length r.queue ≤ queue_depth
  pub queued : All IsSmall r.queue
  pub batch : length r.batch < batch_size
  pub gathered : All IsSmall r.batch

All-append :
    (xs ys : List RecordedMessage) → All IsSmall xs → All IsSmall ys → All IsSmall (xs ++ ys)
All-append [] ys h k = k
All-append (x ∷ xs) ys h k = (h.0, All-append xs ys h.1 k)

All-empty : (xs : List RecordedMessage) → length xs ≡ 0 → All IsSmall xs
All-empty [] h = tt
All-empty (x ∷ xs) h = absurd (omega arith)

recorded-IsSmall : (m : Message) → IsSmall (recorded m)
unfolding recorded
recorded-IsSmall m = elim (Bool-cases (ltb max_payload (length m.payload))) [
  | inl y ↦ rw y (omega (arith, length-take max_payload m.payload))
  | inr n ↦ rw n (ground arith)
]

module _ {Db : Type 0} where
  observe-IsRecorder : (m : Message) (r : Recorder Db) → IsRecorder r → IsRecorder (observe m r)
  unfolding observe enqueue
  observe-IsRecorder m r i = elim (Bool-cases (recording r m.connection_id)) [
    | inl on ↦ elim (Bool-cases (ltb (length r.queue) queue_depth)) [
      | inl y ↦
          let small = recorded-IsSmall m in
          let room = ltb→lt (length r.queue) queue_depth y in
          rw (on, y)
            (record {
              queue = omega (arith, length-append r.queue (recorded m ∷ []));
              queued = All-append r.queue (recorded m ∷ []) i.queued (small, tt);
              batch = i.batch;
              gathered = i.gathered;
            })
      | inr n ↦
          rw (on, n)
            (record { queue = i.queue; queued = i.queued; batch = i.batch; gathered = i.gathered })
    ]
    | inr off ↦ rw off i
  ]

module _ {Db : Type 0} (append_recorded : Db → List RecordedMessage → Option Db)
    (prune_recorded : Db → Bytes → ℤ → Option (Db × ℕ)) where
  -- A batch that is written is left empty, whether or not it succeeds.
  write_empties :
      (r : Recorder Db)
      → length r.queue ≤ queue_depth
      → All IsSmall r.queue
      → IsRecorder (write append_recorded prune_recorded r)
  unfolding write
  write_empties r few small = elim (Bool-cases (length r.batch == 0)) [
    | inl y ↦
        let short : length r.batch ≡ 0 = ground arith in
        rw y (record {
          queue = few;
          queued = small;
          batch = omega (arith, short);
          gathered = All-empty r.batch short;
        })
    | inr n ↦ elim (Option-cases (append_recorded r.db r.batch)) [
      | inl e ↦
          rw (n, e) (record { queue = few; queued = small; batch = omega arith; gathered = tt })
      | inr (db, e) ↦
          rw (n, e) (record { queue = few; queued = small; batch = omega arith; gathered = tt })
    ]
  ]

  gather-IsRecorder :
      (rec : RecordedMessage) (rest : List RecordedMessage) (r : Recorder Db)
      → r.queue ≡ rec ∷ rest
      → IsRecorder r
      → IsRecorder (gather append_recorded prune_recorded rec rest r)
  unfolding gather
  gather-IsRecorder rec rest r e i =
      let r' = record r { queue = rest; batch = r.batch ++ rec ∷ [] } in
      let small = subst (All IsSmall) e i.queued in
      let few : length rest ≤ queue_depth = omega (arith, i.queue, ap length e) in
      elim (Bool-cases (leb batch_size (length r'.batch))) [
        | inl y ↦ rw y (write_empties r' few small.1)
        | inr n ↦ rw n (record {
          queue = few;
          queued = small.1;
          batch = ground arith;
          gathered = All-append r.batch (rec ∷ []) i.gathered (small.0, tt);
        })
      ]

  receive-IsRecorder :
      (q : List RecordedMessage) (r : Recorder Db)
      → r.queue ≡ q
      → IsRecorder r
      → IsRecorder
          (elim q [ [] ↦ r | rec ∷ rest ↦ gather append_recorded prune_recorded rec rest r ])
  receive-IsRecorder [] r e i = i
  receive-IsRecorder (rec ∷ rest) r e i = gather-IsRecorder rec rest r e i

  same-IsRecorder :
      (r r' : Recorder Db) → r'.queue ≡ r.queue → r'.batch ≡ r.batch → IsRecorder r → IsRecorder r'
  same-IsRecorder r r' q b i = record {
    queue = subst (λ l. length l ≤ queue_depth) (sym q) i.queue;
    queued = subst (All IsSmall) (sym q) i.queued;
    batch = subst (λ l. length l < batch_size) (sym b) i.batch;
    gathered = subst (All IsSmall) (sym b) i.gathered;
  }

  drain-IsRecorder :
      (q : List RecordedMessage) (r : Recorder Db)
      → r.queue ≡ q
      → IsRecorder r
      → IsRecorder (elim q [
        | [] ↦ record (write append_recorded prune_recorded r) { phase = done }
        | rec ∷ rest ↦ gather append_recorded prune_recorded rec rest r
      ])
  drain-IsRecorder [] r e i =
      same-IsRecorder (write append_recorded prune_recorded r) _ refl refl
        (write_empties r i.queue i.queued)
  drain-IsRecorder (rec ∷ rest) r e i = gather-IsRecorder rec rest r e i

  running_round-IsRecorder :
      (t : Turn) (r : Recorder Db)
      → IsRecorder r
      → IsRecorder (running_round append_recorded prune_recorded t r)
  unfolding running_round prune
  running_round-IsRecorder receive r i = receive-IsRecorder r.queue r refl i
  running_round-IsRecorder flush r i = write_empties r i.queue i.queued
  running_round-IsRecorder prune_due r i = same-IsRecorder r _ refl refl i
  running_round-IsRecorder halt r i =
      if_both (λ (x : Recorder Db). IsRecorder x) (r.stopping || r.cancelled)
        (same-IsRecorder r (record r { phase = draining }) refl refl i) i

  round-IsRecorder :
      (p : Phase) (t : Turn) (r : Recorder Db)
      → IsRecorder r
      → IsRecorder (elim p [
        | running ↦ running_round append_recorded prune_recorded t r
        | draining ↦ drain_round append_recorded prune_recorded r
        | done ↦ r
      ])
  unfolding drain_round
  round-IsRecorder running t r i = running_round-IsRecorder t r i
  round-IsRecorder draining t r i = drain-IsRecorder r.queue r refl i
  round-IsRecorder done t r i = i

  step-IsRecorder :
      (e : Event) (r : Recorder Db)
      → IsRecorder r
      → IsRecorder (step append_recorded prune_recorded r e)
  unfolding step round configure
  step-IsRecorder (configured id true keep) r i = same-IsRecorder r _ refl refl i
  step-IsRecorder (configured id false keep) r i = same-IsRecorder r _ refl refl i
  step-IsRecorder (observed m) r i = observe-IsRecorder m r i
  step-IsRecorder (turned t) r i = round-IsRecorder r.phase t r i
  step-IsRecorder stopped r i = same-IsRecorder r _ refl refl i
  step-IsRecorder context_done r i = same-IsRecorder r _ refl refl i

  run-IsRecorder :
      (es : List Event) (r : Recorder Db)
      → IsRecorder r
      → IsRecorder (run append_recorded prune_recorded r es)
  unfolding run
  run-IsRecorder [] r i = i
  run-IsRecorder (e ∷ es) r i =
      run-IsRecorder es (step append_recorded prune_recorded r e) (step-IsRecorder e r i)

  -- In any interleaving of the recorder's steps, whether writes succeed or fail, its queue holds at
  -- most 4096 messages, its batch fewer than 500, and no payload is longer than 64 KiB.
  pub started-IsRecorder :
      (db : Db) (es : List Event)
      → IsRecorder (run append_recorded prune_recorded (new_recorder db) es)
  unfolding new_recorder
  started-IsRecorder db es =
      run-IsRecorder es (new_recorder db)
        (record { queue = omega arith; queued = tt; batch = omega arith; gathered = tt })
