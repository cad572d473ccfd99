-- ===== src/Recorder/Accounting.antt =====
-- What the recorder's queue and counters say of the messages that were observed.
use mqttview.Common.{
  ℕ, ◌+◌, ◌≤◌, ◌<◌, ◌≡◌, refl, ap, ◌∙◌, inl, inr, Bool, true, false, Option, some, List, [], ◌∷◌,
  ◌++◌, u64_mod, length, length-append, leb, ltb, ◌==◌, if◌then◌else◌, arith, Bool-cases, Bytes, ℤ,
  ◌||◌,
}
use mqttview.Message.{Message}
use mqttview.Recorder.{
  Recorder, RecordedMessage, Event, configured, observed, turned, stopped, context_done, Turn,
  receive, flush, prune_due, halt, Phase, running, draining, done, recorded, recording, enqueue,
  observe, configure, write, gather, prune, running_round, drain_round, round, step, run,
  queue_depth, batch_size,
}

abbrev pub total : {Db : Type 0} → Recorder Db → ℕ
total r = length r.queue + length r.batch + r.written + r.dropped

-- The messages of a run that are observed while their connection is recorded.
unfoldable pub wanted_messages :
    {Db : Type 0} (append_recorded : Db → List RecordedMessage → Option Db)
    (prune_recorded : Db → Bytes → ℤ → Option (Db × ℕ))
    → Recorder Db
    → List Event
    → ℕ
wanted_messages a p r [] = 0
wanted_messages a p r (observed m ∷ es) =
    let rest = wanted_messages a p (step a p r (observed m)) es in
    if recording r m.connection_id then rest + 1 else rest
wanted_messages a p r (configured id on keep ∷ es) =
    wanted_messages a p (step a p r (configured id on keep)) es
wanted_messages a p r (turned t ∷ es) = wanted_messages a p (step a p r (turned t)) es
wanted_messages a p r (stopped ∷ es) = wanted_messages a p (step a p r stopped) es
wanted_messages a p r (context_done ∷ es) = wanted_messages a p (step a p r context_done) es

if_counted :
    (b : Bool) (n t w : ℕ) → n ≡ (if b then t + 1 else t) → n + w ≡ t + (if b then w + 1 else w)
if_counted b n t w e = ground arith

module _ {Db : Type 0} where
  observe-total :
      (m : Message) (r : Recorder Db)
      → total r + 1 < u64_mod
      → total (observe m r) ≡ (if recording r m.connection_id then total r + 1 else total r)
  unfolding observe enqueue
  observe-total m r few = elim (Bool-cases (recording r m.connection_id)) [
    | inl on ↦ elim (Bool-cases (ltb (length r.queue) queue_depth)) [
      | inl y ↦ rw (on, y) (omega (arith, length-append r.queue (recorded m ∷ [])))
      | inr n ↦ rw (on, n) (omega arith)
    ]
    | inr off ↦ rw off refl
  ]

  configure-total :
      (id : Bytes) (on : Bool) (keep : ℤ) (r : Recorder Db)
      → total (configure id on keep r) ≡ total r
  unfolding configure
  configure-total id true keep r = refl
  configure-total id false keep r = refl

module _ {Db : Type 0} (append_recorded : Db → List RecordedMessage → Option Db)
    (prune_recorded : Db → Bytes → ℤ → Option (Db × ℕ))
    (succeeds : (db : Db) (batch : List RecordedMessage)
      → (db' : Db) × (append_recorded db batch ≡ some db')) where
  write-total :
      (r : Recorder Db)
      → total r < u64_mod
      → total (write append_recorded prune_recorded r) ≡ total r
  unfolding write
  write-total r few =
      let (db, ok) = succeeds r.db r.batch in
      elim (Bool-cases (length r.batch == 0)) [
        | inl y ↦ rw y refl
        | inr n ↦ rw (n, ok) (omega arith)
      ]

  gather-total :
      (rec : RecordedMessage) (rest : List RecordedMessage) (r : Recorder Db)
      → r.queue ≡ rec ∷ rest
      → total r < u64_mod
      → total (gather append_recorded prune_recorded rec rest r) ≡ total r
  unfolding gather
  gather-total rec rest r e few =
      let r' = record r { queue = rest; batch = r.batch ++ rec ∷ [] } in
      let same : total r' ≡ total r =
        omega (arith, length-append r.batch (rec ∷ []), ap length e) in
      elim (Bool-cases (leb batch_size (length r'.batch))) [
        | inl y ↦ rw y (write-total r' (omega arith) ∙ same)
        | inr n ↦ rw n same
      ]

  receive-total :
      (q : List RecordedMessage) (r : Recorder Db)
      → r.queue ≡ q
      → total r < u64_mod
      → total (elim q [ [] ↦ r | rec ∷ rest ↦ gather append_recorded prune_recorded rec rest r ])
        ≡ total r
  receive-total [] r e few = refl
  receive-total (rec ∷ rest) r e few = gather-total rec rest r e few

  drain-total :
      (q : List RecordedMessage) (r : Recorder Db)
      → r.queue ≡ q
      → total r < u64_mod
      → total (elim q [
        | [] ↦ record (write append_recorded prune_recorded r) { phase = done }
        | rec ∷ rest ↦ gather append_recorded prune_recorded rec rest r
      ])
        ≡ total r
  drain-total [] r e few = write-total r few
  drain-total (rec ∷ rest) r e few = gather-total rec rest r e few

  running_round-total :
      (t : Turn) (r : Recorder Db)
      → total r < u64_mod
      → total (running_round append_recorded prune_recorded t r) ≡ total r
  unfolding running_round prune
  running_round-total receive r few = receive-total r.queue r refl few
  running_round-total flush r few = write-total r few
  running_round-total prune_due r few = refl
  running_round-total halt r few = elim (Bool-cases (r.stopping || r.cancelled)) [
    | inl y ↦ rw y refl
    | inr n ↦ rw n refl
  ]

  round-total :
      (p : Phase) (t : Turn) (r : Recorder Db)
      → total r < u64_mod
      → total (elim p [
        | running ↦ running_round append_recorded prune_recorded t r
        | draining ↦ drain_round append_recorded prune_recorded r
        | done ↦ r
      ])
        ≡ total r
  unfolding drain_round
  round-total running t r few = running_round-total t r few
  round-total draining t r few = drain-total r.queue r refl few
  round-total done t r few = refl

  -- While writes succeed and the counters do not wrap, every message that is observed while its
  -- connection is recorded is in exactly one place: in the queue, in the batch, counted as
  -- written or counted as dropped, whatever the order of the goroutines' steps.
  pub run-accounted :
      (es : List Event) (r : Recorder Db)
      → total r + length es < u64_mod
      → total (run append_recorded prune_recorded r es)
        ≡ total r + wanted_messages append_recorded prune_recorded r es
  unfolding run wanted_messages step
  run-accounted [] r few = omega arith
  run-accounted (configured id on keep ∷ es) r few =
      let same = configure-total id on keep r in
      run-accounted es (configure id on keep r) (omega arith) ∙ omega arith
  run-accounted (observed m ∷ es) r few =
      let up = observe-total m r (omega arith) in
      let grown : total (observe m r) ≤ total r + 1 = ground arith in
      run-accounted es (observe m r) (omega arith)
      ∙ if_counted (recording r m.connection_id) (total (observe m r)) (total r)
          (wanted_messages append_recorded prune_recorded (observe m r) es) up
  run-accounted (turned t ∷ es) r few =
      let same : total (round append_recorded prune_recorded t r) ≡ total r =
        (unfold round in round-total r.phase t r (omega arith)) in
      run-accounted es (round append_recorded prune_recorded t r) (omega arith) ∙ omega arith
  run-accounted (stopped ∷ es) r few = run-accounted es (record r { stopping = true }) (omega arith)
  run-accounted (context_done ∷ es) r few =
      run-accounted es (record r { cancelled = true }) (omega arith)
