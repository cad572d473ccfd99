-- ===== src/Recorder/Shutdown.antt =====
-- What a shutdown of the recorder leaves behind.
use mqttview.Common.{
  ℕ, suc, ◌≡◌, refl, sym, ap, ap₂, ◌∙◌, inl, inr, true, Option, some, List, [], ◌∷◌, ◌++◌,
  append-nil, append_assoc, length, leb, ◌==◌, arith, Bool-cases, Bytes, ℤ, map, subst,
}
use mqttview.Recorder.{
  Recorder, RecordedMessage, turned, stopped, Turn, halt, running, draining, done, write, gather,
  running_round, drain_round, round, step, run, batch_size,
}

-- A batch that was left in the goroutine's slice is not written before the queue is empty.
module _ {Db : Type 0} (append_recorded : Db → List RecordedMessage → Option Db)
    (prune_recorded : Db → Bytes → ℤ → Option (Db × ℕ)) (rows : Db → List RecordedMessage)
    (appends : (db : Db) (batch : List RecordedMessage)
      → (db' : Db) × (append_recorded db batch ≡ some db') × (rows db' ≡ rows db ++ batch)) where
  -- The rows in the database and those that wait, in the order in which they were queued.
  abbrev stored : Recorder Db → List RecordedMessage
  stored r = rows r.db ++ (r.batch ++ r.queue)

  -- What `write` does to the rows and the rest.
  record Writes (r r' : Recorder Db) : Type 0 where
    kept : rows r'.db ≡ rows r.db ++ r.batch
    emptied : r'.batch ≡ []
    queue : r'.queue ≡ r.queue
    phase : r'.phase ≡ r.phase

  length-zero : (l : List RecordedMessage) → (length l == 0) ≡ true → l ≡ []
  length-zero [] h = refl
  length-zero (x ∷ l) h = ground arith

  write-Writes : (r : Recorder Db) → Writes r (write append_recorded prune_recorded r)
  unfolding write
  write-Writes r =
      let (db, ok, more) = appends r.db r.batch in
      elim (Bool-cases (length r.batch == 0)) [
        | inl y ↦
            let e = length-zero r.batch y in
            rw y (record {
              kept = sym (append-nil (rows r.db)) ∙ ap (◌++◌ (rows r.db)) (sym e);
              emptied = e;
              queue = refl;
              phase = refl;
            })
        | inr n ↦ rw (n, ok) (record { kept = more; emptied = refl; queue = refl; phase = refl })
      ]

  record Gathers (rest : List RecordedMessage) (r r' : Recorder Db) : Type 0 where
    kept : stored r' ≡ stored r
    queue : r'.queue ≡ rest
    phase : r'.phase ≡ r.phase

  gather-Gathers :
      (rec : RecordedMessage) (rest : List RecordedMessage) (r : Recorder Db)
      → r.queue ≡ rec ∷ rest
      → Gathers rest r (gather append_recorded prune_recorded rec rest r)
  unfolding gather
  gather-Gathers rec rest r e =
      let r' = record r { queue = rest; batch = r.batch ++ rec ∷ [] } in
      let w = write-Writes r' in
      let moved : stored r' ≡ stored r =
        ap (◌++◌ (rows r.db)) (append_assoc r.batch (rec ∷ []) rest ∙ ap (◌++◌ r.batch) (sym e)) in
      elim (Bool-cases (leb batch_size (length r'.batch))) [
        | inl y ↦ rw y (record {
          kept =
              ap₂ ◌++◌ w.kept (ap₂ ◌++◌ w.emptied w.queue)
              ∙ append_assoc (rows r.db) r'.batch rest
              ∙ moved;
          queue = w.queue;
          phase = w.phase;
        })
        | inr n ↦ rw n (record { kept = moved; queue = refl; phase = refl })
      ]

  round-draining :
      (t : Turn) (r : Recorder Db)
      → r.phase ≡ draining
      → round append_recorded prune_recorded t r ≡ drain_round append_recorded prune_recorded r
  unfolding round
  round-draining t r e =
      ap
        (λ p. elim p as (λ _. Recorder Db) [
          | running ↦ running_round append_recorded prune_recorded t r
          | draining ↦ drain_round append_recorded prune_recorded r
          | done ↦ r
        ])
        e

  drain_round-queue :
      (q : List RecordedMessage) (r : Recorder Db)
      → r.queue ≡ q
      → drain_round append_recorded prune_recorded r ≡ elim q as (λ _. Recorder Db) [
        | [] ↦ record (write append_recorded prune_recorded r) { phase = done }
        | rec ∷ rest ↦ gather append_recorded prune_recorded rec rest r
      ]
  unfolding drain_round
  drain_round-queue q r e =
      ap
        (λ l. elim l as (λ _. Recorder Db) [
          | [] ↦ record (write append_recorded prune_recorded r) { phase = done }
          | rec ∷ rest ↦ gather append_recorded prune_recorded rec rest r
        ])
        e

  -- Rounds of the goroutine, whatever its `select` would pick, with the other goroutines at rest.
  abbrev rounds : List Turn → Recorder Db → Recorder Db
  rounds ts r = run append_recorded prune_recorded r (map turned ts)

  pub record Drained (before after : Recorder Db) : Type 0 where
    kept : rows after.db ≡ rows before.db ++ (before.batch ++ before.queue)
    queue : after.queue ≡ []
    batch : after.batch ≡ []
    phase : after.phase ≡ done

  drain_ends :
      (r : Recorder Db)
      → r.queue ≡ []
      → Drained r (record (write append_recorded prune_recorded r) { phase = done })
  drain_ends r e =
      let w = write-Writes r in
      record {
        kept =
            w.kept ∙ ap (◌++◌ (rows r.db)) (sym (append-nil r.batch) ∙ ap (◌++◌ r.batch) (sym e));
        queue = w.queue ∙ e;
        batch = w.emptied;
        phase = refl;
      }

  drain-Drained :
      (q : List RecordedMessage) (t : Turn) (ts : List Turn) (r : Recorder Db)
      → r.phase ≡ draining
      → r.queue ≡ q
      → length ts ≡ length q
      → Drained r (rounds (t ∷ ts) r)
  unfolding run step
  drain-Drained [] t [] r p e n =
      subst (Drained r) (sym (round-draining t r p ∙ drain_round-queue [] r e)) (drain_ends r e)
  drain-Drained [] t (t' ∷ ts) r p e n = absurd (omega arith)
  drain-Drained (rec ∷ rest) t [] r p e n = absurd (omega arith)
  drain-Drained (rec ∷ rest) t (t' ∷ ts) r p e n =
      let g = gather-Gathers rec rest r e in
      let r' = gather append_recorded prune_recorded rec rest r in
      let d = drain-Drained rest t' ts r' (g.phase ∙ p) g.queue (omega arith) in
      subst (λ x. Drained r (rounds (t' ∷ ts) x))
        (sym (round-draining t r p ∙ drain_round-queue (rec ∷ rest) r e))
        (record { kept = d.kept ∙ g.kept; queue = d.queue; batch = d.batch; phase = d.phase })

  -- A clean shutdown loses nothing. After `Stop`, once the running goroutine's `select` has picked
  -- the stop channel, as many rounds as there are queued messages and one more end the goroutine,
  -- if writes succeed and no message arrives meanwhile; the batch and the queue are then empty,
  -- and the rows hold their messages, in order, behind what they held.
  pub stop-Drained :
      (ts : List Turn) (r : Recorder Db)
      → r.phase ≡ running
      → length ts ≡ suc (length r.queue)
      → Drained r (run append_recorded prune_recorded r (stopped ∷ turned halt ∷ map turned ts))
  unfolding run step round running_round
  stop-Drained [] r p n = absurd (omega arith)
  stop-Drained (t ∷ ts) r p n =
      let d =
        drain-Drained r.queue t ts (record r { stopping = true; phase = draining }) refl refl
          (omega arith) in
      rw p (record { kept = d.kept; queue = d.queue; batch = d.batch; phase = d.phase })
