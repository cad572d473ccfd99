-- ===== src/Recorder.antt =====
-- internal/recorder/recorder.go: the message path's half, which only queues, and the goroutine that
-- writes batches. The two share the queue and the counters, so that a run is any interleaving of
-- their steps. The database is a parameter: `append_recorded` and `prune_recorded` stand for the
-- SQL of internal/store/recording.go, with `none` for an error, which leaves the rows as they are.
pub mod Accounting
pub mod Bounds
pub mod Shutdown
use mqttview.Common.{
  ℕ, ◌+◌, ◌%◌, ◌^◌, Bool, true, false, ◌&&◌, ◌||◌, Option, none, some, List, [], ◌∷◌, ◌++◌, foldl,
  Bytes, lookup, insert, delete, ℤ, u64_mod, length, take, leb, ltb, ◌==◌, if◌then◌else◌, is_some,
}
use mqttview.Message.{Message, Time}

abbrev pub queue_depth : ℕ
queue_depth = 4096

abbrev pub batch_size : ℕ
batch_size = 500

abbrev pub max_payload : ℕ
max_payload = 65536

pub record RecordedMessage : Type 0 where
  pub connection_id : Bytes
  pub topic : Bytes
  pub payload : Bytes
  pub qos : ℕ
  pub retain : Bool
  pub received_at : Time

-- What the goroutine is doing: its loop, its drain, or nothing any more.
pub data Phase : Type 0 where
  running draining done : Phase

-- What the `select` of `run` can pick: `receive` the queue, the two tickers, and `halt` the stop
-- channel or the context. While the queue is empty `receive` is not ready, which is no step.
pub data Turn : Type 0 where
  receive flush prune_due halt : Turn

-- A step of any goroutine. A second `Stop` returns at once.
pub data Event : Type 0 where
  configured : Bytes → Bool → ℤ → Event
  observed : Message → Event
  turned : Turn → Event
  stopped context_done : Event

pub record Stats : Type 0 where
  pub written : ℕ
  pub dropped : ℕ

-- The queue is the buffered channel, oldest first. `batch` is the goroutine's own slice, `stopping`
-- the closed `stop` channel and `cancelled` the ended context.
pub record Recorder (Db : Type 0) : Type 0 where
  pub db : Db
  pub queue : List RecordedMessage
  pub wanted : List (Bytes × ℤ)
  pub dropped : ℕ
  pub written : ℕ
  pub batch : List RecordedMessage
  pub phase : Phase
  pub stopping : Bool
  pub cancelled : Bool

unfoldable pub new_recorder : {Db : Type 0} → Db → Recorder Db
new_recorder db = record {
  db = db;
  queue = [];
  wanted = [];
  dropped = 0;
  written = 0;
  batch = [];
  phase = running;
  stopping = false;
  cancelled = false;
}

unfoldable pub recorded : Message → RecordedMessage
recorded m = record {
  connection_id = m.connection_id;
  topic = m.topic;
  payload = if ltb max_payload (length m.payload) then take max_payload m.payload else m.payload;
  qos = m.qos;
  retain = m.retain;
  received_at = m.received_at;
}

module _ {Db : Type 0} where
  unfoldable pub configure : Bytes → Bool → ℤ → Recorder Db → Recorder Db
  configure id record_it keep r =
      if record_it
      then record r { wanted = insert id keep r.wanted }
      else record r { wanted = delete id r.wanted }

  unfoldable pub recording : Recorder Db → Bytes → Bool
  recording r id = is_some (lookup id r.wanted)

  -- The `select` with a `default`.
  unfoldable pub enqueue : RecordedMessage → Recorder Db → Recorder Db
  enqueue rec r =
      if ltb (length r.queue) queue_depth
      then record r { queue = r.queue ++ rec ∷ [] }
      else record r { dropped = (r.dropped + 1) % u64_mod }

  unfoldable pub observe : Message → Recorder Db → Recorder Db
  unfolding recording recorded enqueue
  observe m r = if recording r m.connection_id then enqueue (recorded m) r else r

  unfoldable pub stats : Recorder Db → Stats
  stats r = record { written = r.written; dropped = r.dropped }

module _ {Db : Type 0} (append_recorded : Db → List RecordedMessage → Option Db)
    (prune_recorded : Db → Bytes → ℤ → Option (Db × ℕ)) where
  -- The closure `write` of `run`: the batch is emptied whether or not the write succeeds.
  unfoldable pub write : Recorder Db → Recorder Db
  write r = if length r.batch == 0 then r else (elim (append_recorded r.db r.batch) [
    | none ↦ record r { batch = [] }
    | some db ↦ record r { db = db; written = (r.written + length r.batch) % u64_mod; batch = [] }
  ])

  -- A message leaves the queue for the batch, which is written once it is full.
  unfoldable pub gather : RecordedMessage → List RecordedMessage → Recorder Db → Recorder Db
  unfolding write
  gather rec rest r =
      let r' = record r { queue = rest; batch = r.batch ++ rec ∷ [] } in
      if leb batch_size (length r'.batch) then write r' else r'

  unfoldable pub prune_one : Db → Bytes × ℤ → Db
  prune_one db (id, keep) = elim (prune_recorded db id keep) [ none ↦ db | some (db', _) ↦ db' ]

  unfoldable pub prune : Recorder Db → Recorder Db
  unfolding prune_one
  prune r = record r { db = foldl prune_one r.db r.wanted }

  -- One round of the loop of `drain`, which ends it where the queue is empty.
  unfoldable pub drain_round : Recorder Db → Recorder Db
  unfolding gather write
  drain_round r = elim r.queue [
    | [] ↦ record (write r) { phase = done }
    | rec ∷ rest ↦ gather rec rest r
  ]

  unfoldable pub running_round : Turn → Recorder Db → Recorder Db
  unfolding gather write prune
  running_round receive r = elim r.queue [ [] ↦ r | rec ∷ rest ↦ gather rec rest r ]
  running_round flush r = write r
  running_round prune_due r = prune r
  running_round halt r = if r.stopping || r.cancelled then record r { phase = draining } else r

  -- One round of the goroutine.
  unfoldable pub round : Turn → Recorder Db → Recorder Db
  unfolding running_round drain_round
  round t r = elim r.phase [ running ↦ running_round t r | draining ↦ drain_round r | done ↦ r ]

  unfoldable pub step : Recorder Db → Event → Recorder Db
  unfolding configure observe round
  step r (configured id record_it keep) = configure id record_it keep r
  step r (observed m) = observe m r
  step r (turned t) = round t r
  step r stopped = record r { stopping = true }
  step r context_done = record r { cancelled = true }

  unfoldable pub run : Recorder Db → List Event → Recorder Db
  unfolding step
  run r es = foldl step r es
