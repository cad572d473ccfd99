-- ===== src/Witness/Recording.antt =====
-- The results about internal/recorder at concrete inputs.
use mqttview.Common.{
  ℕ, ◌+◌, ◌<◌, ◌≡◌, refl, true, false, Option, some, List, [], ◌∷◌, ◌++◌, Bytes, codes, ℤ, pos,
  length, u64_mod, arith,
}
use mqttview.Message.{Message, zero_message}
use mqttview.Recorder.{
  Recorder, RecordedMessage, Event, configured, observed, turned, stopped, receive, flush, halt,
  run, new_recorder, running, recorded,
}
use mqttview.Recorder.Accounting.{total, wanted_messages, run-accounted}
use mqttview.Recorder.Bounds.{IsRecorder, started-IsRecorder}
use mqttview.Recorder.Shutdown.{Drained, stop-Drained}

-- A database that is the list of its rows.
abbrev Rows : Type 0
Rows = List RecordedMessage

abbrev append_rows : Rows → List RecordedMessage → Option Rows
append_rows db batch = some (db ++ batch)

abbrev prune_none : Rows → Bytes → ℤ → Option (Rows × ℕ)
prune_none db id keep = some (db, 0)

abbrev hall : Message
hall = record zero_message { connection_id = codes "c1"; topic = codes "home/hall" }

abbrev events : List Event
events =
    configured (codes "c1") true (pos 0)
    ∷ observed hall
    ∷ turned receive
    ∷ observed hall
    ∷ turned flush
    ∷ []

succeeds :
    (db : Rows) (batch : List RecordedMessage) → (db' : Rows) × (append_rows db batch ≡ some db')
succeeds db batch = (db ++ batch, refl)

appends :
    (db : Rows) (batch : List RecordedMessage)
    → (db' : Rows) × (append_rows db batch ≡ some db') × (db' ≡ db ++ batch)
appends db batch = (db ++ batch, refl, refl)

few : total (new_recorder {Db = Rows} []) + length events < u64_mod
unfolding new_recorder
few = omega arith

run-accounted_example :
    total (run append_rows prune_none (new_recorder []) events)
    ≡ total (new_recorder {Db = Rows} [])
      + wanted_messages append_rows prune_none (new_recorder []) events
run-accounted_example = run-accounted append_rows prune_none succeeds events (new_recorder []) few

started-IsRecorder_example : IsRecorder (run append_rows prune_none (new_recorder []) events)
started-IsRecorder_example = started-IsRecorder append_rows prune_none [] events

-- One message is queued and one is in the batch.
abbrev busy : Recorder Rows
busy = record {
  db = [];
  queue = recorded hall ∷ [];
  wanted = (codes "c1", pos 0) ∷ [];
  dropped = 0;
  written = 0;
  batch = recorded hall ∷ [];
  phase = running;
  stopping = false;
  cancelled = false;
}

stop-Drained_example :
    Drained append_rows prune_none
      (λ db. db)
      appends
      busy
      (run append_rows prune_none busy (stopped ∷ turned halt ∷ turned flush ∷ turned receive ∷ []))
stop-Drained_example =
    stop-Drained append_rows prune_none (λ db. db) appends (flush ∷ receive ∷ []) busy refl
      (omega arith)
