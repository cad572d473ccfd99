-- ===== src/Witness/Logs.antt =====
-- The results about the log view and the edge journal at concrete inputs.
use mqttview.Common.{
  ◌+◌, ◌≡◌, Bool, true, false, none, some, [], ◌∷◌, ◌++◌, foldl, Bytes, codes, pos, or_default,
  last_n, keep_if, arith,
}
use mqttview.Logbuf
use mqttview.Logbuf.{SlogRecord, new_buffer, add_record, default_size, records}
use mqttview.Logbuf.Polling.{at_level, records-polling}
use mqttview.Logbuf.Polling as Polling
use mqttview.Plc.Journal.{
  Edge, new_journal, default_journal_size, limit_of, since, accepts, Match, rising, cancelled,
  woken, WaitRound,
}
use mqttview.Plc.Journal.Resume.{push, stamped, since-append}

abbrev line : Bytes → SlogRecord
line level = record { time = 0; level = level; message = codes "x"; attrs = [] }

records-polling_example :
    ((foldl add_record (new_buffer (pos 2)) (line (codes "INFO") ∷ [])).seq ≡ 1)
    × (records
          (foldl add_record
            (new_buffer (pos 2))
            ((line (codes "INFO") ∷ []) ++ line (codes "ERROR") ∷ line (codes "DEBUG") ∷ []))
          Logbuf.warn
          1
          (pos 0)
        ≡ keep_if (at_level Logbuf.warn) (
            last_n
              (or_default default_size (pos 2))
              (Polling.stamped 1 (line (codes "ERROR") ∷ line (codes "DEBUG") ∷ []))))
records-polling_example =
    records-polling (pos 2) Logbuf.warn (line (codes "INFO") ∷ [])
      (line (codes "ERROR") ∷ line (codes "DEBUG") ∷ []) (omega arith)

abbrev edge : Bool → Bool → Edge
edge from to = record {
  seq = 0;
  connection_id = codes "c";
  topic = codes "plc/digital/input/245";
  kind = codes "digital_input";
  address = pos 245;
  name = codes "DI-31-5";
  label = [];
  location = [];
  sensor_type = [];
  alarm_zone = false;
  from = from;
  to = to;
  at = 0;
}

since-append_example :
    since
      (foldl push (new_journal (pos 2)) ((edge false true ∷ []) ++ edge true false ∷ []))
      1
      (pos 0)
      none
    ≡ (
      last_n (limit_of (or_default default_journal_size (pos 2)) (pos 0)) (
          keep_if
            (accepts none)
            (last_n (or_default default_journal_size (pos 2)) (stamped 1 (edge true false ∷ [])))),
      1 + 1,
    )
since-append_example =
    since-append (pos 2) (pos 0) none (edge false true ∷ []) (edge true false ∷ []) (omega arith)

abbrev only_rising : Match
only_rising = some rising

-- One round that is woken by two edges before its check and one after, none of them rising.
abbrev idle_round : WaitRound
idle_round = record {
  early = edge true false ∷ edge true false ∷ [];
  late = edge true false ∷ [];
  wake = woken;
}

-- Then two rising edges come before the next check.
abbrev busy_round : WaitRound
busy_round = record { early = edge false true ∷ edge false true ∷ []; late = []; wake = cancelled }
