-- ===== src/Logbuf.antt =====
-- internal/logbuf/logbuf.go: the ring of recent log records behind the log view.
-- The handler chain (`Handle`, `WithAttrs`, `WithGroup`) belongs to log/slog; a record comes in as
-- slog renders it. A `slog.Level` is a number four above Go's, so that DEBUG is 0.
pub mod Polling
use mqttview.Common.{
  ℕ, zero, suc, ◌+◌, ◌-◌, ◌%◌, Bool, true, false, not, ◌&&◌, ◌||◌, Option, none, some, List, [],
  ◌∷◌, Bytes, codes, bytes_eq, insert, ℤ, pos, negsuc, or_default, u64_mod, length, drop, keep_if,
  leb, ltb, if◌then◌else◌,
}
use mqttview.Message.{Time}
use mqttview.Ring
use mqttview.Ring.{Ring}

abbrev pub default_size : ℕ
default_size = 1000

abbrev pub debug : ℕ
debug = 0

abbrev pub info : ℕ
info = 4

abbrev pub warn : ℕ
warn = 8

abbrev pub error : ℕ
error = 12

-- What `record` reads of a `slog.Record`: its level and its attributes rendered as text.
pub record SlogRecord : Type 0 where
  pub time : Time
  pub level : Bytes
  pub message : Bytes
  pub attrs : List (Bytes × Bytes)

pub record Record : Type 0 where
  pub time : Time
  pub level : Bytes
  pub message : Bytes
  pub attrs : List (Bytes × Bytes)
  pub seq : ℕ

abbrev pub zero_record : Record
zero_record = record { time = 0; level = []; message = []; attrs = []; seq = 0 }

-- `buf`, `pos` and `filled` of the struct are its ring.
pub record Buffer : Type 0 where
  pub ring : Ring Record
  pub seq : ℕ

unfoldable pub new_buffer : ℤ → Buffer
unfolding Ring.new
new_buffer size = record { ring = Ring.new zero_record (or_default default_size size); seq = 0 }

-- The map that `r.Attrs` fills: the last value of a key is kept.
unfoldable pub attr_map : List (Bytes × Bytes) → List (Bytes × Bytes) → List (Bytes × Bytes)
unfolding insert
attr_map m [] = m
attr_map m ((k, v) ∷ rest) = attr_map (insert k v m) rest

unfoldable pub stamp : ℕ → SlogRecord → Record
unfolding attr_map
stamp seq r = record {
  time = r.time;
  level = r.level;
  message = r.message;
  attrs = attr_map [] r.attrs;
  seq = seq;
}

unfoldable pub add_record : Buffer → SlogRecord → Buffer
unfolding stamp Ring.put
add_record b r =
    let seq = (b.seq + 1) % u64_mod in record { ring = Ring.put b.ring (stamp seq r); seq = seq }

unfoldable pub level_value : Bytes → ℕ
unfolding bytes_eq
level_value name =
    if bytes_eq name (codes "DEBUG")
    then debug
    else if bytes_eq name (codes "INFO")
    then info
    else if bytes_eq name (codes "WARN")
    then warn
    else error

-- `none` where the code reports false.
unfoldable pub parse_level : Bytes → Option ℕ
unfolding bytes_eq
parse_level name =
    if bytes_eq name [] || bytes_eq name (codes "debug") || bytes_eq name (codes "DEBUG")
    then some debug
    else if bytes_eq name (codes "info") || bytes_eq name (codes "INFO")
    then some info
    else if bytes_eq name (codes "warn")
        || bytes_eq name (codes "WARN")
        || bytes_eq name (codes "warning")
    then some warn
    else if bytes_eq name (codes "error") || bytes_eq name (codes "ERROR")
    then some error
    else none

-- What the loop of `Records` does not skip.
unfoldable pub passes : ℕ → ℕ → Record → Bool
unfolding level_value
passes min_level since r = not (leb r.seq since) && not (ltb (level_value r.level) min_level)

-- A positive limit keeps the newest of the records.
unfoldable pub newest : ℤ → List Record → List Record
newest (pos zero) out = out
newest (pos (suc n)) out = if ltb (suc n) (length out) then drop (length out - suc n) out else out
newest (negsuc _) out = out

unfoldable pub records : Buffer → ℕ → ℕ → ℤ → List Record
unfolding Ring.chronological passes newest
records b min_level since limit =
    newest limit (keep_if (passes min_level since) (Ring.chronological b.ring))
