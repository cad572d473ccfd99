-- ===== src/Auth/Limiter.antt =====
-- internal/auth/service.go: `attemptLimiter`, the fixed-window limiter of sign-in attempts. The
-- clock's reading is an argument.
pub mod Window
pub mod Unseen
use mqttview.Common.{
  ℕ, ◌+◌, ◌-◌, Bool, true, not, Option, none, some, List, [], Bytes, lookup, insert, delete,
  keep_if, ltb, leb, if◌then◌else◌,
}
use mqttview.Message.{Time}

pub record AttemptEntry : Type 0 where
  pub count : ℕ
  pub start : Time

pub record AttemptLimiter : Type 0 where
  pub max : ℕ
  pub window : ℕ
  pub entries : List (Bytes × AttemptEntry)

unfoldable pub new_attempt_limiter : ℕ → ℕ → AttemptLimiter
new_attempt_limiter max window = record { max = max; window = window; entries = [] }

abbrev pub is_stale : ℕ → Time → AttemptEntry → Bool
is_stale window now e = ltb window (now - e.start)

-- The loop that drops stale entries.
unfoldable pub purge : ℕ → Time → List (Bytes × AttemptEntry) → List (Bytes × AttemptEntry)
purge window now entries = keep_if (λ x. not (is_stale window now x.1)) entries

unfoldable pub restart : Bytes → Time → AttemptLimiter → AttemptLimiter × Bool
restart key now l =
    let fresh : AttemptEntry = record { count = 1; start = now } in
    (record l { entries = insert key fresh l.entries }, true)

-- What follows the loop; the entry is shared with the map, so that counting writes it there.
unfoldable pub admit : Bytes → Time → AttemptLimiter → Option AttemptEntry → AttemptLimiter × Bool
unfolding restart
admit key now l none = restart key now l
admit key now l (some e) = if is_stale l.window now e then restart key now l else (
  record l { entries = insert key (record e { count = e.count + 1 }) l.entries },
  leb (e.count + 1) l.max,
)

unfoldable pub allow : Bytes → Time → AttemptLimiter → AttemptLimiter × Bool
unfolding purge admit
allow key now l =
    let l' = record l { entries = purge l.window now l.entries } in
    admit key now l' (lookup key l'.entries)

unfoldable pub reset : Bytes → AttemptLimiter → AttemptLimiter
reset key l = record l { entries = delete key l.entries }
