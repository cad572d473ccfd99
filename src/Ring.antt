-- ===== src/Ring.antt =====
-- The ring that internal/mqttc/history.go, internal/mqttc/topiclog.go and
-- internal/logbuf/logbuf.go each write out over their own element type: a buffer of fixed size,
-- the index that is written next, and whether every slot has been written.
pub mod Bounds
pub mod Recent
pub mod Oldest
use mqttview.Common.{
  ℕ, ◌+◌, ◌%◌, Bool, true, false, List, ◌++◌, length, set, take, drop, replicate, ◌==◌,
  if◌then◌else◌,
}

pub record Ring {ℓ} (A : Type ℓ) : Type ℓ where
  pub buf : List A
  pub next : ℕ
  pub filled : Bool

module _ {ℓ} {A : Type ℓ} where
  -- `make([]T, size)` holds zero values.
  unfoldable pub new : A → ℕ → Ring A
  new zero_value size = record { buf = replicate size zero_value; next = 0; filled = false }

  -- The element is written at the position, which moves on by one and wraps around.
  unfoldable pub put : Ring A → A → Ring A
  put r x =
      let n = (r.next + 1) % length r.buf in
      record { buf = set r.buf r.next x; next = n; filled = if n == 0 then true else r.filled }

  -- The contents, oldest first.
  unfoldable pub chronological : Ring A → List A
  chronological r = if r.filled then drop r.next r.buf ++ take r.next r.buf else take r.next r.buf
