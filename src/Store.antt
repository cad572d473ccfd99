-- ===== src/Store.antt =====
-- internal/store/twofactor.go: the table of recovery codes, as its SQL statements read and write it.
-- The id of a row is its primary key.
pub mod Unused
use mqttview.Common.{
  ℕ, Bool, true, false, not, ◌&&◌, ◌||◌, Option, none, some, List, [], ◌∷◌, ◌++◌, map, Bytes,
  bytes_eq, length, keep_if, if◌then◌else◌,
}
use mqttview.Message.{Time}

pub record RecoveryRow : Type 0 where
  pub id : Bytes
  pub user_id : Bytes
  pub hash : Bytes
  pub used_at : Option Time

abbrev pub is_unused : RecoveryRow → Bool
is_unused r = elim r.used_at [ none ↦ true | some _ ↦ false ]

-- `WHERE user_id = ? AND used_at IS NULL`
unfoldable pub is_open : Bytes → RecoveryRow → Bool
is_open user r = bytes_eq r.user_id user && is_unused r

unfoldable pub recovery_code_hashes : Bytes → List RecoveryRow → List (Bytes × Bytes)
unfolding is_open
recovery_code_hashes user [] = []
recovery_code_hashes user (r ∷ rows) =
    let rest = recovery_code_hashes user rows in
    if is_open user r then (r.id, r.hash) ∷ rest else rest

-- The `UPDATE` of one code, and whether it affects a row.
unfoldable pub mark_used : Bytes → Time → List RecoveryRow → List RecoveryRow
mark_used id at [] = []
mark_used id at (r ∷ rows) =
    (if bytes_eq r.id id && is_unused r then record r { used_at = some at } else r)
    ∷ mark_used id at rows

unfoldable pub marks_any : Bytes → List RecoveryRow → Bool
marks_any id [] = false
marks_any id (r ∷ rows) = (bytes_eq r.id id && is_unused r) || marks_any id rows

-- `none` is the error of `affected` where no row was changed.
unfoldable pub use_recovery_code : Bytes → Time → List RecoveryRow → Option (List RecoveryRow)
unfolding mark_used marks_any
use_recovery_code id at rows = if marks_any id rows then some (mark_used id at rows) else none

-- `DELETE FROM recovery_codes WHERE user_id = ?`
unfoldable pub clear_recovery_codes : Bytes → List RecoveryRow → List RecoveryRow
clear_recovery_codes user rows = keep_if (λ r. not (bytes_eq r.user_id user)) rows

-- The new rows, with the identifiers that they are given.
unfoldable pub new_rows : Bytes → List (Bytes × Bytes) → List RecoveryRow
new_rows user [] = []
new_rows user ((id, hash) ∷ codes) =
    record { id = id; user_id = user; hash = hash; used_at = none } ∷ new_rows user codes

unfoldable pub replace_recovery_codes :
    Bytes → List (Bytes × Bytes) → List RecoveryRow → List RecoveryRow
unfolding clear_recovery_codes new_rows
replace_recovery_codes user codes rows = clear_recovery_codes user rows ++ new_rows user codes

unfoldable pub count_unused_recovery_codes : Bytes → List RecoveryRow → ℕ
unfolding is_open
count_unused_recovery_codes user rows = length (keep_if (is_open user) rows)
