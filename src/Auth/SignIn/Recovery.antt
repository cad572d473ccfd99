-- ===== src/Auth/SignIn/Recovery.antt =====
-- A recovery code is good for one sign-in, over the table of internal/store/twofactor.go.
use mqttview.Common.{
  ◌≡◌, Bool, false, Option, none, some, List, [], ◌∷◌, Bytes, bytes_eq, if◌then◌else◌, All,
}
use mqttview.Message.{Time}
use mqttview.Store
use mqttview.Store.{RecoveryRow, is_unused, clear_recovery_codes, replace_recovery_codes}
use mqttview.Auth.SignIn.{User, Accounts, Primitives, Checked, passed, refused, use_recovery_code}

-- The accounts over the table, where a query for a user and an update of a row may fail.
abbrev pub table_accounts : (Bytes → Option User) → (Bytes → Bool) → (Bytes → Bool) → Accounts
table_accounts users reads writes = record {
  Db = List RecoveryRow;
  get_user_by_email = λ rows email. users email;
  touch_login = λ rows id. some rows;
  recovery_code_hashes =
      λ rows user. if reads user then some (Store.recovery_code_hashes user rows) else none;
  use_recovery_code =
      λ rows id now. if writes id then Store.use_recovery_code id now rows else none;
}

module _ (users : Bytes → Option User) (reads writes : Bytes → Bool) (prims : Primitives) where
  abbrev row_accounts : Accounts
  row_accounts = table_accounts users reads writes

  -- What happens to the table: users redeem codes, and get new ones or none.
  pub data Event : Type 0 where
    redeem : User → Bytes → Time → Event
    replace : Bytes → List (Bytes × Bytes) → Event
    clear : Bytes → Event

  abbrev pub left_by : List RecoveryRow → Checked row_accounts prims → List RecoveryRow
  left_by rows (passed rows') = rows'
  left_by rows (refused e) = rows

  abbrev pub after_event : List RecoveryRow → Event → List RecoveryRow
  after_event rows (redeem u code now) =
      left_by rows (use_recovery_code row_accounts prims rows u code now)
  after_event rows (replace user fresh) = replace_recovery_codes user fresh rows
  after_event rows (clear user) = clear_recovery_codes user rows

  abbrev pub after_events : List RecoveryRow → List Event → List RecoveryRow
  after_events rows [] = rows
  after_events rows (ev ∷ evs) = after_events (after_event rows ev) evs

  -- New codes have other hashes.
  abbrev pub IsOther : Bytes → Event → Type 0
  IsOther want (replace user fresh) = All (λ x. bytes_eq x.1 want ≡ false) fresh
  IsOther want _ = Unit {0}
