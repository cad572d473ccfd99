-- ===== src/Auth/SignIn.antt =====
-- internal/auth/service.go and twofactor.go: password sign-in, the second factor and recovery
-- codes, with the user record of internal/store/users.go. The SQL of internal/store is the
-- interface `Accounts`, with `none` for an error; the password hash, the sealed box, base32, HMAC
-- and the hash of a recovery code are parameters, as is `fold_email`, the lower case of the trimmed
-- address. The clock's reading, in nanoseconds, is an argument.
pub mod Verified
pub mod Recovery
use mqttview.Common.{
  ℕ, ◌+◌, ◌/◌, ◌^◌, ◌==◌, leb, ltb, Bool, true, false, not, ◌&&◌, ◌||◌, Option, none, some, List,
  [], ◌∷◌, ◌++◌, Bytes, codes, bytes_eq, length, if◌then◌else◌,
}
use mqttview.Message.{Time}
use mqttview.Strings.{trim_space}
use mqttview.Topic.{is_empty}
use mqttview.Auth.Limiter.{AttemptLimiter, allow, reset}
use mqttview.Auth.Totp.{TotpError, totp_digits, verify_totp}

pub record User : Type 0 where
  pub id : Bytes
  pub email : Bytes
  pub name : Bytes
  pub password_hash : Bytes
  pub role : Bytes
  pub provider : Bytes
  pub provider_subject : Bytes
  pub disabled : Bool
  pub created_at : Time
  pub last_login_at : Option Time
  pub totp_secret_enc : Bytes
  pub totp_confirmed_at : Option Time

abbrev pub is_set : Option Time → Bool
is_set none = false
is_set (some _) = true

unfoldable pub two_factor_enabled : User → Bool
two_factor_enabled u = not (is_empty u.totp_secret_enc) && is_set u.totp_confirmed_at

-- `rank` of `AtLeast`, which is 0 for a text that is no role.
abbrev pub rank : Bytes → ℕ
rank r =
    if bytes_eq r (codes "viewer")
    then 1
    else if bytes_eq r (codes "operator")
    then 2
    else if bytes_eq r (codes "admin")
    then 3
    else 0

unfoldable pub at_least : Bytes → Bytes → Bool
at_least r want = leb (rank want) (rank r)

pub data AuthError : Type 0 where
  local_login_disabled too_many_attempts invalid_credentials : AuthError
  two_factor_not_pending recovery_code_invalid unsealing store_failed : AuthError
  totp : TotpError → AuthError

-- What `Login` returns: an error, the user with `ErrTwoFactorRequired`, or the user.
pub data Outcome : Type 0 where
  failed : AuthError → Outcome
  two_factor_required signed_in : User → Outcome

-- What the sign-in uses of the database.
pub record Accounts : Type 1 where
  pub Db : Type 0
  pub get_user_by_email : Db → Bytes → Option User
  pub touch_login : Db → Bytes → Option Db
  pub recovery_code_hashes : Db → Bytes → Option (List (Bytes × Bytes))
  pub use_recovery_code : Db → Bytes → Time → Option Db

pub record Primitives : Type 0 where
  pub fold_email : Bytes → Bytes
  pub verify_password : Bytes → Bytes → Option Bool
  pub unseal : Bytes → Option Bytes
  pub decode_secret : Bytes → Option Bytes
  pub hmac : Bytes → Bytes → Bytes
  pub hash_recovery_code : Bytes → Bytes

-- A byte that is no digit belongs to a rune that is none.
unfoldable pub all_digits : Bytes → Bool
all_digits [] = true
all_digits (b ∷ s) = not (ltb b 48 || ltb 57 b) && all_digits s

unfoldable pub is_all_digits : Bytes → Bool
unfolding all_digits
is_all_digits s = all_digits s && not (is_empty s)

-- The loop over the hashes, which keeps the last that matches.
unfoldable pub matched : Bytes → List (Bytes × Bytes) → Bytes → Bytes
matched want [] found = found
matched want ((id, h) ∷ hashes) found = matched want hashes (if bytes_eq h want then id else found)

module _ (accounts : Accounts) (prims : Primitives) where
  pub record State : Type 0 where
    pub limiter : AttemptLimiter
    pub db : accounts.Db

  -- The database's change and a nil error, or the error.
  pub data Checked : Type 0 where
    passed : accounts.Db → Checked
    refused : AuthError → Checked

  unfoldable pub spend_code : accounts.Db → Bytes → Time → Checked
  spend_code db id now =
      if is_empty id
      then refused recovery_code_invalid
      else (elim (accounts.use_recovery_code db id now) [
        | none ↦ refused recovery_code_invalid
        | some db' ↦ passed db'
      ])

  unfoldable pub use_recovery_code : accounts.Db → User → Bytes → Time → Checked
  unfolding matched spend_code
  use_recovery_code db u code now = elim (accounts.recovery_code_hashes db u.id) [
    | none ↦ refused store_failed
    | some hashes ↦ spend_code db (matched (prims.hash_recovery_code code) hashes []) now
  ]

  unfoldable pub check_totp : accounts.Db → Option TotpError → Checked
  check_totp db none = passed db
  check_totp db (some e) = refused (totp e)

  unfoldable pub check_sealed : accounts.Db → Bytes → Time → Option Bytes → Checked
  unfolding check_totp
  check_sealed db code now none = refused unsealing
  check_sealed db code now (some secret) =
      check_totp db (verify_totp prims.decode_secret prims.hmac secret code (now / 10 ^ 9))

  unfoldable pub verify_second_factor : accounts.Db → User → Bytes → Time → Checked
  unfolding use_recovery_code check_sealed
  verify_second_factor db u code now =
      let code' = trim_space code in
      if not (two_factor_enabled u)
      then refused two_factor_not_pending
      else if length code' == totp_digits && is_all_digits code'
      then check_sealed db code' now (prims.unseal u.totp_secret_enc)
      else use_recovery_code db u code' now

  unfoldable pub limiter_key : Bytes → Bytes → Bytes
  limiter_key email ip = prims.fold_email email ++ codes "|" ++ ip

  -- `reset` and `TouchLogin`, whose error is logged.
  unfoldable pub sign_in : Bytes → User → State → State × Outcome
  sign_in key u s = (
    record {
      limiter = reset key s.limiter;
      db = elim (accounts.touch_login s.db u.id) [ none ↦ s.db | some db ↦ db ];
    },
    signed_in u,
  )

  unfoldable pub check_password : Bytes → User → Option Bool → State → State × Outcome
  unfolding sign_in
  check_password key u none s = (s, failed invalid_credentials)
  check_password key u (some false) s = (s, failed invalid_credentials)
  check_password key u (some true) s =
      if two_factor_enabled u then (s, two_factor_required u) else sign_in key u s

  unfoldable pub check_user : Bytes → Bytes → Option User → State → State × Outcome
  unfolding check_password
  check_user key password none s = (s, failed invalid_credentials)
  check_user key password (some u) s =
      if u.disabled || is_empty u.password_hash
      then (s, failed invalid_credentials)
      else check_password key u (prims.verify_password u.password_hash password) s

  unfoldable pub login : Bool → Bytes → Bytes → Bytes → Time → State → State × Outcome
  unfolding check_user limiter_key
  login allow_local email password ip now s =
      if not allow_local
      then (s, failed local_login_disabled)
      else (let key = limiter_key email ip in
          let (limiter, ok) = allow key now s.limiter in
          let s' = record s { limiter = limiter } in
          if not ok
          then (s', failed too_many_attempts)
          else check_user key password (accounts.get_user_by_email s.db email) s')

  unfoldable pub finish : Bytes → User → Checked → State → State × Outcome
  unfolding sign_in
  finish key u (refused e) s = (s, failed e)
  finish key u (passed db) s = sign_in key u (record s { db = db })

  unfoldable pub second_step : Bytes → Bytes → Time → State → Outcome → State × Outcome
  unfolding finish verify_second_factor
  second_step key code now s (failed e) = (s, failed e)
  second_step key code now s (signed_in u) = (s, signed_in u)
  second_step key code now s (two_factor_required u) =
      finish key u (verify_second_factor s.db u code now) s

  unfoldable pub complete_login :
      Bool → Bytes → Bytes → Bytes → Bytes → Time → State → State × Outcome
  unfolding login second_step limiter_key
  complete_login allow_local email password code ip now s =
      let (s', first) = login allow_local email password ip now s in
      second_step (limiter_key email ip) code now s' first
