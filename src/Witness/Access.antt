-- ===== src/Witness/Access.antt =====
-- The results about internal/auth at concrete inputs.
use mqttview.Common.{
  ℕ, suc, ◌+◌, ◌-◌, ◌/◌, ◌≤◌, ◌≡◌, ◌≢◌, refl, All, ◌↔◌, ◌⊎◌, true, false, Bool, not, Option, none,
  some, List, [], ◌∷◌, Bytes, codes, bytes_eq, lookup, keep_if, length, min, arith, ltb,
  if◌then◌else◌,
}
use mqttview.Strings.{trim_space}
use mqttview.Auth.Limiter.{AttemptEntry, AttemptLimiter, allow, new_attempt_limiter}
use mqttview.Auth.Limiter.Window.{Attempt, is_of, passes, passes-in_window}
use mqttview.Auth.Limiter.Unseen.{passes_first}
use mqttview.Auth.Totp.{totp_code, verify_totp, totp_period}
use mqttview.Auth.Totp.Skew.{verify_totp-near}
use mqttview.Auth.SignIn.{
  User, Accounts, Primitives, State, Outcome, signed_in, failed, too_many_attempts,
  local_login_disabled, complete_login, verify_second_factor, two_factor_enabled, passed,
  use_recovery_code, limiter_key,
}
use mqttview.Auth.SignIn.Verified.{IsKnown, signed_in-verified, attempt_counted}
use mqttview.Auth.SignIn.Recovery.{Event, redeem, replace}
use mqttview.Store
use mqttview.Store.{RecoveryRow, recovery_code_hashes}

abbrev key : Bytes
key = codes "ann|10.0.0.1"

abbrev entry : AttemptEntry
entry = record { count = 9; start = 100 }

abbrev limiter : AttemptLimiter
limiter = record { max = 10; window = 900; entries = (key, entry) ∷ [] }

entry_found : lookup key limiter.entries ≡ some entry
unfolding lookup bytes_eq
entry_found = refl

passes-in_window_example :
    passes key ((200, key) ∷ (300, codes "bob|10.0.0.2") ∷ (1000, key) ∷ []) limiter
    ≡ min
        (10 - 9)
        (length (keep_if (is_of key) ((200, key) ∷ (300, codes "bob|10.0.0.2") ∷ (1000, key) ∷ [])))
passes-in_window_example =
    passes-in_window key entry ((200, key) ∷ (300, codes "bob|10.0.0.2") ∷ (1000, key) ∷ []) limiter
      entry_found (omega arith, (omega arith, (omega arith, tt)))

nobody_seen : lookup key (new_attempt_limiter 10 900).entries ≡ none
unfolding lookup new_attempt_limiter
nobody_seen = refl

in_time :
    All
      (λ (a : Attempt). a.0 ≤ 100 + (new_attempt_limiter 10 900).window)
      ((200, key) ∷ (300, codes "bob|10.0.0.2") ∷ [])
unfolding new_attempt_limiter
in_time = (omega arith, (omega arith, tt))

passes_first_example :
    passes key
      ((100, key) ∷ (200, key) ∷ (300, codes "bob|10.0.0.2") ∷ [])
      (new_attempt_limiter 10 900)
    ≡ min
        (if ltb 0 (new_attempt_limiter 10 900).max then (new_attempt_limiter 10 900).max else 1)
        (suc (length (keep_if (is_of key) ((200, key) ∷ (300, codes "bob|10.0.0.2") ∷ []))))
passes_first_example =
    passes_first key 100 ((200, key) ∷ (300, codes "bob|10.0.0.2") ∷ [])
      (new_attempt_limiter 10 900) nobody_seen in_time

-- A digest of twenty bytes that shows the last byte of the counter.
abbrev some_hmac : Bytes → Bytes → Bytes
some_hmac _ message =
    1 ∷ 2 ∷ 3 ∷ 4 ∷ 5 ∷ 6 ∷ 7 ∷ 8 ∷ 9 ∷ 10 ∷ 11 ∷ 12 ∷ 13 ∷ 14 ∷ 15 ∷ 16 ∷ 17 ∷ 18 ∷ 19 ∷ 0 ∷ []

abbrev some_key : Bytes → Option Bytes
some_key secret = some secret

verify_totp-near_example :
    (verify_totp some_key some_hmac (codes "S") (codes "123456") 95 ≡ none) ↔ (
      (c : ℕ) × (95 / totp_period ≤ c + 1)
      × (c ≤ 95 / totp_period + 1)
      × (totp_code some_key some_hmac (codes "S") c ≡ some (trim_space (codes "123456"))))
verify_totp-near_example =
    verify_totp-near some_key some_hmac (codes "S") (codes "123456") (codes "S") 95 refl

abbrev ann : User
ann = record {
  id = codes "u1";
  email = codes "ann";
  name = codes "Ann";
  password_hash = codes "h";
  role = codes "admin";
  provider = codes "local";
  provider_subject = [];
  disabled = false;
  created_at = 0;
  last_login_at = none;
  totp_secret_enc = [];
  totp_confirmed_at = none;
}

-- The unused recovery codes of Ann, who is the only user.
abbrev other_than : Bytes → Bytes × Bytes → Bool
other_than id row = not (bytes_eq row.0 id)

abbrev one_user : Accounts
one_user = record {
  Db = List (Bytes × Bytes);
  get_user_by_email = λ db email. some ann;
  touch_login = λ db id. some db;
  recovery_code_hashes = λ db id. some db;
  use_recovery_code = λ db id now. some (keep_if (other_than id) db);
}

abbrev plain : Primitives
plain = record {
  fold_email = λ email. email;
  verify_password = λ hash password. some true;
  unseal = λ sealed. some sealed;
  decode_secret = some_key;
  hmac = some_hmac;
  hash_recovery_code = λ code. code;
}

abbrev first_state : State one_user plain
first_state = record { limiter = new_attempt_limiter 10 900; db = (codes "r1", codes "abcd") ∷ [] }

abbrev try_ann : State one_user plain × Outcome
try_ann =
    complete_login one_user plain true (codes "ann") (codes "pw") [] (codes "10.0.0.1") 100
      first_state

ann_signed_in : try_ann.1 ≡ signed_in ann
unfolding complete_login allow new_attempt_limiter lookup two_factor_enabled
ann_signed_in = refl

signed_in-verified_example :
    (true ≡ true)
    × IsKnown one_user plain (codes "ann") (codes "pw") first_state.db ann
    × ((two_factor_enabled ann ≡ false)
        ⊎ ((db' : List (Bytes × Bytes)) × (verify_second_factor one_user plain first_state.db ann []
                100
              ≡ passed db')))
signed_in-verified_example =
    signed_in-verified one_user plain true (codes "ann") (codes "pw") [] (codes "10.0.0.1") 100
      first_state ann ann_signed_in

attempt_counted_example :
    (((u : User) → try_ann.1 ≢ signed_in u)
      → try_ann.0.limiter
        ≡ (allow
            (limiter_key one_user plain (codes "ann") (codes "10.0.0.1"))
            100
            first_state.limiter).0)
    × ((allow
            (limiter_key one_user plain (codes "ann") (codes "10.0.0.1"))
            100
            first_state.limiter).1
          ≡ false
        → try_ann.1 ≡ failed too_many_attempts)
    × (complete_login one_user plain false
          (codes "ann")
          (codes "pw")
          []
          (codes "10.0.0.1")
          100
          first_state
        ≡ (first_state, failed local_login_disabled))
attempt_counted_example =
    attempt_counted one_user plain (codes "ann") (codes "pw") [] (codes "10.0.0.1") 100 first_state

abbrev codes_left : List RecoveryRow
codes_left = record { id = codes "r1"; user_id = ann.id; hash = codes "abcd"; used_at = none } ∷ []

abbrev readers : Bytes → Option User
readers email = some ann

abbrev always : Bytes → Bool
always _ = true

abbrev afterwards : List (Event readers always always plain)
afterwards = redeem ann (codes "abcd") 150 ∷ replace ann.id ((codes "r2", codes "efgh") ∷ []) ∷ []
