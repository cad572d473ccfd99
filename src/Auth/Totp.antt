-- ===== src/Auth/Totp.antt =====
-- internal/auth/totp.go: the one-time codes and their verification. Base32 and HMAC-SHA1 are
-- parameters: `decode_secret` stands for the decoding of a trimmed, upper-cased secret, with `none`
-- for its error, and `hmac` for the digest of a message under a key, which has 20 bytes.
pub mod Skew
use mqttview.Common.{
  ℕ, zero, suc, ◌+◌, ◌-◌, ◌*◌, ◌/◌, ◌%◌, ◌^◌, Bool, Option, none, some, List, [], ◌∷◌, Bytes,
  bytes_eq, length, get_or, ltb, ◌==◌, not, if◌then◌else◌, map,
}
use mqttview.Message.{Time}
use mqttview.Strings.{trim_space}

abbrev pub totp_digits : ℕ
totp_digits = 6

-- In seconds, as `now` is.
abbrev pub totp_period : ℕ
totp_period = 30

pub data TotpError : Type 0 where
  invalid_totp bad_secret : TotpError

-- `binary.BigEndian.PutUint64`
unfoldable pub put_uint64 : ℕ → Bytes
put_uint64 n = map (λ i. n / 256 ^ i % 256) (7 ∷ 6 ∷ 5 ∷ 4 ∷ 3 ∷ 2 ∷ 1 ∷ 0 ∷ [])

-- The dynamic truncation of RFC 4226; a digest of 20 bytes has every index that is read.
unfoldable pub truncated : Bytes → ℕ
truncated sum =
    let offset = get_or sum (length sum - 1) 0 % 16 in
    (get_or sum offset 0 * 2 ^ 24
      + get_or sum (offset + 1) 0 * 2 ^ 16
      + get_or sum (offset + 2) 0 * 2 ^ 8
      + get_or sum (offset + 3) 0)
    % 2 ^ 31

-- `%0*d` with six digits, of a number below a million.
unfoldable pub six_digits : ℕ → Bytes
six_digits n = map (λ i. 48 + n / 10 ^ i % 10) (5 ∷ 4 ∷ 3 ∷ 2 ∷ 1 ∷ 0 ∷ [])

-- The counters of the loop over the skew from -1 to 1.
unfoldable pub skewed : ℕ → List ℕ
skewed counter =
    if ltb counter 1
    then counter ∷ (counter + 1) ∷ []
    else (counter - 1) ∷ counter ∷ (counter + 1) ∷ []

module _ (decode_secret : Bytes → Option Bytes) (hmac : Bytes → Bytes → Bytes) where
  unfoldable pub totp_code : Bytes → ℕ → Option Bytes
  unfolding put_uint64 truncated six_digits
  totp_code secret counter = elim (decode_secret secret) [
    | none ↦ none
    | some key ↦ some (six_digits (truncated (hmac key (put_uint64 counter)) % 10 ^ totp_digits))
  ]

  unfoldable pub try_counters : Bytes → Bytes → List ℕ → Option TotpError
  unfolding totp_code
  try_counters secret code [] = some invalid_totp
  try_counters secret code (c ∷ cs) =
      let rest = try_counters secret code cs in
      elim (totp_code secret c) [
        | none ↦ some bad_secret
        | some want ↦ if bytes_eq want code then none else rest
      ]

  -- `none` is a nil error.
  unfoldable pub verify_totp : Bytes → Bytes → Time → Option TotpError
  unfolding try_counters skewed
  verify_totp secret code now =
      let code' = trim_space code in
      if not (length code' == totp_digits)
      then some invalid_totp
      else try_counters secret code' (skewed (now / totp_period))
