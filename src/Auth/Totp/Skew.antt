-- ===== src/Auth/Totp/Skew.antt =====
-- Which one-time codes are accepted.
use mqttview.Common.{
  ℕ, ◌+◌, ◌-◌, ◌/◌, ◌%◌, ◌^◌, ◌≤◌, ◌<◌, ◌≡◌, refl, sym, ap, subst, ◌↔◌, ◌⊎◌, ltb→lt, inl, inr, true,
  not, Option, none, some, List, [], ◌∷◌, Bytes, bytes_eq, bytes_eq_iff, length, ltb, ◌==◌,
  if◌then◌else◌, arith, Bool-cases,
}
use native.Mathlib.Decide.{dec_lt}
use mqttview.Message.{Time}
use mqttview.Strings.{trim_space}
use mqttview.Auth.Totp.{
  TotpError, invalid_totp, bad_secret, totp_digits, totp_period, put_uint64, truncated, six_digits,
  totp_code, skewed, try_counters, verify_totp,
}

wrong_length : some invalid_totp ≡ none → ⊥
wrong_length e = ground arith

some-inj : {a b : Bytes} → some a ≡ some b → a ≡ b
some-inj e = cc

tried :
    (code : Bytes) (o : Option Bytes) (rest : Option TotpError)
    → elim o [ none ↦ some bad_secret | some want ↦ if bytes_eq want code then none else rest ]
      ≡ none
    → (o ≡ some code) ⊎ (rest ≡ none)
tried code none rest e = absurd (ground arith)
tried code (some want) rest e = elim (Bool-cases (bytes_eq want code)) [
  | inl y ↦ inl (ap some ((bytes_eq_iff want code).0 y))
  | inr n ↦ inr (ground arith)
]

six-length :
    (o : Option Bytes) (n : Bytes → ℕ) (code : Bytes)
    → elim o as (λ _. Option Bytes) [ none ↦ none | some key ↦ some (six_digits (n key)) ]
      ≡ some code
    → length code ≡ totp_digits
six-length none n code e = absurd (ground arith)
six-length (some key) n code e =
    subst (λ b. length b ≡ totp_digits) (some-inj e) (unfold six_digits in refl)

untried :
    (code w : Bytes) (o : Option Bytes) (rest : Option TotpError)
    → o ≡ some w
    → (w ≡ code) ⊎ (rest ≡ none)
    → elim o [ none ↦ some bad_secret | some want ↦ if bytes_eq want code then none else rest ]
      ≡ none
untried code w o rest e (inl same) = rw e (rw ((bytes_eq_iff w code).1 same) refl)
untried code w o rest e (inr later) = elim (Bool-cases (bytes_eq w code)) [
  | inl y ↦ rw e (rw y refl)
  | inr n ↦ rw e (rw n later)
]

module _ (decode_secret : Bytes → Option Bytes) (hmac : Bytes → Bytes → Bytes) where
  code-length :
      (secret code : Bytes) (c : ℕ)
      → totp_code decode_secret hmac secret c ≡ some code
      → length code ≡ totp_digits
  unfolding totp_code
  code-length secret code c e = six-length (decode_secret secret) _ code e

  decoded :
      (secret key : Bytes) (c : ℕ)
      → decode_secret secret ≡ some key
      → (w : Bytes) × (totp_code decode_secret hmac secret c ≡ some w)
  unfolding totp_code
  decoded secret key c d =
      (six_digits (truncated (hmac key (put_uint64 c)) % 10 ^ totp_digits), rw (d, totp_code) refl)

  -- One of the counters shows the code.
  Shows : Bytes → Bytes → List ℕ → Type 0
  Shows secret code [] = ⊥
  Shows secret code (c ∷ cs) =
      (totp_code decode_secret hmac secret c ≡ some code) ⊎ Shows secret code cs

  try_sound :
      (secret code : Bytes) (cs : List ℕ)
      → try_counters decode_secret hmac secret code cs ≡ none
      → Shows secret code cs
  unfolding try_counters Shows
  try_sound secret code [] e = absurd (ground arith)
  try_sound secret code (c ∷ cs) e =
      elim (tried code (totp_code decode_secret hmac secret c)
        (try_counters decode_secret hmac secret code cs) e) [
          | inl shown ↦ inl shown
          | inr later ↦ inr (try_sound secret code cs later)
        ]

  try_complete :
      (secret code key : Bytes) (cs : List ℕ)
      → decode_secret secret ≡ some key
      → Shows secret code cs
      → try_counters decode_secret hmac secret code cs ≡ none
  unfolding try_counters Shows
  try_complete secret code key [] d s = absurd s
  try_complete secret code key (c ∷ cs) d (inl shown) =
      untried code code (totp_code decode_secret hmac secret c)
        (try_counters decode_secret hmac secret code cs) shown (inl refl)
  try_complete secret code key (c ∷ cs) d (inr later) =
      let (w, e) = decoded secret key c d in
      untried code w (totp_code decode_secret hmac secret c)
        (try_counters decode_secret hmac secret code cs) e
        (inr (try_complete secret code key cs d later))

  AllowedShows : Bytes → Bytes → ℕ → Type 0
  AllowedShows secret code n =
      (c : ℕ) × (n ≤ c + 1) × (c ≤ n + 1) × (totp_code decode_secret hmac secret c ≡ some code)

  Shows-near :
      (secret code : Bytes) (n : ℕ) → Shows secret code (skewed n) → AllowedShows secret code n
  unfolding Shows AllowedShows
  Shows-near secret code n s = elim (Bool-cases (ltb n 1)) [
    | inl y ↦
        let few : skewed n ≡ n ∷ (n + 1) ∷ [] = (unfold skewed in rw y refl) in
        elim (subst (Shows secret code) few s) [
          | inl e ↦ (n, omega arith, omega arith, e)
          | inr (inl e) ↦ (n + 1, omega arith, omega arith, e)
          | inr (inr e) ↦ absurd e
        ]
    | inr p ↦
        let all : skewed n ≡ (n - 1) ∷ n ∷ (n + 1) ∷ [] = (unfold skewed in rw p refl) in
        let later : 1 ≤ n = ground arith in
        elim (subst (Shows secret code) all s) [
          | inl e ↦ (n - 1, omega arith, omega arith, e)
          | inr (inl e) ↦ (n, omega arith, omega arith, e)
          | inr (inr (inl e)) ↦ (n + 1, omega arith, omega arith, e)
          | inr (inr (inr e)) ↦ absurd e
        ]
  ]

  moved :
      (secret code : Bytes) (c k : ℕ)
      → c ≡ k
      → totp_code decode_secret hmac secret c ≡ some code
      → totp_code decode_secret hmac secret k ≡ some code
  moved secret code c k same e =
      subst (λ j. totp_code decode_secret hmac secret j ≡ some code) same e

  near-Shows :
      (secret code : Bytes) (n : ℕ) → AllowedShows secret code n → Shows secret code (skewed n)
  unfolding Shows AllowedShows
  near-Shows secret code n (c, after, before, e) = elim (Bool-cases (ltb n 1)) [
    | inl y ↦
        let few : skewed n ≡ n ∷ (n + 1) ∷ [] = (unfold skewed in rw y refl) in
        let first : n < 1 = ltb→lt n 1 y in
        subst (Shows secret code) (sym few) (elim (dec_lt n c) [
          | yes more ↦ inr (inl (moved secret code c _ (omega arith) e))
          | no same ↦ inl (moved secret code c _ (omega arith) e)
        ])
    | inr p ↦
        let all : skewed n ≡ (n - 1) ∷ n ∷ (n + 1) ∷ [] = (unfold skewed in rw p refl) in
        let later : 1 ≤ n = ground arith in
        subst (Shows secret code) (sym all) (elim (dec_lt n c) [
          | yes more ↦ inr (inr (inl (moved secret code c _ (omega arith) e)))
          | no most ↦ elim (dec_lt c n) [
            | yes less ↦ inl (moved secret code c _ (omega arith) e)
            | no same ↦ inr (inl (moved secret code c _ (omega arith) e))
          ]
        ])
  ]

  -- For a secret that decodes, `VerifyTOTP` accepts exactly the codes that, trimmed, the secret shows
  -- at the clock's counter or at one that is at most one step from it.
  pub verify_totp-near :
      (secret code key : Bytes) (now : Time)
      → decode_secret secret ≡ some key
      → (verify_totp decode_secret hmac secret code now ≡ none) ↔ (
          (c : ℕ) × (now / totp_period ≤ c + 1)
          × (c ≤ now / totp_period + 1)
          × (totp_code decode_secret hmac secret c ≡ some (trim_space code)))
  unfolding verify_totp AllowedShows
  verify_totp-near secret code key now d = (sound, complete)
    where
      sound :
          verify_totp decode_secret hmac secret code now ≡ none
          → AllowedShows secret (trim_space code) (now / totp_period)
      sound e = elim (Bool-cases (length (trim_space code) == totp_digits)) [
        | inl y ↦ Shows-near secret (trim_space code) (now / totp_period) (
            try_sound secret (trim_space code) (skewed (now / totp_period)) (
              subst
                (λ b.
                  (if not b
                    then some invalid_totp
                    else try_counters decode_secret hmac secret (trim_space code)
                        (skewed (now / totp_period)))
                  ≡ none)
                y e))
        | inr n ↦ absurd (
            wrong_length (
              subst
                (λ b.
                  (if not b
                    then some invalid_totp
                    else try_counters decode_secret hmac secret (trim_space code)
                        (skewed (now / totp_period)))
                  ≡ none)
                n e))
      ]

      complete :
          AllowedShows secret (trim_space code) (now / totp_period)
          → verify_totp decode_secret hmac secret code now ≡ none
      complete a =
          let six = code-length secret (trim_space code) a.0 a.3 in
          let y : (length (trim_space code) == totp_digits) ≡ true = ground arith in
          rw y (
            try_complete secret (trim_space code) key (skewed (now / totp_period)) d
              (near-Shows secret (trim_space code) (now / totp_period) a))
