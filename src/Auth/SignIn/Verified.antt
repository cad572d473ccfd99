-- ===== src/Auth/SignIn/Verified.antt =====
-- Nobody is signed in without what the account asks for, and guesses are counted until then.
use mqttview.Common.{
  ◌≡◌, ◌≢◌, refl, sym, ap, ◌∙◌, subst, ◌⊎◌, inl, inr, Bool, true, false, ◌||◌, Option, none, some,
  Bytes, Bool-cases, arith,
}
use mqttview.Message.{Time}
use mqttview.Topic.{is_empty}
use mqttview.Auth.Limiter.{AttemptLimiter, allow}
use mqttview.Auth.SignIn.{
  User, Outcome, failed, two_factor_required, signed_in, AuthError, local_login_disabled,
  too_many_attempts, Accounts, Primitives, State, Checked, passed, refused, two_factor_enabled,
  verify_second_factor, limiter_key, sign_in, check_password, check_user, login, finish,
  second_step, complete_login,
}

module _ (accounts : Accounts) (prims : Primitives) where
  -- What a password sign-in has shown of the user.
  pub record IsKnown (email password : Bytes) (db : accounts.Db) (u : User) : Type 0 where
    pub found : accounts.get_user_by_email db email ≡ some u
    pub enabled : u.disabled ≡ false
    pub password_right : prims.verify_password u.password_hash password ≡ some true

  -- What `Login` means: without a sign-in the limiter is as the attempt left it.
  Means : Bytes → Bytes → accounts.Db → AttemptLimiter → State accounts prims → Outcome → Type 0
  Means email password db l s (failed e) = s.limiter ≡ l
  Means email password db l s (two_factor_required u) =
      IsKnown email password db u × (two_factor_enabled u ≡ true) × (s.db ≡ db) × (s.limiter ≡ l)
  Means email password db l s (signed_in u) =
      IsKnown email password db u × (two_factor_enabled u ≡ false)

  check_password-Means :
      (email password key : Bytes) (u : User) (o : Option Bool) (s : State accounts prims)
      → accounts.get_user_by_email s.db email ≡ some u
      → u.disabled ≡ false
      → prims.verify_password u.password_hash password ≡ o
      → Means email password s.db s.limiter
          (check_password accounts prims key u o s).0
          (check_password accounts prims key u o s).1
  unfolding check_password Means sign_in
  check_password-Means email password key u none s f d v = refl
  check_password-Means email password key u (some false) s f d v = refl
  check_password-Means email password key u (some true) s f d v =
      let known : IsKnown email password s.db u = record {
        found = f;
        enabled = d;
        password_right = v;
      } in
      elim (Bool-cases (two_factor_enabled u)) [
        | inl y ↦ rw y (known, y, refl, refl)
        | inr n ↦ rw n (known, n)
      ]

  check_user-Means :
      (email password key : Bytes) (o : Option User) (s : State accounts prims)
      → accounts.get_user_by_email s.db email ≡ o
      → Means email password s.db s.limiter
          (check_user accounts prims key password o s).0
          (check_user accounts prims key password o s).1
  unfolding check_user Means
  check_user-Means email password key none s f = refl
  check_user-Means email password key (some u) s f =
      elim (Bool-cases (u.disabled || is_empty u.password_hash)) [
        | inl y ↦ rw y refl
        | inr n ↦
            let on : u.disabled ≡ false = ground arith in
            rw n (
              check_password-Means email password key u
                (prims.verify_password u.password_hash password) s f on refl)
      ]

  login-Means :
      (email password ip : Bytes) (now : Time) (s : State accounts prims)
      → Means email password s.db
          (allow (limiter_key accounts prims email ip) now s.limiter).0
          (login accounts prims true email password ip now s).0
          (login accounts prims true email password ip now s).1
  unfolding login Means
  login-Means email password ip now s =
      let key = limiter_key accounts prims email ip in
      elim (Bool-cases (allow key now s.limiter).1) [
        | inl y ↦ rw y (
            check_user-Means email password key (accounts.get_user_by_email s.db email)
              (record s { limiter = (allow key now s.limiter).0 }) refl)
        | inr n ↦ rw n refl
      ]

  -- What `CompleteLogin` means.
  Completes :
      Bytes
      → Bytes
      → Bytes
      → Time
      → accounts.Db
      → AttemptLimiter
      → State accounts prims
      → Outcome
      → Type 0
  Completes email password code now db l s (failed e) = s.limiter ≡ l
  Completes email password code now db l s (two_factor_required u) = ⊥
  Completes email password code now db l s (signed_in u) =
      IsKnown email password db u
      × ((two_factor_enabled u ≡ false)
          ⊎ ((db' : accounts.Db) × (verify_second_factor accounts prims db u code now
                ≡ passed db')))

  finish-Completes :
      (email password code key : Bytes) (now : Time) (db : accounts.Db) (u : User)
      (c : Checked accounts prims) (s : State accounts prims)
      → IsKnown email password db u
      → verify_second_factor accounts prims db u code now ≡ c
      → Completes email password code now db s.limiter
          (finish accounts prims key u c s).0
          (finish accounts prims key u c s).1
  unfolding finish sign_in Completes
  finish-Completes email password code key now db u (refused e) s known e' = refl
  finish-Completes email password code key now db u (passed db') s known e' = (known, inr (db', e'))

  second_step-Completes :
      (email password code key : Bytes) (now : Time) (db : accounts.Db) (l : AttemptLimiter)
      (s : State accounts prims) (o : Outcome)
      → Means email password db l s o
      → Completes email password code now db l
          (second_step accounts prims key code now s o).0
          (second_step accounts prims key code now s o).1
  unfolding second_step Means Completes
  second_step-Completes email password code key now db l s (failed e) h = h
  second_step-Completes email password code key now db l s (signed_in u) h = (h.0, inl h.1)
  second_step-Completes email password code key now db l s (two_factor_required u) h =
      subst
        (λ m.
          Completes email password code now db m
            (finish accounts prims key u (verify_second_factor accounts prims s.db u code now) s).0
            (finish accounts prims key u (verify_second_factor accounts prims s.db u code now) s).1)
        h.3
        (finish-Completes email password code key now db u
          (verify_second_factor accounts prims s.db u code now) s h.0
          (ap (λ d. verify_second_factor accounts prims d u code now) (sym h.2)))

  complete_login-Completes :
      (email password code ip : Bytes) (now : Time) (s : State accounts prims)
      → Completes email password code now s.db
          (allow (limiter_key accounts prims email ip) now s.limiter).0
          (complete_login accounts prims true email password code ip now s).0
          (complete_login accounts prims true email password code ip now s).1
  unfolding complete_login
  complete_login-Completes email password code ip now s =
      second_step-Completes email password code (limiter_key accounts prims email ip) now s.db
        (allow (limiter_key accounts prims email ip) now s.limiter).0
        (login accounts prims true email password ip now s).0
        (login accounts prims true email password ip now s).1 (login-Means email password ip now s)

  signed_in-IsKnown :
      (email password code : Bytes) (now : Time) (db : accounts.Db) (l : AttemptLimiter)
      (s : State accounts prims) (u : User) (o : Outcome)
      → o ≡ signed_in u
      → Completes email password code now db l s o
      → IsKnown email password db u
        × ((two_factor_enabled u ≡ false)
            ⊎ ((db' : accounts.Db) × (verify_second_factor accounts prims db u code now
                  ≡ passed db')))
  unfolding Completes
  signed_in-IsKnown email password code now db l s u o e h =
      subst (Completes email password code now db l s) e h

  disabled_login :
      (email password code ip : Bytes) (now : Time) (s : State accounts prims)
      → complete_login accounts prims false email password code ip now s
        ≡ (s, failed local_login_disabled)
  unfolding complete_login login second_step
  disabled_login email password code ip now s = refl

  failed-ne-signed_in : (e : AuthError) (u : User) → failed e ≢ signed_in u
  failed-ne-signed_in e u h = ground arith

  -- Whoever `CompleteLogin` signs in is an account with that address that is not disabled, whose
  -- password was right, and which has no second factor or whose second factor was verified; and
  -- password sign-in is allowed.
  pub signed_in-verified :
      (allow_local : Bool) (email password code ip : Bytes) (now : Time) (s : State accounts prims)
      (u : User)
      → (complete_login accounts prims allow_local email password code ip now s).1 ≡ signed_in u
      → (allow_local ≡ true)
        × IsKnown email password s.db u
        × ((two_factor_enabled u ≡ false)
            ⊎ ((db' : accounts.Db) × (verify_second_factor accounts prims s.db u code now
                  ≡ passed db')))
  signed_in-verified false email password code ip now s u e = absurd (
      failed-ne-signed_in local_login_disabled u
        (sym (ap (λ r. r.1) (disabled_login email password code ip now s)) ∙ e))
  signed_in-verified true email password code ip now s u e =
      let r = complete_login accounts prims true email password code ip now s in
      let (known, second) =
        signed_in-IsKnown email password code now s.db
          (allow (limiter_key accounts prims email ip) now s.limiter).0 r.0 u r.1 e
          (complete_login-Completes email password code ip now s) in
      (refl, known, second)

  unsigned_limiter :
      (email password code : Bytes) (now : Time) (db : accounts.Db) (l : AttemptLimiter)
      (s : State accounts prims) (o : Outcome)
      → Completes email password code now db l s o
      → ((u : User) → o ≢ signed_in u)
      → s.limiter ≡ l
  unfolding Completes
  unsigned_limiter email password code now db l s (failed e) h n = h
  unsigned_limiter email password code now db l s (two_factor_required u) h n = absurd h
  unsigned_limiter email password code now db l s (signed_in u) h n = absurd (n u refl)

  -- Where password sign-in is allowed, one that does not succeed leaves the limiter with the attempt
  -- counted, also where the password was right and the second factor was not, and an attempt that
  -- the limiter refuses fails, whatever the password and the code are. Where password sign-in is
  -- disabled, every attempt fails, and changes neither the limiter nor the database.
  pub attempt_counted :
      (email password code ip : Bytes) (now : Time) (s : State accounts prims)
      → (((u : User)
            → (complete_login accounts prims true email password code ip now s).1 ≢ signed_in u)
          → (complete_login accounts prims true email password code ip now s).0.limiter
            ≡ (allow (limiter_key accounts prims email ip) now s.limiter).0)
        × ((allow (limiter_key accounts prims email ip) now s.limiter).1 ≡ false
            → (complete_login accounts prims true email password code ip now s).1
              ≡ failed too_many_attempts)
        × (complete_login accounts prims false email password code ip now s
            ≡ (s, failed local_login_disabled))
  unfolding complete_login login second_step
  attempt_counted email password code ip now s =
      let r = complete_login accounts prims true email password code ip now s in
      (
        unsigned_limiter email password code now s.db
            (allow (limiter_key accounts prims email ip) now s.limiter).0 r.0 r.1
            (complete_login-Completes email password code ip now s),
        λ no. rw no refl,
        disabled_login email password code ip now s,
      )
