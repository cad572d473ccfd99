-- ===== src/Auth/Limiter/Unseen.antt =====
-- How many attempts the limiter lets through for a key that it has not seen.
use mqttview.Common.{
  suc, ◌+◌, ◌-◌, ◌≤◌, ◌≡◌, refl, sym, ap, ◌∙◌, subst, inl, inr, Bool, true, not, none, some, List,
  [], ◌∷◌, Bytes, bytes_eq, bytes_eq_refl, lookup, lookup-insert, keep_if, length, if_inv, All,
  arith, Bool-cases, min, ltb, if◌then◌else◌,
}
use mqttview.Message.{Time}
use mqttview.Auth.Limiter.{AttemptEntry, AttemptLimiter, is_stale, purge, restart, admit, allow}
use mqttview.Auth.Limiter.Window.{Attempt, is_of, passes, passes-in_window}

-- A key without an entry has none after the loop.
lookup-keep_if-none {ℓ} :
    {V : Type ℓ} (p : Bytes × V → Bool) (key : Bytes) (m : List (Bytes × V))
    → lookup key m ≡ none
    → lookup key (keep_if p m) ≡ none
unfolding lookup
lookup-keep_if-none p key [] e = e
lookup-keep_if-none p key ((k, w) ∷ m) e =
    elim (if_inv (bytes_eq k key) (some w) (lookup key m) none e) [
      | inl (y, found) ↦ absurd (ground arith)
      | inr (n, later) ↦
          let ih = lookup-keep_if-none p key m later in
          elim (Bool-cases (p (k, w))) [ inl kept ↦ rw (kept, n) ih | inr gone ↦ rw gone ih ]
    ]

-- The first attempt passes and starts the window.
record Starts (key : Bytes) (now : Time) (l : AttemptLimiter) (r : AttemptLimiter × Bool)
    : Type 0 where
  found : lookup key r.0.entries ≡ some (record { count = 1; start = now })
  max : r.0.max ≡ l.max
  window : r.0.window ≡ l.window
  passed : r.1 ≡ true

admit-Starts :
    (key : Bytes) (now : Time) (l : AttemptLimiter) → Starts key now l (admit key now l none)
unfolding admit restart
admit-Starts key now l =
    let e : AttemptEntry = record { count = 1; start = now } in
    record {
      found = lookup-insert key key e l.entries ∙ rw (bytes_eq_refl key) refl;
      max = refl;
      window = refl;
      passed = refl;
    }

allow-Starts :
    (key : Bytes) (now : Time) (l : AttemptLimiter)
    → lookup key l.entries ≡ none
    → Starts key now l (allow key now l)
unfolding allow purge
allow-Starts key now l fresh =
    let l' = record l { entries = purge l.window now l.entries } in
    let unseen : lookup key l'.entries ≡ none =
      lookup-keep_if-none (λ x. not (is_stale l.window now x.1)) key l.entries fresh in
    let s = admit-Starts key now l' in
    subst (λ o. Starts key now l (admit key now l' o)) (sym unseen)
      (record { found = s.found; max = s.max; window = s.window; passed = s.passed })

-- Of the attempts of a key that has no entry, in the window that the first of them starts, exactly
-- the first `max` pass, or all of them where they are fewer, whatever attempts on other keys are
-- made in between; where `max` is 0, the first one passes all the same, and no other.
pub passes_first :
    (key : Bytes) (now : Time) (rest : List Attempt) (l : AttemptLimiter)
    → lookup key l.entries ≡ none
    → All (λ a. a.0 ≤ now + l.window) rest
    → passes key ((now, key) ∷ rest) l
      ≡ min (if ltb 0 l.max then l.max else 1) (suc (length (keep_if (is_of key) rest)))
unfolding passes
passes_first key now rest l fresh early =
    let s = allow-Starts key now l fresh in
    let after =
      passes-in_window key (record { count = 1; start = now }) rest (allow key now l).0 s.found
        (subst (λ w. All (λ x. x.0 ≤ now + w) rest) (sym s.window) early) in
    let left = after ∙ ap (λ m. min (m - 1) (length (keep_if (is_of key) rest))) s.max in
    rw (bytes_eq_refl key, s.passed) (ground (arith, left))
