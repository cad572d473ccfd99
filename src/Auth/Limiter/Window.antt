-- ===== src/Auth/Limiter/Window.antt =====
-- How many attempts the limiter lets through.
use mqttview.Common.{
  ℕ, suc, ◌+◌, ◌-◌, ◌≤◌, ◌≡◌, refl, sym, ap, ap₂, ◌∙◌, subst, inl, inr, Bool, true, false, not,
  Option, none, some, List, [], ◌∷◌, Bytes, bytes_eq, bytes_eq_iff, bytes_eq_refl, lookup, insert,
  lookup-insert, keep_if, length, leb, if◌then◌else◌, All, arith, Bool-cases, min,
}
use mqttview.Message.{Time}
use mqttview.Auth.Limiter.{AttemptEntry, AttemptLimiter, is_stale, purge, restart, admit, allow}

abbrev pub Attempt : Type 0
Attempt = Time × Bytes

abbrev pub is_of : Bytes → Attempt → Bool
is_of key a = bytes_eq a.1 key

-- How many attempts of the key pass in a run of attempts by anyone.
unfoldable pub passes : Bytes → List Attempt → AttemptLimiter → ℕ
passes key [] l = 0
passes key (a ∷ rest) l =
    let (l', ok) = allow a.1 a.0 l in
    let n = passes key rest l' in if is_of key a then (if ok then n + 1 else n) else n

-- A binding that the test keeps is still the one that is found.
lookup-keep_if {ℓ} :
    {V : Type ℓ} (p : Bytes × V → Bool) (key : Bytes) (v : V) (m : List (Bytes × V))
    → lookup key m ≡ some v
    → p (key, v) ≡ true
    → lookup key (keep_if p m) ≡ some v
unfolding lookup
lookup-keep_if p key v [] e h = absurd (ground arith)
lookup-keep_if p key v ((k, w) ∷ m) e h = elim (Bool-cases (bytes_eq k key)) [
  | inl y ↦
      let found : (if true then some w else lookup key m) ≡ some v =
        subst (λ b. (if b then some w else lookup key m) ≡ some v) y e in
      let same : w ≡ v = cc in
      let kept : p (k, w) ≡ true = ap₂ (λ x z. p (x, z)) ((bytes_eq_iff k key).0 y) same ∙ h in
      rw (kept, y) found
  | inr n ↦
      let later : (if false then some w else lookup key m) ≡ some v =
        subst (λ b. (if b then some w else lookup key m) ≡ some v) n e in
      let ih = lookup-keep_if p key v m later h in
      elim (Bool-cases (p (k, w))) [ inl kept ↦ rw (kept, n) ih | inr gone ↦ rw gone ih ]
]

-- An attempt on a key whose window has not ended is counted.
record Counts (key : Bytes) (e : AttemptEntry) (l : AttemptLimiter) (r : AttemptLimiter × Bool)
    : Type 0 where
  found : lookup key r.0.entries ≡ some (record e { count = e.count + 1 })
  max : r.0.max ≡ l.max
  window : r.0.window ≡ l.window
  passed : r.1 ≡ leb (e.count + 1) l.max

admit-Counts :
    (key : Bytes) (now : Time) (e : AttemptEntry) (l : AttemptLimiter)
    → now ≤ e.start + l.window
    → Counts key e l (admit key now l (some e))
unfolding admit
admit-Counts key now e l early =
    let live : is_stale l.window now e ≡ false = ground arith in
    rw live (record {
      found =
          lookup-insert key key (record e { count = e.count + 1 }) l.entries
          ∙ rw (bytes_eq_refl key) refl;
      max = refl;
      window = refl;
      passed = refl;
    })

-- The entry of a key whose window has not ended survives the loop.
purge-live :
    (key : Bytes) (now : Time) (e : AttemptEntry) (l : AttemptLimiter)
    → lookup key l.entries ≡ some e
    → now ≤ e.start + l.window
    → lookup key (purge l.window now l.entries) ≡ some e
unfolding purge
purge-live key now e l found early =
    let live : is_stale l.window now e ≡ false = ground arith in
    lookup-keep_if (λ x. not (is_stale l.window now x.1)) key e l.entries found (rw live refl)

allow-Counts :
    (key : Bytes) (now : Time) (e : AttemptEntry) (l : AttemptLimiter)
    → lookup key l.entries ≡ some e
    → now ≤ e.start + l.window
    → Counts key e l (allow key now l)
unfolding allow
allow-Counts key now e l found early =
    let l' = record l { entries = purge l.window now l.entries } in
    let c = admit-Counts key now e l' early in
    subst (λ o. Counts key e l (admit key now l' o)) (sym (purge-live key now e l found early))
      (record { found = c.found; max = c.max; window = c.window; passed = c.passed })

-- An attempt on another key leaves the count as it is.
record Keeps (key : Bytes) (e : AttemptEntry) (l l' : AttemptLimiter) : Type 0 where
  found : lookup key l'.entries ≡ some e
  max : l'.max ≡ l.max
  window : l'.window ≡ l.window

insert-Keeps :
    (key other : Bytes) (e v : AttemptEntry) (l : AttemptLimiter)
    → bytes_eq other key ≡ false
    → lookup key l.entries ≡ some e
    → Keeps key e l (record l { entries = insert other v l.entries })
insert-Keeps key other e v l differ found = record {
  found = lookup-insert other key v l.entries ∙ rw differ found;
  max = refl;
  window = refl;
}

admit-Keeps :
    (key other : Bytes) (now : Time) (e : AttemptEntry) (l : AttemptLimiter)
    (o : Option AttemptEntry)
    → bytes_eq other key ≡ false
    → lookup key l.entries ≡ some e
    → Keeps key e l (admit other now l o).0
unfolding admit restart
admit-Keeps key other now e l none differ found = insert-Keeps key other e _ l differ found
admit-Keeps key other now e l (some v) differ found = elim (Bool-cases (is_stale l.window now v)) [
  | inl y ↦ rw y (insert-Keeps key other e _ l differ found)
  | inr n ↦ rw n (insert-Keeps key other e _ l differ found)
]

allow-Keeps :
    (key other : Bytes) (now : Time) (e : AttemptEntry) (l : AttemptLimiter)
    → bytes_eq other key ≡ false
    → lookup key l.entries ≡ some e
    → now ≤ e.start + l.window
    → Keeps key e l (allow other now l).0
unfolding allow
allow-Keeps key other now e l differ found early =
    let l' = record l { entries = purge l.window now l.entries } in
    let k =
      admit-Keeps key other now e l' (lookup other l'.entries) differ
        (purge-live key now e l found early) in
    record { found = k.found; max = k.max; window = k.window }

counted :
    (c m n k : ℕ)
    → n ≡ min (m - (c + 1)) k
    → (if leb (c + 1) m then n + 1 else n) ≡ min (m - c) (suc k)
counted c m n k e = ground arith

-- Within the window of a key's entry, exactly as many further attempts of the key pass as its count
-- is short of `max`, or all of them where they are fewer; attempts on other keys, whenever they
-- are made in between, take none away and add none.
pub passes-in_window :
    (key : Bytes) (e : AttemptEntry) (rest : List Attempt) (l : AttemptLimiter)
    → lookup key l.entries ≡ some e
    → All (λ a. a.0 ≤ e.start + l.window) rest
    → passes key rest l ≡ min (l.max - e.count) (length (keep_if (is_of key) rest))
unfolding passes
passes-in_window key e [] l found early = omega arith
passes-in_window key e (a ∷ rest) l found early = elim (Bool-cases (is_of key a)) [
  | inl y ↦
      let c : Counts key e l (allow a.1 a.0 l) =
        subst (λ k. Counts key e l (allow k a.0 l)) (sym ((bytes_eq_iff a.1 key).0 y))
          (allow-Counts key a.0 e l found early.0) in
      let ih =
        passes-in_window key (record e { count = e.count + 1 }) rest (allow a.1 a.0 l).0 c.found
          (subst (λ w. All (λ x. x.0 ≤ e.start + w) rest) (sym c.window) early.1) in
      rw (y, c.passed)
        (counted e.count l.max (passes key rest (allow a.1 a.0 l).0)
          (length (keep_if (is_of key) rest))
          (ih ∙ ap (λ m. min (m - (e.count + 1)) (length (keep_if (is_of key) rest))) c.max))
  | inr n ↦
      let k = allow-Keeps key a.1 a.0 e l n found early.0 in
      let ih =
        passes-in_window key e rest (allow a.1 a.0 l).0 k.found
          (subst (λ w. All (λ x. x.0 ≤ e.start + w) rest) (sym k.window) early.1) in
      rw n (ih ∙ ap (λ m. min (m - e.count) (length (keep_if (is_of key) rest))) k.max)
]
