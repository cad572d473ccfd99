-- ===== src/Conn/Distinct.antt =====
-- What `Normalize` leaves of a list of subscriptions.
use mqttview.Common.{
  ℕ, ◌≤◌, ◌≡◌, refl, subst, inl, inr, false, Option, none, some, List, [], ◌∷◌, Bytes, ltb,
  if◌then◌else◌, if_inv, arith,
}
use mqttview.Strings.{trim_space}
use mqttview.Topic.{TopicError, validate_filter, is_empty}
use mqttview.Conn.{
  Subscription, ConnError, invalid_filter, bad_qos, bad_retain_handling, contains, NormalizedList,
  kept, rejected, keep, subscription_error, normalize_subscriptions,
}

pub record IsValid (s : Subscription) : Type 0 where
  pub filter : validate_filter s.filter ≡ none
  pub qos : s.qos ≤ 2
  pub handling : s.retain_handling ≤ 2

-- Each is valid, and no filter is among the given ones or comes twice.
unfoldable pub AreDistinct : List Bytes → List Subscription → Type 0
AreDistinct seen [] = Unit
AreDistinct seen (s ∷ subs) =
    IsValid s × (contains s.filter seen ≡ false) × AreDistinct (s.filter ∷ seen) subs

error_of :
    (o : Option TopicError) (qos handling : ℕ)
    → elim o as (λ _. Option ConnError) [
      | some e ↦ some (invalid_filter e)
      | none ↦
          if ltb 2 qos
          then some bad_qos
          else if ltb 2 handling
          then some bad_retain_handling
          else none
    ]
      ≡ none
    → (o ≡ none) × (qos ≤ 2) × (handling ≤ 2)
error_of (some e) qos handling h = absurd (ground arith)
error_of none qos handling h = (refl, ground arith, ground arith)

subscription_error-IsValid : (s : Subscription) → subscription_error s ≡ none → IsValid s
unfolding subscription_error
subscription_error-IsValid s h =
    let (f, q, r) = error_of (validate_filter s.filter) s.qos s.retain_handling h in
    record { filter = f; qos = q; handling = r }

rejected-ne-kept : {e : ConnError} {l : List Subscription} → rejected e ≡ kept l → ⊥
rejected-ne-kept h = ground arith

-- What was kept in front of the rest.
keep-kept :
    (s : Subscription) (n : NormalizedList) (out : List Subscription)
    → keep s n ≡ kept out
    → (rest : List Subscription) × (n ≡ kept rest) × (s ∷ rest ≡ out)
unfolding keep
keep-kept s (kept rest) out h = (rest, refl, cc)
keep-kept s (rejected e) out h = absurd (rejected-ne-kept h)

chosen :
    (seen : List Bytes) (s : Subscription) (o : Option ConnError) (skipped rest : NormalizedList)
    (out : List Subscription)
    → subscription_error s ≡ o
    → ((l : List Subscription) → skipped ≡ kept l → AreDistinct seen l)
    → ((l : List Subscription) → rest ≡ kept l → AreDistinct (s.filter ∷ seen) l)
    → elim o as (λ _. NormalizedList) [
      | some e ↦ rejected e
      | none ↦ if contains s.filter seen then skipped else keep s rest
    ]
      ≡ kept out
    → AreDistinct seen out
unfolding AreDistinct
chosen seen s (some e) skipped rest out valid ih ih' h = absurd (rejected-ne-kept h)
chosen seen s none skipped rest out valid ih ih' h =
    elim (if_inv (contains s.filter seen) skipped (keep s rest) (kept out) h) [
      | inl (y, same) ↦ ih out same
      | inr (free, front) ↦
          let (l, r, e) = keep-kept s rest out front in
          subst (AreDistinct seen) e (subscription_error-IsValid s valid, free, ih' l r)
    ]

-- What `Normalize` keeps are subscriptions whose filters `ValidateFilter` accepts, whose numbers are
-- at most 2, and no filter is there twice.
pub normalize_subscriptions-distinct :
    (seen : List Bytes) (subs out : List Subscription)
    → normalize_subscriptions seen subs ≡ kept out
    → AreDistinct seen out
unfolding normalize_subscriptions AreDistinct
normalize_subscriptions-distinct seen [] out h =
    let same : ◌≡◌ {A = List Subscription} [] out = cc in subst (AreDistinct seen) same tt
normalize_subscriptions-distinct seen (s ∷ subs) out h =
    let s' = record s { filter = trim_space s.filter } in
    let skipped = normalize_subscriptions seen subs in
    let ih = normalize_subscriptions-distinct seen subs in
    elim (if_inv (is_empty s'.filter) skipped _ (kept out) h) [
      | inl (y, same) ↦ ih out same
      | inr (n, rest) ↦
          chosen seen s' (subscription_error s') skipped
            (normalize_subscriptions (s'.filter ∷ seen) subs) out refl ih
            (normalize_subscriptions-distinct (s'.filter ∷ seen) subs) rest
    ]
