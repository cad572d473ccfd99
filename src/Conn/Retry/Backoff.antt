-- ===== src/Conn/Retry/Backoff.antt =====
-- How long the retry loop waits.
use mqttview.Common.{
  ℕ, zero, suc, ◌+◌, ◌≡◌, refl, sym, ap, ◌∙◌, subst, inl, inr, List, [], ◌∷◌, some, get_elem?,
  Bool-cases, arith,
}
use mqttview.Conn.Retry.{
  seconds, Round, next_backoff, supervise, supervise_auto_connect, first_backoff,
}

-- The wait after the given number of failures before.
unfoldable pub interval : ℕ → ℕ
interval zero = seconds 5
interval (suc zero) = seconds 10
interval (suc (suc zero)) = seconds 20
interval (suc (suc (suc zero))) = seconds 40
interval (suc (suc (suc (suc n)))) = seconds 80

next_backoff-interval : (k : ℕ) → next_backoff (interval k) ≡ interval (suc k)
unfolding next_backoff interval
next_backoff-interval zero = refl
next_backoff-interval (suc zero) = refl
next_backoff-interval (suc (suc zero)) = refl
next_backoff-interval (suc (suc (suc zero))) = refl
next_backoff-interval (suc (suc (suc (suc n)))) = refl

-- Waits from the given number of failures on.
Follows : ℕ → List ℕ → Type 0
Follows k [] = Unit
Follows k (w ∷ ws) = (w ≡ interval k) × Follows (suc k) ws

supervise-Follows : (k : ℕ) (rounds : List Round) → Follows k (supervise (interval k) rounds).0
unfolding supervise Follows
supervise-Follows k [] = tt
supervise-Follows k (r ∷ rounds) =
    let rest = supervise (next_backoff (interval k)) rounds in
    let later : Follows (suc k) rest.0 =
      subst (λ b. Follows (suc k) (supervise b rounds).0) (sym (next_backoff-interval k))
        (supervise-Follows (suc k) rounds) in
    elim (Bool-cases r.ended) [
      | inl y ↦ rw y tt
      | inr n ↦ elim (Bool-cases r.dialled) [
        | inl y ↦ rw (n, y) tt
        | inr m ↦ elim (Bool-cases r.wanted) [
          | inr y ↦ rw (n, m, y) tt
          | inl w ↦ elim (Bool-cases r.ended_in_wait) [
            | inl y ↦ rw (n, m, w, y) (refl, tt)
            | inr l ↦ rw (n, m, w, l) (refl, later)
          ]
        ]
      ]
    ]

followed : (k i w : ℕ) (ws : List ℕ) → Follows k ws → get_elem? ws i ≡ some w → w ≡ interval (i + k)
unfolding Follows
followed k i w [] f e = absurd (ground arith)
followed k zero w (v ∷ ws) f e = let same : w ≡ v = cc in same ∙ f.0 ∙ ap interval (omega arith)
followed k (suc i) w (v ∷ ws) f e = followed (suc k) i w ws f.1 e ∙ ap interval (omega arith)

-- The waits of the retry loop are 5, 10, 20 and 40 seconds, and 80 seconds from then on: they stop
-- growing, but above the minute that `autoConnectBackoff` names.
pub supervise_auto_connect-interval :
    (rounds : List Round) (i wait : ℕ)
    → get_elem? (supervise_auto_connect rounds).0 i ≡ some wait
    → wait ≡ interval i
unfolding supervise_auto_connect interval
supervise_auto_connect-interval rounds i wait e =
    followed 0 i wait (supervise first_backoff rounds).0 (supervise-Follows 0 rounds) e
    ∙ ap interval (omega arith)
