-- ===== src/Hub/Tokens.antt =====
-- The rate limit: how many messages pass within one window.
use mqttview.Common.{
  ℕ, zero, suc, ◌+◌, ◌-◌, ◌≤◌, ◌<◌, ◌≡◌, Bool, true, false, List, [], ◌∷◌, All, length,
  if◌then◌else◌, min, arith, sym, subst, All-map, ◌∙◌, ◌*◌,
}
use native.Mathlib.Decide.{dec_lt}
use mqttview.Message.{Time}
use mqttview.Hub.{Client, second, take_token}

-- How many of the attempts at these times pass, and the client afterwards.
pub attempts : List Time → Client → ℕ × Client
attempts [] c = (0, c)
attempts (now ∷ later) c =
    let (c', passed) = take_token now c in
    let (n, c'') = attempts later c' in (if passed then suc n else n, c'')

take_token_spent :
    (c : Client) (t : Time)
    → t < c.window_start + second
    → c.tokens ≡ 0
    → take_token t c ≡ (c, false)
unfolding take_token
take_token_spent c t h e = ground arith

take_token_left :
    (c : Client) (t : Time)
    → t < c.window_start + second
    → 0 < c.tokens
    → take_token t c ≡ (record c { tokens = c.tokens - 1 }, true)
unfolding take_token
take_token_left c t h e = ground arith

-- Within one second of the start of the window, the first attempts pass, as many as there are
-- tokens, and the others fail; the rest of the client stays as it is.
pub attempts-in_window :
    (c : Client) (times : List Time)
    → All (λ t. t < c.window_start + second) times
    → ((attempts times c).0 ≡ min c.tokens (length times))
      × ((attempts times c).1 ≡ record c { tokens = c.tokens - length times })
unfolding attempts
attempts-in_window c [] h = (omega arith, ground arith)
attempts-in_window c (t ∷ ts) h = elim (dec_lt 0 c.tokens) [
  | yes p ↦
      let c' = record c { tokens = c.tokens - 1 } in
      let (n, e) = attempts-in_window c' ts h.1 in
      rw (take_token_left c t h.0 p) (omega arith, e ∙ ground arith)
  | no p ↦
      let (n, e) = attempts-in_window c ts h.1 in
      rw (take_token_spent c t h.0 (omega arith)) (omega arith, e ∙ ground arith)
]

-- What one attempt leaves: the tokens of a window, one of them spent if it passed.
record Spends (budget start rate : ℕ) (r : Client × Bool) : Type 0 where
  window : r.0.window_start ≡ start
  rate_kept : r.0.rate ≡ rate
  cost : (if r.1 then suc r.0.tokens else r.0.tokens) ≤ budget

take_token_early :
    (c : Client) (t : Time)
    → t < c.window_start + second
    → Spends c.tokens c.window_start c.rate (take_token t c)
unfolding take_token
take_token_early c t h = record {
  window = ground arith;
  rate_kept = ground arith;
  cost = ground arith;
}

take_token_late :
    (c : Client) (t : Time) → c.window_start + second ≤ t → Spends c.rate t c.rate (take_token t c)
unfolding take_token
take_token_late c t h = record {
  window = ground arith;
  rate_kept = ground arith;
  cost = ground arith;
}

if_suc_le :
    (p : Bool) (n tokens budget rest : ℕ)
    → n ≤ tokens + rest
    → (if p then suc tokens else tokens) ≤ budget
    → (if p then suc n else n) ≤ budget + rest
if_suc_le p n tokens budget rest h k = ground arith

-- Attempts before the end of the (k+1)-st second of the window pass at most as often as there are
-- tokens left, and `rate` times more for each of the k later seconds, at whatever times and in
-- whatever order they are made.
pub attempts-le :
    (k : ℕ) (c : Client) (times : List Time)
    → All (λ t. t < c.window_start + suc k * second) times
    → (attempts times c).0 ≤ c.tokens + k * c.rate
unfolding attempts
attempts-le k c [] h = omega arith
attempts-le zero c (t ∷ ts) h =
    let c' = (take_token t c).0 in
    let s = take_token_early c t (omega arith) in
    let ih =
      attempts-le zero c' ts (subst (λ w. All (λ u. u < w + 1 * second) ts) (sym s.window) h.1) in
    if_suc_le (take_token t c).1 (attempts ts c').0 c'.tokens c.tokens (0 * c.rate) (omega arith)
      s.cost
attempts-le (suc j) c (t ∷ ts) h = elim (dec_lt t (c.window_start + second)) [
  | yes early ↦
      let c' = (take_token t c).0 in
      let s = take_token_early c t early in
      let ih =
        attempts-le (suc j) c' ts
          (subst (λ w. All (λ u. u < w + suc (suc j) * second) ts) (sym s.window) h.1) in
      if_suc_le (take_token t c).1 (attempts ts c').0 c'.tokens c.tokens (suc j * c.rate)
        (subst (λ r. (attempts ts c').0 ≤ c'.tokens + suc j * r) s.rate_kept ih) s.cost
  | no late ↦
      let c' = (take_token t c).0 in
      let s = take_token_late c t (omega arith) in
      let ih = attempts-le j c' ts (
        subst (λ w. All (λ u. u < w + suc j * second) ts) (sym s.window)
          (All-map (λ u. u < c.window_start + suc (suc j) * second) (λ u. u < t + suc j * second) ts
            (λ u b. omega arith) h.1)) in
      let total =
        if_suc_le (take_token t c).1 (attempts ts c').0 c'.tokens c.rate (j * c.rate)
          (subst (λ r. (attempts ts c').0 ≤ c'.tokens + j * r) s.rate_kept ih) s.cost in
      omega arith
]
