-- ===== src/Hub/Fanout.antt =====
-- A message that a browser wants is queued or counted as dropped, never lost in silence.
use mqttview.Common.{
  ℕ, ◌+◌, ◌≤◌, ◌<◌, ◌≡◌, refl, sym, ap, ◌∙◌, inl, inr, Bool, true, false, Option, some, List, [],
  ◌∷◌, Bytes, u64_mod, Bool-cases, length, length-append, keep_if, ltb, arith, fun_ext, lookup,
}
use mqttview.Message.{Message, Time}
use mqttview.Hub.Commands.{admits, wants-admits}
use mqttview.Hub.{Frame, message, Client, send_buffer, push, count_drop, wants, take_token, offer}

-- The frames that are queued and those that were dropped.
abbrev pub accounted : Client → ℕ
accounted c = length c.send + c.dropped

push-accounted :
    (raw : Bytes) (c : Client)
    → c.dropped + 1 < u64_mod
    → (accounted (push (some raw) c) ≡ accounted c + 1)
      × ((push (some raw) c).watch ≡ c.watch)
      × ((push (some raw) c).dropped ≤ c.dropped + 1)
unfolding push count_drop
push-accounted raw c h = elim (Bool-cases (ltb (length c.send) send_buffer)) [
  | inl y ↦ rw y (omega (arith, length-append c.send (raw ∷ [])), refl, omega arith)
  | inr y ↦ rw y (omega arith, refl, omega arith)
]

take_token-kept :
    (now : Time) (c : Client)
    → ((take_token now c).0.send ≡ c.send)
      × ((take_token now c).0.dropped ≡ c.dropped)
      × ((take_token now c).0.watch ≡ c.watch)
unfolding take_token
take_token-kept now c = (ground arith, ground arith, ground arith)

-- What one message does to a client that wants it, and to one that does not.
record Offers (n : ℕ) (c c' : Client) : Type 0 where
  account : accounted c' ≡ accounted c + n
  watch : c'.watch ≡ c.watch
  drops : c'.dropped ≤ c.dropped + 1

module _ (encode : Frame → Option Bytes) where
  -- A client's share of a run of `BroadcastMessage`.
  unfoldable pub offers : List (Time × Message) → Client → Client
  offers [] c = c
  offers ((now, m) ∷ rest) c = offers rest (offer encode now m c)

abbrev pub wanted_by : Client → Time × Message → Bool
wanted_by c (_, m) = wants c m

module _ (encode : Frame → Option Bytes)
    (encodes : (m : Message) → (raw : Bytes) × (encode (message m) ≡ some raw)) where
  offer_unwanted :
      (now : Time) (m : Message) (c : Client)
      → wants c m ≡ false
      → Offers 0 c (offer encode now m c)
  unfolding offer
  offer_unwanted now m c e =
      rw e (record { account = omega arith; watch = refl; drops = omega arith })

  offer_wanted :
      (now : Time) (m : Message) (c : Client)
      → c.dropped + 1 < u64_mod
      → wants c m ≡ true
      → Offers 1 c (offer encode now m c)
  unfolding offer
  offer_wanted now m c h e =
      let c' = (take_token now c).0 in
      let (sent, drops, watch) = take_token-kept now c in
      let (raw, coded) = encodes m in
      elim (Bool-cases (take_token now c).1) [
        | inl passed ↦
            let (account, same, bound) = push-accounted raw c' (omega arith) in
            rw (e, passed, coded)
              (record {
                account = omega (arith, ap length sent);
                watch = same ∙ watch;
                drops = omega arith;
              })
        | inr refused ↦
            rw (e, refused)
              (unfold count_drop in
                record {
                  account = omega (arith, ap length sent);
                  watch = watch;
                  drops = omega arith;
                })
      ]

  same_wanted :
      (c c' : Client) (rest : List (Time × Message))
      → c'.watch ≡ c.watch
      → length (keep_if (wanted_by c') rest) ≡ length (keep_if (wanted_by c) rest)
  same_wanted c c' rest e =
      ap (λ p. length (keep_if p rest))
        (fun_ext (λ x.
          wants-admits c' x.1
          ∙ ap (λ w. admits (lookup x.1.connection_id w) x.1.topic) e
          ∙ sym (wants-admits c x.1)))

  -- Over any run of messages that can be encoded, the frames in a browser's queue and its drop
  -- counter together grow by exactly the number of messages that it wants, while it takes nothing
  -- from the queue and the counter does not wrap.
  pub offers-accounted :
      (rest : List (Time × Message)) (c : Client)
      → c.dropped + length rest < u64_mod
      → length (offers encode rest c).send + (offers encode rest c).dropped
        ≡ length c.send + c.dropped + length (keep_if (wanted_by c) rest)
  unfolding offers
  offers-accounted [] c h = omega arith
  offers-accounted ((now, m) ∷ rest) c h = elim (Bool-cases (wants c m)) [
    | inl y ↦
        let o = offer_wanted now m c (omega arith) y in
        let ih = offers-accounted rest (offer encode now m c) (omega (arith, o.drops)) in
        rw y (ih ∙ omega (arith, o.account, same_wanted c (offer encode now m c) rest o.watch))
    | inr n ↦
        let o = offer_unwanted now m c n in
        let ih = offers-accounted rest (offer encode now m c) (omega (arith, o.drops)) in
        rw n (ih ∙ omega (arith, o.account, same_wanted c (offer encode now m c) rest o.watch))
  ]
