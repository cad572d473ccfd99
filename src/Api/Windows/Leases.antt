-- ===== src/Api/Windows/Leases.antt =====
-- The count of the leases of a filter against the windows that have one.
use mqttview.Common.{
  ℕ, ◌+◌, ◌-◌, ◌≡◌, refl, ap, ◌∙◌, inl, inr, Bool, true, Option, none, some, List, [], ◌∷◌, not,
  ◌&&◌, leb, Bytes, bytes_eq, bytes_eq_iff, bytes_eq_refl, lookup, lookup-insert, lookup-delete,
  insert, delete, ◌==◌, if◌then◌else◌, Bool-cases, arith,
}
use mqttview.Conn.{Conn, ConnError, contains, has_filter, subscribe_ephemeral}
use mqttview.Api.Collect.{or_zero, count_of}
use mqttview.Api.Windows.{
  Windows, lease_key, acquire, give_back, remove_one, begin_hold, settle_hold, end_hold,
  begin_release, end_release, window_subscription,
}

-- How many windows of these filters have the filter.
abbrev pub times : Bytes → List Bytes → ℕ
times f [] = 0
times f (g ∷ gs) = (if bytes_eq g f then 1 else 0) + times f gs

-- The windows that have a lease of the filter: the first of them waits for the broker.
abbrev pub windows_on : Bytes → Windows → ℕ
windows_on f w = times f w.subscribing + times f w.holding

-- What happens to the windows of a connection, of which a part may end only after it began; the
-- connection changes in any way meanwhile.
pub data Step (id : Bytes) (w : Windows) : Windows → Type 0 where
  opens : (f : Bytes) → Step id w (begin_hold id f w)
  answered :
      (answer : Bool) (f : Bytes)
      → contains f w.subscribing ≡ true
      → Step id w (end_hold answer id f w)
  closes : (f : Bytes) → contains f w.holding ≡ true → Step id w (begin_release id f w)
  dropped :
      (answer : Bool) (f : Bytes)
      → contains f w.dropping ≡ true
      → Step id w (end_release answer f w)
  elsewhere : (c : Conn) → Step id w (record w { conn = c })

pub data Reaches (id : Bytes) : Windows → Type 0 where
  idle :
      (c : Conn)
      → Reaches id (record { leases = []; conn = c; subscribing = []; holding = []; dropping = [] })
  next : {w w' : Windows} → Reaches id w → Step id w w' → Reaches id w'

abbrev pub IsCounted : Bytes → Windows → Type 0
IsCounted id w = (f : Bytes) → count_of (lease_key id f) w.leases ≡ windows_on f w

bytes_eq-lease_key : (id f g : Bytes) → bytes_eq (lease_key id f) (lease_key id g) ≡ bytes_eq f g
unfolding bytes_eq
bytes_eq-lease_key [] f g = refl
bytes_eq-lease_key (b ∷ id) f g = ground (arith, bytes_eq-lease_key id f g)

times-remove_one :
    (f g : Bytes) (l : List Bytes)
    → contains f l ≡ true
    → times g (remove_one f l) + (if bytes_eq f g then 1 else 0) ≡ times g l
times-remove_one f g [] h = absurd (ground (arith, h))
times-remove_one f g (k ∷ l) h = elim (Bool-cases (bytes_eq k f)) [
  | inl y ↦ ground (arith, y, bytes_eq_iff k f)
  | inr y ↦ let ih = times-remove_one f g l (ground (arith, y, h)) in ground (arith, y, ih)
]

count_of-insert :
    (id f g : Bytes) (n : ℕ) (l : List (Bytes × ℕ))
    → count_of (lease_key id g) (insert (lease_key id f) n l)
      ≡ (if bytes_eq f g then n else count_of (lease_key id g) l)
count_of-insert id f g n l =
    ap or_zero (lookup-insert (lease_key id f) (lease_key id g) n l)
    ∙ (rw (bytes_eq-lease_key id f g) (ground arith))

count_of-delete :
    (id f g : Bytes) (l : List (Bytes × ℕ))
    → count_of (lease_key id g) (delete (lease_key id f) l)
      ≡ (if bytes_eq f g then 0 else count_of (lease_key id g) l)
count_of-delete id f g l =
    ap or_zero (lookup-delete (lease_key id f) (lease_key id g) l)
    ∙ (rw (bytes_eq-lease_key id f g) (ground arith))

-- A key that is the same counts the same.
same_count :
    (id f g : Bytes) (l : List (Bytes × ℕ))
    → bytes_eq f g ≡ true
    → count_of (lease_key id f) l ≡ count_of (lease_key id g) l
same_count id f g l y = ap (λ (k : Bytes). count_of (lease_key id k) l) ((bytes_eq_iff f g).0 y)

count_of-acquire :
    (id f g : Bytes) (l : List (Bytes × ℕ))
    → count_of (lease_key id g) (acquire (lease_key id f) l)
      ≡ (if bytes_eq f g then 1 else 0) + count_of (lease_key id g) l
unfolding acquire
count_of-acquire id f g l =
    let e = count_of-insert id f g (count_of (lease_key id f) l + 1) l in
    elim (Bool-cases (bytes_eq f g)) [
      | inl y ↦ let s = same_count id f g l y in ground (arith, e, y, s)
      | inr y ↦ ground (arith, e, y)
    ]

count_of-give_back :
    (id f g : Bytes) (l : List (Bytes × ℕ))
    → count_of (lease_key id g) (give_back (lease_key id f) l)
      ≡ count_of (lease_key id g) l - (if bytes_eq f g then 1 else 0)
unfolding give_back
count_of-give_back id f g l =
    let e = count_of-insert id f g (count_of (lease_key id f) l - 1) l in
    elim (Bool-cases (bytes_eq f g)) [
      | inl y ↦ let s = same_count id f g l y in ground (arith, e, y, s)
      | inr y ↦ ground (arith, e, y)
    ]

begin_hold-IsCounted :
    (id f : Bytes) (w : Windows) → IsCounted id w → IsCounted id (begin_hold id f w)
unfolding begin_hold
begin_hold-IsCounted id f w h g =
    let e = count_of-acquire id f g w.leases in
    let at_g = h g in
    elim (Bool-cases (has_filter f w.conn.subscriptions)) [
      | inl y ↦ rw y at_g
      | inr y ↦
          elim (Bool-cases (count_of (lease_key id f) (acquire (lease_key id f) w.leases) == 1)) [
            | inl z ↦ rw (y, z) (omega arith)
            | inr z ↦ rw (y, z) (omega arith)
          ]
    ]

settle_hold-IsCounted :
    (id f : Bytes) (w : Windows) (r : Conn × Option ConnError)
    → contains f w.subscribing ≡ true
    → IsCounted id w
    → IsCounted id (settle_hold id f w r)
unfolding settle_hold
settle_hold-IsCounted id f w (c, none) m h g =
    let at_g = h g in let e = times-remove_one f g w.subscribing m in omega arith
settle_hold-IsCounted id f w (c, some _) m h g =
    let at_g = h g in
    let e = times-remove_one f g w.subscribing m in
    let d = count_of-give_back id f g w.leases in omega arith

begin_release-IsCounted :
    (id f : Bytes) (w : Windows)
    → contains f w.holding ≡ true
    → IsCounted id w
    → IsCounted id (begin_release id f w)
unfolding begin_release
begin_release-IsCounted id f w m h g =
    let left = give_back (lease_key id f) w.leases in
    let at_g = h g in
    let e = times-remove_one f g w.holding m in
    let d = count_of-give_back id f g w.leases in
    elim (Bool-cases (count_of (lease_key id f) left == 0)) [
      | inl z ↦
          let gone = count_of-delete id f g left in
          rw z (elim (Bool-cases (bytes_eq f g)) [
            | inl y ↦ let s = same_count id f g left y in ground (arith, gone, y, s, z, d, e, at_g)
            | inr y ↦ ground (arith, gone, y, d, e, at_g)
          ])
      | inr z ↦ rw z (omega arith)
    ]

Step-IsCounted : (id : Bytes) {w w' : Windows} → Step id w w' → IsCounted id w → IsCounted id w'
unfolding end_hold end_release
Step-IsCounted id {w} (opens f) h = begin_hold-IsCounted id f w h
Step-IsCounted id {w} (answered answer f m) h =
    settle_hold-IsCounted id f w (subscribe_ephemeral answer (window_subscription f ∷ []) w.conn) m
      h
Step-IsCounted id {w} (closes f m) h = begin_release-IsCounted id f w m h
Step-IsCounted id (dropped answer f m) h = h
Step-IsCounted id (elsewhere c) h = h

Reaches-IsCounted : (id : Bytes) {w : Windows} → Reaches id w → IsCounted id w
unfolding lookup
Reaches-IsCounted id (idle c) f = refl
Reaches-IsCounted id (next before st) f = Step-IsCounted id st (Reaches-IsCounted id before) f

-- Whatever windows are opened and closed on a connection, in any order, and whatever the broker
-- answers: the count of a filter is the number of the windows that wait for it or have it. A new
-- window asks the broker for a filter exactly where the connection is not subscribed to it for good
-- and no other window is on it, and a window that ends unsubscribes exactly where it is the last.
pub Reaches-leased :
    (id f : Bytes) {w : Windows}
    → Reaches id w
    → (count_of (lease_key id f) w.leases ≡ windows_on f w)
      × ((begin_hold id f w).subscribing ≡ (
          if not (has_filter f w.conn.subscriptions) && (windows_on f w == 0)
          then f ∷ w.subscribing
          else w.subscribing))
      × ((begin_release id f w).dropping
          ≡ (if leb (windows_on f w) 1 then f ∷ w.dropping else w.dropping))
unfolding begin_hold begin_release
Reaches-leased id f {w} r =
    let n = Reaches-IsCounted id r f in
    let up = count_of-acquire id f f w.leases in
    let down = count_of-give_back id f f w.leases in
    let same = bytes_eq_refl f in (n, ground (arith, n, up, same), ground (arith, n, down, same))
