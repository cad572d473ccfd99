-- ===== src/Conn/Status/Times.antt =====
-- What a connection's status says of the time since when it is up.
use mqttview.Common.{
  ◌+◌, ◌≡◌, ◌≢◌, refl, sym, ◌∙◌, inl, inr, true, false, Option, none, some, List, [], ◌∷◌, Bytes,
  is_some, Bool-cases, arith,
}
use mqttview.Message.{Time}
use mqttview.Conn.Status.{
  State, same_state, disconnected, connecting, connected, error, Status, Live, new_live, moved,
  noted, set_state, Happening, connect_begins, dial_failed, dial_succeeded, disconnect_called,
  went_up, went_down, reported, begin_connect, happen, happens,
}

-- A status that is connected says since when, and one that is disconnected does not.
pub record IsTimed (s : Status) : Type 0 where
  pub up : s.state ≡ connected → is_some s.connected_at ≡ true
  pub down : s.state ≡ disconnected → s.connected_at ≡ none

up-ne-down : connected ≢ disconnected
up-ne-down e = ground arith

same_state→eq : (a b : State) → same_state a b ≡ true → a ≡ b
same_state→eq disconnected disconnected e = refl
same_state→eq connecting connecting e = refl
same_state→eq connected connected e = refl
same_state→eq error error e = refl
same_state→eq _ _ e = absurd (ground arith)

moved-state : (now : Time) (t : State) (s : Status) → (moved now t s).state ≡ t
unfolding moved
moved-state now t s = elim (Bool-cases (same_state s.state t)) [
  | inl y ↦ rw y (same_state→eq s.state t y)
  | inr n ↦ rw n refl
]

-- A status that is neither says nothing of the time.
neither-IsTimed : (s : Status) → s.state ≢ connected → s.state ≢ disconnected → IsTimed s
neither-IsTimed s up down = record { up = λ e. absurd (up e); down = λ e. absurd (down e) }

connecting-ne :
    (s : Status) → s.state ≡ connecting → (s.state ≢ connected) × (s.state ≢ disconnected)
connecting-ne s e = (
  λ c. let bad : connecting ≡ connected = sym e ∙ c in ground arith,
  λ d. let bad : connecting ≡ disconnected = sym e ∙ d in ground arith,
)

error-ne : (s : Status) → s.state ≡ error → (s.state ≢ connected) × (s.state ≢ disconnected)
error-ne s e = (
  λ c. let bad : error ≡ connected = sym e ∙ c in ground arith,
  λ d. let bad : error ≡ disconnected = sym e ∙ d in ground arith,
)

noted-IsTimed :
    (now : Time) (t : State) (err : Option Bytes) (s : Status)
    → s.state ≡ t
    → (t ≡ disconnected → err ≡ none)
    → IsTimed (noted now t err s)
unfolding noted
noted-IsTimed now connected err s e quiet = record {
  up = λ _. refl;
  down = λ d. absurd (up-ne-down (sym e ∙ d));
}
noted-IsTimed now disconnected none s e quiet = record {
  up = λ c. absurd (up-ne-down (sym c ∙ e));
  down = λ _. refl;
}
noted-IsTimed now disconnected (some x) s e quiet = let bad = quiet refl in absurd (ground arith)
noted-IsTimed now connecting none s e quiet =
    neither-IsTimed s (connecting-ne s e).0 (connecting-ne s e).1
noted-IsTimed now connecting (some x) s e quiet =
    neither-IsTimed (record s { last_error = x }) (connecting-ne s e).0 (connecting-ne s e).1
noted-IsTimed now error none s e quiet = neither-IsTimed s (error-ne s e).0 (error-ne s e).1
noted-IsTimed now error (some x) s e quiet =
    neither-IsTimed (record s { last_error = x }) (error-ne s e).0 (error-ne s e).1

set_state-IsTimed :
    (now : Time) (t : State) (err : Option Bytes) (l : Live)
    → (t ≡ disconnected → err ≡ none)
    → IsTimed (set_state now t err l).status
unfolding set_state
set_state-IsTimed now t err l quiet =
    noted-IsTimed now t err (moved now t l.status) (moved-state now t l.status) quiet

error-quiet : (e : Option Bytes) → error ≡ disconnected → e ≡ none
error-quiet e bad = absurd (ground arith)

begin_connect-IsTimed :
    (now : Time) (failure : Option Bytes) (l : Live)
    → IsTimed l.status
    → IsTimed (begin_connect now failure l).status
unfolding begin_connect
begin_connect-IsTimed now none l i = elim (Bool-cases l.client) [
  | inl y ↦ rw y i
  | inr n ↦ rw n (
      set_state-IsTimed now connecting none
        (record l {
          status = record l.status { attempts = l.status.attempts + 1 };
          client = true;
          want_connect = true;
        })
        (λ _. refl))
]
begin_connect-IsTimed now (some e) l i = elim (Bool-cases l.client) [
  | inl y ↦ rw y i
  | inr n ↦ rw n (
      set_state-IsTimed now error (some e) (record l { want_connect = true })
        (error-quiet (some e)))
]

happen-IsTimed : (l : Live) (h : Time × Happening) → IsTimed l.status → IsTimed (happen l h).status
unfolding happen
happen-IsTimed l (now, connect_begins failure) i = begin_connect-IsTimed now failure l i
happen-IsTimed l (now, dial_failed e) i =
    set_state-IsTimed now error (some e) (record l { client = false }) (error-quiet (some e))
happen-IsTimed l (now, dial_succeeded) i = set_state-IsTimed now connected none l (λ _. refl)
happen-IsTimed l (now, disconnect_called) i =
    set_state-IsTimed now disconnected none (record l { client = false; want_connect = false })
      (λ _. refl)
happen-IsTimed l (now, went_up present) i =
    set_state-IsTimed now connected none
      (record l { status = record l.status { session_present = present } }) (λ _. refl)
happen-IsTimed l (now, went_down e) i = set_state-IsTimed now error e l (error-quiet e)
happen-IsTimed l (now, reported none) i = i
happen-IsTimed l (now, reported (some e)) i = record { up = i.up; down = i.down }

happens-IsTimed :
    (l : Live) (hs : List (Time × Happening)) → IsTimed l.status → IsTimed (happens l hs).status
unfolding happens
happens-IsTimed l [] i = i
happens-IsTimed l (h ∷ hs) i = happens-IsTimed (happen l h) hs (happen-IsTimed l h i)

-- In whatever order `connect`, `disconnect` and the callbacks of clients take their steps, a
-- connection that is connected says since when, and one that is disconnected does not.
pub live-IsTimed :
    (start : Time) (hs : List (Time × Happening)) → IsTimed (happens (new_live start) hs).status
unfolding new_live
live-IsTimed start hs =
    happens-IsTimed (new_live start) hs
      (record { up = λ c. absurd (up-ne-down (sym c)); down = λ _. refl })
