-- ===== src/Conn/Status.antt =====
-- internal/mqttc/manager.go: a connection's status and the user's intent, through `connect`,
-- `disconnect` and the client's callbacks. `connect` holds its lock twice with the dial between, so
-- that it is several steps, and callbacks of any client come in between. An error is its text, as
-- explained to the user; the clock's reading is an argument.
pub mod Times
use mqttview.Common.{
  ℕ, ◌+◌, Bool, true, false, not, Option, none, some, List, [], foldl, Bytes, if◌then◌else◌,
}
use mqttview.Message.{Time}

pub data State : Type 0 where
  disconnected connecting connected error : State

abbrev pub same_state : State → State → Bool
same_state disconnected disconnected = true
same_state connecting connecting = true
same_state connected connected = true
same_state error error = true
same_state _ _ = false

-- The counters of messages are kept apart in the code as well, and the version never changes here.
pub record Status : Type 0 where
  pub state : State
  pub since : Time
  pub connected_at : Option Time
  pub last_error : Bytes
  pub attempts : ℕ
  pub session_present : Bool

-- `client` says whether there is one.
pub record Live : Type 0 where
  pub status : Status
  pub client : Bool
  pub want_connect : Bool

unfoldable pub new_live : Time → Live
new_live now = record {
  status = record {
    state = disconnected;
    since = now;
    connected_at = none;
    last_error = [];
    attempts = 0;
    session_present = false;
  };
  client = false;
  want_connect = false;
}

unfoldable pub moved : Time → State → Status → Status
moved now state s = if same_state s.state state then s else record s { state = state; since = now }

-- The `switch` of `setState`.
unfoldable pub noted : Time → State → Option Bytes → Status → Status
noted now connected err s = record s { connected_at = some now; last_error = [] }
noted now state (some e) s = record s { last_error = e }
noted now disconnected none s = record s { connected_at = none; last_error = [] }
noted now state none s = s

unfoldable pub set_state : Time → State → Option Bytes → Live → Live
unfolding moved noted
set_state now state err l = record l { status = noted now state err (moved now state l.status) }

-- A step, at its time.
pub data Happening : Type 0 where
  connect_begins : Option Bytes → Happening
  dial_failed : Bytes → Happening
  dial_succeeded : Happening
  disconnect_called : Happening
  went_up : Bool → Happening
  went_down : Option Bytes → Happening
  reported : Option Bytes → Happening

-- The first half of `connect`, with the error of `NewClient` if it has one.
unfoldable pub begin_connect : Time → Option Bytes → Live → Live
unfolding set_state
begin_connect now failure l =
    let l' = record l { want_connect = true } in
    if l.client then l' else (elim failure [
      | some e ↦ set_state now error (some e) l'
      | none ↦ set_state now connecting none (record l' {
        client = true;
        status = record l'.status { attempts = l'.status.attempts + 1 };
      })
    ])

unfoldable pub happen : Live → Time × Happening → Live
unfolding begin_connect set_state
happen l (now, connect_begins failure) = begin_connect now failure l
happen l (now, dial_failed e) = set_state now error (some e) (record l { client = false })
happen l (now, dial_succeeded) = set_state now connected none l
happen l (now, disconnect_called) =
    set_state now disconnected none (record l { client = false; want_connect = false })
happen l (now, went_up present) =
    set_state now connected none
      (record l { status = record l.status { session_present = present } })
happen l (now, went_down e) = set_state now error e l
happen l (now, reported none) = l
happen l (now, reported (some e)) = record l { status = record l.status { last_error = e } }

unfoldable pub happens : Live → List (Time × Happening) → Live
unfolding happen
happens l hs = foldl happen l hs
