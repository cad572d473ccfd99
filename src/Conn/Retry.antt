-- ===== src/Conn/Retry.antt =====
-- internal/mqttc/manager.go: `superviseAutoConnect`, the retry loop of one connection. What the
-- context, the dial and the user do in each round is an argument; a run is the rounds that happen.
pub mod Backoff
use mqttview.Common.{ℕ, ◌*◌, ◌^◌, Bool, not, ltb, List, [], ◌∷◌, if◌then◌else◌}

-- `time.Second`, in nanoseconds, as a duration is.
abbrev pub seconds : ℕ → ℕ
seconds n = n * 10 ^ 9

abbrev pub auto_connect_backoff : ℕ
auto_connect_backoff = seconds 60

abbrev pub first_backoff : ℕ
first_backoff = seconds 5

-- One round: whether the context has ended before it, whether the dial succeeds, whether the
-- connection is wanted after a failure, and whether the context ends during the wait.
pub record Round : Type 0 where
  pub ended : Bool
  pub dialled : Bool
  pub wanted : Bool
  pub ended_in_wait : Bool

pub data Ending : Type 0 where
  cancelled up unwanted retrying : Ending

unfoldable pub next_backoff : ℕ → ℕ
next_backoff backoff = if ltb backoff auto_connect_backoff then backoff * 2 else backoff

-- The waits that are begun, and how the run ends; it is still retrying where the rounds end first.
unfoldable pub supervise : ℕ → List Round → List ℕ × Ending
unfolding next_backoff
supervise backoff [] = ([], retrying)
supervise backoff (r ∷ rounds) =
    let rest = supervise (next_backoff backoff) rounds in
    if r.ended
    then ([], cancelled)
    else if r.dialled
    then ([], up)
    else if not r.wanted
    then ([], unwanted)
    else if r.ended_in_wait
    then (backoff ∷ [], cancelled)
    else (backoff ∷ rest.0, rest.1)

unfoldable pub supervise_auto_connect : List Round → List ℕ × Ending
unfolding supervise
supervise_auto_connect rounds = supervise first_backoff rounds
