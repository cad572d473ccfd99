-- ===== src/Plc/Journal/Waiting.antt =====
-- `Wait` ends at the first edge that matches, and not at one that does not.
use mqttview.Common.{ℕ, ◌+◌, ◌≡◌, true, false, List, [], ◌∷◌, ◌++◌, length, last_n, keep_if, All, ℤ}
use mqttview.Plc.Journal.{Edge, Journal, Match, accepts, limit_of, woken, WaitRound, is_closed}
use mqttview.Plc.Journal.Resume.{stamped}

-- Edges of which none matches, as they are numbered after those before.
abbrev pub IsSkipped : Match → List Edge → List Edge → Type 0
IsSkipped match before es = All (λ e. accepts match e ≡ false) (stamped (length before) es)

-- What has come when some rounds are over.
abbrev pub landed : List Edge → List WaitRound → List Edge
landed done [] = done
landed done (r ∷ rs) = landed ((done ++ r.early) ++ r.late) rs

-- Rounds that end by waking, and whose check comes before any edge that matches.
abbrev pub AreIdle : Match → List Edge → List Edge → List WaitRound → Type 0
AreIdle match before done [] = Unit {0}
AreIdle match before done (r ∷ rs) =
    IsSkipped match before (done ++ r.early)
    × (r.wake ≡ woken)
    × (is_closed r ≡ true)
    × AreIdle match before ((done ++ r.early) ++ r.late) rs

-- The newest of the edges that have come and match, and the sequence number of the last to come.
abbrev pub answer : ℕ → ℤ → Match → List Edge → List Edge → List Edge × ℕ
answer size limit match before done = (
  last_n (limit_of size limit)
      (keep_if (accepts match) (last_n size (stamped (length before) done))),
  length before + length done,
)
