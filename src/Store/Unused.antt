-- ===== src/Store/Unused.antt =====
-- Which hashes the unused recovery codes of a user have.
use mqttview.Common.{
  ◌≡◌, true, false, not, ◌&&◌, List, [], ◌∷◌, Bytes, bytes_eq, if_both, arith, All,
}
use mqttview.Message.{Time}
use mqttview.Store.{RecoveryRow, is_open, mark_used, clear_recovery_codes, new_rows}

-- No code of the user that is unused has the hash.
abbrev pub Lacks : Bytes → Bytes → List RecoveryRow → Type 0
Lacks user want rows = All (λ r. (is_open user r && bytes_eq r.hash want) ≡ false) rows

-- Of the user's codes, only the one of this identifier has the hash.
abbrev pub IsOnly : Bytes → Bytes → Bytes → List RecoveryRow → Type 0
IsOnly user want id rows =
    All (λ r. (bytes_eq r.user_id user && bytes_eq r.hash want) ≡ true → bytes_eq r.id id ≡ true)
      rows

-- Once the only row that has the hash is marked, no unused one has it.
pub mark_used-Lacks :
    (user want id : Bytes) (at : Time) (rows : List RecoveryRow)
    → IsOnly user want id rows
    → Lacks user want (mark_used id at rows)
unfolding mark_used is_open
mark_used-Lacks user want id at [] h = tt
mark_used-Lacks user want id at (r ∷ rows) h =
    (ground (arith, h.0), mark_used-Lacks user want id at rows h.1)

-- Marking other rows, and deleting rows, keep it so.
pub mark_used-keeps :
    (user want id : Bytes) (at : Time) (rows : List RecoveryRow)
    → Lacks user want rows
    → Lacks user want (mark_used id at rows)
unfolding mark_used is_open
mark_used-keeps user want id at [] h = tt
mark_used-keeps user want id at (r ∷ rows) h =
    (ground (arith, h.0), mark_used-keeps user want id at rows h.1)

pub clear-Lacks :
    (user want other : Bytes) (rows : List RecoveryRow)
    → Lacks user want rows
    → Lacks user want (clear_recovery_codes other rows)
unfolding clear_recovery_codes
clear-Lacks user want other [] h = tt
clear-Lacks user want other (r ∷ rows) h =
    let rest = clear-Lacks user want other rows h.1 in
    if_both (Lacks user want) (not (bytes_eq r.user_id other)) (h.0, rest) rest

pub new_rows-Lacks :
    (user want other : Bytes) (fresh : List (Bytes × Bytes))
    → All (λ x. bytes_eq x.1 want ≡ false) fresh
    → Lacks user want (new_rows other fresh)
unfolding new_rows is_open
new_rows-Lacks user want other [] h = tt
new_rows-Lacks user want other (x ∷ fresh) h =
    (ground (arith, h.0), new_rows-Lacks user want other fresh h.1)
