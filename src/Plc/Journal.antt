-- ===== src/Plc/Journal.antt =====
-- internal/plugins/plc/journal.go: the bounded, sequenced log of digital edges, and waiting on it.
-- The mutex makes each method one step; `Wait` runs over a schedule of what is appended between its
-- steps, any number of edges at each, and of what wakes it.
pub mod Resume
pub mod Waiting
use mqttview.Common.{
  ℕ, zero, suc, ◌+◌, ◌-◌, ◌%◌, Bool, true, false, not, ◌&&◌, ◌||◌, Option, none, some, List, [],
  ◌∷◌, ◌++◌, Bytes, ℤ, pos, negsuc, or_default, u64_mod, length, drop, keep_if, last_n, leb, ltb,
  if◌then◌else◌,
}
use mqttview.Message.{Time}

pub record Edge : Type 0 where
  pub seq : ℕ
  pub connection_id : Bytes
  pub topic : Bytes
  pub kind : Bytes
  pub address : ℤ
  pub name : Bytes
  pub label : Bytes
  pub location : Bytes
  pub sensor_type : Bytes
  pub alarm_zone : Bool
  pub from : Bool
  pub to : Bool
  pub at : Time

unfoldable pub rising : Edge → Bool
rising e = e.to && not e.from

abbrev pub default_journal_size : ℕ
default_journal_size = 500

pub record Journal : Type 0 where
  pub entries : List Edge
  pub seq : ℕ
  pub size : ℕ

unfoldable pub new_journal : ℤ → Journal
new_journal size = record { entries = []; seq = 0; size = or_default default_journal_size size }

-- The copy down and the cut leave the last `size` entries.
unfoldable pub append : Journal → Edge → Journal × Edge
append j e =
    let seq = (j.seq + 1) % u64_mod in
    let e' = record e { seq = seq } in
    let entries = j.entries ++ e' ∷ [] in
    (
      record j {
        seq = seq;
        entries =
            if ltb j.size (length entries) then drop (length entries - j.size) entries else entries;
      },
      e',
    )

-- A nil `Match` accepts all.
abbrev pub Match : Type 0
Match = Option (Edge → Bool)

abbrev pub accepts : Match → Edge → Bool
accepts none e = true
accepts (some match) e = match e

unfoldable pub limit_of : ℕ → ℤ → ℕ
limit_of size (pos zero) = size
limit_of size (pos (suc n)) = if ltb size (suc n) then size else suc n
limit_of size (negsuc _) = size

-- What the loop of `Since` does not skip.
unfoldable pub selects : ℕ → Match → Edge → Bool
selects seq match e = not (ltb 0 seq && leb e.seq seq) && accepts match e

unfoldable pub since : Journal → ℕ → ℤ → Match → List Edge × ℕ
unfolding limit_of selects
since j seq limit match =
    let n = limit_of j.size limit in
    let out = keep_if (selects seq match) j.entries in
    (if ltb n (length out) then drop (length out - n) out else out, j.seq)

unfoldable pub latest : Journal → ℕ
latest j = j.seq

unfoldable pub len : Journal → ℕ
len j = length j.entries

-- What ends the `select` of one round: the context, the timer, or the wake channel.
pub data Wake : Type 0 where
  cancelled timed_out woken : Wake

-- A round of the loop of `Wait`: what other goroutines append after the wake channel is taken and
-- before the check, what they append between that check and the next time the channel is taken,
-- and what ends the `select`.
pub record WaitRound : Type 0 where
  pub early : List Edge
  pub late : List Edge
  pub wake : Wake

unfoldable pub append_all : Journal → List Edge → Journal
unfolding append
append_all j [] = j
append_all j (e ∷ es) = append_all (append j e).0 es

abbrev pub found_any : List Edge → Bool
found_any [] = false
found_any (_ ∷ _) = true

-- Any append since the channel was taken closes it, so that several may come before the next check.
abbrev pub is_closed : WaitRound → Bool
is_closed r = found_any (r.early ++ r.late)

-- The loop of `Wait`; `none` where the schedule ends while it blocks, or has it woken by nothing.
unfoldable pub wait_loop : Journal → ℕ → ℤ → Match → List WaitRound → Option (List Edge × ℕ)
unfolding since append_all
wait_loop j seq limit match [] = none
wait_loop j seq limit match (r ∷ rs) =
    let checked = append_all j r.early in
    let found = since checked seq limit match in
    let after = append_all checked r.late in
    let rest = wait_loop after seq limit match rs in
    if found_any found.0 then some found else (elim r.wake [
      | cancelled ↦ some ([], after.seq)
      | timed_out ↦ some ([], after.seq)
      | woken ↦ if is_closed r then rest else none
    ])

unfoldable pub is_positive : ℤ → Bool
is_positive (pos zero) = false
is_positive (pos (suc _)) = true
is_positive (negsuc _) = false

-- `between` is what is appended after the first check and before the loop, or before the newest
-- sequence number is read.
unfoldable pub wait :
    Journal → ℕ → ℤ → ℤ → Match → List Edge → List WaitRound → Option (List Edge × ℕ)
unfolding wait_loop is_positive append_all
wait j seq limit timeout match between rs =
    let found = since j seq limit match in
    let after = append_all j between in
    let loop = wait_loop after seq limit match rs in
    if found_any found.0
    then some found
    else if not (is_positive timeout)
    then some ([], after.seq)
    else loop
