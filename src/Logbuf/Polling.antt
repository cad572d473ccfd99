-- ===== src/Logbuf/Polling.antt =====
-- Polling the log by sequence number: what `Records` returns for the last number that was seen.
use mqttview.Common.{
  ℕ, zero, suc, ◌+◌, ◌-◌, ◌%◌, ◌≤◌, ◌<◌, ◌≡◌, refl, ap, ◌∙◌, Bool, true, false, not, List, [], ◌∷◌,
  ◌++◌, foldl, length, drop, last_n, keep_if, leb, ltb, All, arith, ℤ, pos, negsuc, u64_mod,
  length-append, keep_if-drop, keep_if-and, or_default,
}
use mqttview.Ring
use mqttview.Ring.{Ring}
use mqttview.Ring.Bounds.{chronological-puts_new}
use mqttview.Logbuf.{
  SlogRecord, Record, Buffer, stamp, add_record, level_value, passes, records, newest, new_buffer,
  zero_record, default_size,
}

-- The records that a list of lines becomes after sequence number `seq`.
abbrev pub stamped : ℕ → List SlogRecord → List Record
stamped seq [] = []
stamped seq (r ∷ rs) = stamp (suc seq) r ∷ stamped (suc seq) rs

length-stamped : (seq : ℕ) (rs : List SlogRecord) → length (stamped seq rs) ≡ length rs
length-stamped seq [] = refl
length-stamped seq (r ∷ rs) = ap suc (length-stamped (suc seq) rs)

stamped-append :
    (seq : ℕ) (xs ys : List SlogRecord)
    → stamped seq (xs ++ ys) ≡ stamped seq xs ++ stamped (seq + length xs) ys
stamped-append seq [] ys = ap (λ k. stamped k ys) (omega arith)
stamped-append seq (x ∷ xs) ys =
    let e : suc seq + length xs ≡ seq + suc (length xs) = omega arith in
    ap (◌∷◌ (stamp (suc seq) x))
      (stamped-append (suc seq) xs ys ∙ ap (λ k. stamped (suc seq) xs ++ stamped k ys) e)

abbrev newer : ℕ → Record → Bool
newer since r = not (leb r.seq since)

-- The records at a level or above it.
abbrev pub at_level : ℕ → Record → Bool
at_level min_level r = not (ltb (level_value r.level) min_level)

stamped_old :
    (since seq : ℕ) (rs : List SlogRecord)
    → seq + length rs ≤ since
    → All (λ r. newer since r ≡ false) (stamped seq rs)
unfolding stamp
stamped_old since seq [] h = tt
stamped_old since seq (r ∷ rs) h = (ground arith, stamped_old since (suc seq) rs (omega arith))

stamped_new :
    (since seq : ℕ) (rs : List SlogRecord)
    → since ≤ seq
    → All (λ r. newer since r ≡ true) (stamped seq rs)
unfolding stamp
stamped_new since seq [] h = tt
stamped_new since seq (r ∷ rs) h = (ground arith, stamped_new since (suc seq) rs (omega arith))

abbrev after_record : Buffer → SlogRecord → Buffer
after_record b r = record { ring = Ring.put b.ring (stamp (suc b.seq) r); seq = suc b.seq }

add_record_after :
    (b : Buffer) (r : SlogRecord) → suc b.seq < u64_mod → add_record b r ≡ after_record b r
unfolding add_record
add_record_after b r h =
    let e : (b.seq + 1) % u64_mod ≡ suc b.seq = omega arith in
    ap (λ k. record { ring = Ring.put b.ring (stamp k r); seq = k }) e

-- A run of `record` puts the stamped records into the ring.
adds-ring :
    (b : Buffer) (rs : List SlogRecord)
    → b.seq + length rs < u64_mod
    → ((foldl add_record b rs).ring ≡ foldl Ring.put b.ring (stamped b.seq rs))
      × ((foldl add_record b rs).seq ≡ b.seq + length rs)
adds-ring b [] h = (refl, omega arith)
adds-ring b (r ∷ rs) h =
    let (ring, seq) = adds-ring (after_record b r) rs (omega arith) in
    let step = add_record_after b r (omega arith) in
    (
      ap (λ c. (foldl add_record c rs).ring) step ∙ ring,
      ap (λ c. (foldl add_record c rs).seq) step ∙ seq ∙ omega arith,
    )

or_default_pos : (d : ℕ) (n : ℤ) → 0 < d → 0 < or_default d n
or_default_pos d (pos zero) h = h
or_default_pos d (pos (suc n)) h = omega arith
or_default_pos d (negsuc n) h = h

newest_all : (out : List Record) → newest (pos 0) out ≡ out
unfolding newest
newest_all out = refl

-- What a new buffer holds after a run.
adds-chronological :
    (size : ℤ) (rs : List SlogRecord)
    → length rs < u64_mod
    → Ring.chronological (foldl add_record (new_buffer size) rs).ring
      ≡ last_n (or_default default_size size) (stamped 0 rs)
unfolding new_buffer
adds-chronological size rs h =
    ap Ring.chronological (adds-ring (new_buffer size) rs (omega arith)).0
    ∙ (chronological-puts_new zero_record (or_default default_size size) (stamped 0 rs)
        (or_default_pos default_size size (omega arith))).1

module _ (size : ℤ) (before after : List SlogRecord)
    (few : length before + length after < u64_mod) where
  polled : Buffer
  polled = foldl add_record (new_buffer size) (before ++ after)

  polled_newer :
      keep_if (newer (length before)) (Ring.chronological polled.ring)
      ≡ last_n (or_default default_size size) (stamped (length before) after)
  unfolding polled
  polled_newer =
      let n = or_default default_size size in
      let xs = stamped 0 before in
      let ys = stamped (length before) after in
      let all : stamped 0 (before ++ after) ≡ xs ++ ys =
        stamped-append 0 before after ∙ ap (λ k. xs ++ stamped k after) (omega arith) in
      let cut : length (xs ++ ys) - n - length xs ≡ length ys - n =
        omega (arith, length-append xs ys) in
      ap (keep_if (newer (length before))) (
        adds-chronological size (before ++ after) (omega (arith, length-append before after))
        ∙ ap (last_n n) all)
      ∙ keep_if-drop (newer (length before)) (length (xs ++ ys) - n) xs ys
          (stamped_old (length before) 0 before (omega arith))
          (stamped_new (length before) (length before) after (omega arith))
      ∙ ap (λ k. drop k ys) cut

-- Polling with the sequence number of the last poll returns exactly the records that were logged
-- since then, at the level asked for or above it, out of the last that the ring keeps.
pub records-polling :
    (size : ℤ) (min_level : ℕ) (before after : List SlogRecord)
    → length before + length after < u64_mod
    → ((foldl add_record (new_buffer size) before).seq ≡ length before)
      × (records
            (foldl add_record (new_buffer size) (before ++ after))
            min_level
            (length before)
            (pos 0)
          ≡ keep_if
              (at_level min_level)
              (last_n (or_default default_size size) (stamped (length before) after)))
unfolding records passes polled
records-polling size min_level before after few = (
  (adds-ring (new_buffer size) before (unfold new_buffer in omega arith)).1
      ∙ (unfold new_buffer in omega arith),
  newest_all _
      ∙ keep_if-and (newer (length before)) (at_level min_level) _
      ∙ ap (keep_if (at_level min_level)) (polled_newer size before after few),
)
