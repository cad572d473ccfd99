-- ===== src/Topic/Utf8.antt =====
-- `utf8.ValidString` of Go's library, which internal/mqttc/topic.go and internal/payload call.
use mqttview.Common.{
  ℕ, zero, suc, Bool, true, false, ◌&&◌, [], ◌∷◌, Bytes, ltb, leb, ◌==◌, if◌then◌else◌,
}

abbrev in_range : ℕ → ℕ → ℕ → Bool
in_range lo hi b = leb lo b && leb b hi

-- After a lead byte: how many continuation bytes follow, and the range of the first of them.
-- `invalid` is absorbing.
pub data Expect : Type 0 where
  lead : Expect
  tail : ℕ → ℕ → ℕ → Expect
  invalid : Expect

unfoldable pub after_lead : ℕ → Expect
after_lead b =
    if ltb b 0x80
    then lead
    else if in_range 0xc2 0xdf b
    then tail 0 0x80 0xbf
    else if b == 0xe0
    then tail 1 0xa0 0xbf
    else if b == 0xed
    then tail 1 0x80 0x9f
    else if in_range 0xe1 0xef b
    then tail 1 0x80 0xbf
    else if b == 0xf0
    then tail 2 0x90 0xbf
    else if in_range 0xf1 0xf3 b
    then tail 2 0x80 0xbf
    else if b == 0xf4
    then tail 2 0x80 0x8f
    else invalid

unfoldable pub step : Expect → ℕ → Expect
unfolding after_lead
step lead b = after_lead b
step (tail zero lo hi) b = if in_range lo hi b then lead else invalid
step (tail (suc n) lo hi) b = if in_range lo hi b then tail n 0x80 0xbf else invalid
step invalid b = invalid

unfoldable pub scan : Expect → Bytes → Bool
unfolding step
scan lead [] = true
scan (tail _ _ _) [] = false
scan invalid [] = false
scan e (b ∷ s) = scan (step e b) s

unfoldable pub valid_string : Bytes → Bool
unfolding scan
valid_string = scan lead
