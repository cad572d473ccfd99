-- ===== src/Common/Decimal.antt =====
-- `strconv.FormatUint`, `FormatInt` and `Itoa` in base ten.
use Prim.Native.Nat.{ℕ, zero, suc, ◌+◌, ◌/◌, ◌%◌}
use mathlib.Core.Bool.{true, false}
use mathlib.Core.List.{[], ◌∷◌, ◌++◌}
use mqttview.Common.Tests.{ltb}
use mqttview.Common.Text.{Bytes}
use mqttview.Common.Int.{ℤ, pos, negsuc}

-- The first argument bounds the digits; a number has fewer digits than it counts, but for 0.
unfoldable pub digits : ℕ → ℕ → Bytes
digits zero n = (b'0' + n % 10) ∷ []
digits (suc more) n = elim (ltb n 10) [
  | true ↦ (b'0' + n) ∷ []
  | false ↦ digits more (n / 10) ++ (b'0' + n % 10) ∷ []
]

unfoldable pub format_uint : ℕ → Bytes
unfolding digits
format_uint n = digits n n

unfoldable pub format_int : ℤ → Bytes
unfolding format_uint
format_int (pos n) = format_uint n
format_int (negsuc n) = b'-' ∷ format_uint (suc n)
