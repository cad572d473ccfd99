-- ===== src/Common/Int.antt =====
-- Go's signed integers, as far as the program compares them with zero.
use Prim.Native.Nat.{ℕ, zero, suc, ◌^◌}

-- `negsuc n` is -(n + 1).
pub data ℤ : Type 0 where
  pos : ℕ → ℤ
  negsuc : ℕ → ℤ

-- `if n <= 0 { n = d }`
abbrev pub or_default : ℕ → ℤ → ℕ
or_default d (pos zero) = d
or_default d (pos (suc n)) = suc n
or_default d (negsuc _) = d

-- The modulus at which a `uint64` wraps around.
abbrev pub u64_mod : ℕ
u64_mod = 2 ^ 64
