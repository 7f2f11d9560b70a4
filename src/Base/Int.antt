-- ===== src/Base/Int.antt =====
-- `int32_t` values: the integers, and the two's complement reading of a 32-bit pattern.
use Prim.Native.Nat.{ℕ, zero, suc, ◌+◌, ◌-◌, ◌%◌, ◌^◌, ◌<◌}
use mathlib.Core.Path.{◌≡◌}
use native.Mathlib.Omega.{arith}
use so_commons.Base.Tests.{ltb, if◌then◌else◌}

-- `negsuc n` is -(n + 1).
pub data ℤ : Type 0 where
  pos : ℕ → ℤ
  negsuc : ℕ → ℤ

-- What an `int32_t` holds after a computation whose value is `v`, with the usual wrap-around.
unfoldable pub int32 : ℕ → ℤ
int32 v = let w = v % 2 ^ 32 in if ltb w (2 ^ 31) then pos w else negsuc (2 ^ 32 - w - 1)

pub int32_fits : (v : ℕ) → v < 2 ^ 31 → int32 v ≡ pos v
unfolding int32
int32_fits v h = ground arith

-- `x++` on a signed counter.
unfoldable pub inc : ℤ → ℤ
inc (pos n) = pos (n + 1)
inc (negsuc zero) = pos 0
inc (negsuc (suc n)) = negsuc n
