-- ===== src/Base/Int.antt =====
-- Signed integers over the native numbers, where the program subtracts two times.
use Prim.Native.Nat.{ℕ, ◌-◌, ◌<◌}
use mathlib.Core.Path.{◌≡◌}
use native.Mathlib.Omega.{arith}
use auth.Base.Tests.{leb, if◌then◌else◌}

-- `negsuc n` is -(n + 1).
pub data ℤ : Type 0 where
  pos : ℕ → ℤ
  negsuc : ℕ → ℤ

-- The difference of two numbers.
abbrev pub difference : ℕ → ℕ → ℤ
difference a b = if leb b a then pos (a - b) else negsuc (b - a - 1)

pub difference_pos : (a b : ℕ) → b < a → difference a b ≡ pos (a - b)
difference_pos a b h = ground arith
