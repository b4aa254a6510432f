-- ===== src/Prelude/Integers.antt =====
-- Integers by their sign, over the native numbers.
use Prim.Native.Nat.{ℕ, ◌-◌}
use repository_quality_guard.Prelude.Tests.{leb, if◌then◌else◌}

pub data ℤ : Type 0 where
  pos : ℕ → ℤ
  negsuc : ℕ → ℤ

-- `a - b` of two counts
unfoldable pub difference : ℕ → ℕ → ℤ
difference a b = if leb b a then pos (a - b) else negsuc (b - a - 1)
