-- ===== src/Base/Ints.antt =====
-- Signed integers over the native numbers, as the results of comparisons.
use Prim.Native.Nat.{ℕ, ◌+◌, ◌-◌, ◌%◌}
use legendary_journey.Base.Tests.{leb, if◌then◌else◌}

pub data ℤ : Type 0 where
  pos : ℕ → ℤ
  negsuc : ℕ → ℤ

-- the difference of two numbers
abbrev pub minus : ℕ → ℕ → ℤ
minus a b = if leb b a then pos (a - b) else negsuc (b - a - 1)

-- the difference of two bytes read as signed characters
abbrev pub char_minus : ℕ → ℕ → ℤ
char_minus a b = minus ((a + 128) % 256) ((b + 128) % 256)
