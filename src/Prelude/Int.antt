-- ===== src/Prelude/Int.antt =====
-- Go's `int` where it may be negative: `negsuc n` is -(n + 1).
use Prim.Native.Nat.{ℕ, ◌+◌, ◌-◌}
use mathlib.Core.Bool.{Bool, true, false}
use pancakes_harness.Prelude.Tests.{leb, if◌then◌else◌}

pub data ℤ : Type 0 where
  pos : ℕ → ℤ
  negsuc : ℕ → ℤ

abbrev pub is_negative : ℤ → Bool
is_negative (pos n) = false
is_negative (negsuc n) = true

-- a ≤ b
abbrev pub lebℤ : ℤ → ℤ → Bool
lebℤ (pos a) (pos b) = leb a b
lebℤ (pos a) (negsuc b) = false
lebℤ (negsuc a) (pos b) = true
lebℤ (negsuc a) (negsuc b) = leb b a

-- a + n
abbrev pub add_nat : ℤ → ℕ → ℤ
add_nat (pos a) n = pos (a + n)
add_nat (negsuc a) n = if leb (a + 1) n then pos (n - (a + 1)) else negsuc (a - n)
