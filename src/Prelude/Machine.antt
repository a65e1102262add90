-- ===== src/Prelude/Machine.antt =====
-- Go's `int` on 64 bits: sums and products wrap around.
use Prim.Native.Nat.{ℕ, ◌+◌, ◌-◌, ◌*◌, ◌≤◌, ◌<◌, ◌%◌, ◌^◌}
use mathlib.Core.Path.{◌≡◌, refl}
use mathlib.Core.Bool.{true, false}
use native.Mathlib.Omega.{arith}
use pancakes_harness.Prelude.Tests.{ltb, if◌then◌else◌}
use pancakes_harness.Prelude.Int.{ℤ, pos, negsuc}

abbrev pub int_limit : ℕ
int_limit = 2 ^ 63

abbrev word_limit : ℕ
word_limit = 2 ^ 64

-- the bits of an integer, as a number below 2^64
unfoldable pub to_word : ℤ → ℕ
to_word (pos n) = n % word_limit
to_word (negsuc n) = word_limit - 1 - n % word_limit

-- the integer with these bits
unfoldable pub of_word : ℕ → ℤ
of_word w = if ltb w int_limit then pos w else negsuc (word_limit - 1 - w)

unfoldable pub add_int : ℤ → ℤ → ℤ
unfolding to_word of_word
add_int a b = of_word ((to_word a + to_word b) % word_limit)

unfoldable pub mul_int : ℤ → ℤ → ℤ
unfolding to_word of_word
mul_int a b = of_word ((to_word a * to_word b) % word_limit)

sum_negative : add_int (negsuc 4) (pos 3) ≡ negsuc 1
unfolding add_int
sum_negative = refl

sum_wraps : add_int (pos (2 ^ 63 - 1)) (pos 1) ≡ negsuc (2 ^ 63 - 1)
unfolding add_int
sum_wraps = refl

word_sum :
    (a b : ℕ)
    → a < int_limit
    → b < int_limit
    → (a % word_limit + b % word_limit) % word_limit ≡ a + b
word_sum a b ha hb = omega arith

pub add_int-pos : (a b : ℕ) → a + b < int_limit → add_int (pos a) (pos b) ≡ pos (a + b)
unfolding add_int
add_int-pos a b h =
    let e = word_sum a b (omega arith) (omega arith) in
    let small : ltb (a + b) int_limit ≡ true = ground arith in rw (add_int, e, small) refl

pub add_int-wraps :
    (a b : ℕ)
    → a < int_limit
    → b < int_limit
    → int_limit ≤ a + b
    → add_int (pos a) (pos b) ≡ negsuc (word_limit - 1 - (a + b))
unfolding add_int
add_int-wraps a b ha hb h =
    let e = word_sum a b ha hb in
    let large : ltb (a + b) int_limit ≡ false = ground arith in rw (add_int, e, large) refl
