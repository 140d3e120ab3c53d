-- ===== src/Int64.antt =====
-- The `int` of Go on a 64-bit machine: an integer whose sums and differences wrap around.
use openresponses.Prelude.{ℕ, ◌+◌, ◌-◌, ◌==◌, ltb, if◌then◌else◌, Bool, ℤ, pos, negsuc, suc}
use Prim.Native.Nat.{◌%◌, ◌^◌}

abbrev pub pos_part : ℤ → ℕ
pos_part (pos n) = n
pos_part (negsuc n) = 0

abbrev pub neg_part : ℤ → ℕ
neg_part (pos n) = 0
neg_part (negsuc n) = suc n

abbrev pub ltb_ℤ : ℤ → ℤ → Bool
ltb_ℤ a b = ltb (pos_part a + neg_part b) (pos_part b + neg_part a)

abbrev pub eq_ℤ : ℤ → ℤ → Bool
eq_ℤ a b = pos_part a + neg_part b == pos_part b + neg_part a

-- The bit pattern of an integer, and back.
abbrev pub to_word : ℤ → ℕ
to_word (pos n) = n % 2 ^ 64
to_word (negsuc n) = 2 ^ 64 - 1 - n % 2 ^ 64

abbrev pub of_word : ℕ → ℤ
of_word w = if ltb w (2 ^ 63) then pos w else negsuc (2 ^ 64 - 1 - w)

unfoldable pub add64 : ℤ → ℤ → ℤ
add64 a b = of_word ((to_word a + to_word b) % 2 ^ 64)

unfoldable pub sub64 : ℤ → ℤ → ℤ
sub64 a b = of_word ((to_word a + (2 ^ 64 - to_word b)) % 2 ^ 64)
