-- ===== src/Common/Word.antt =====
-- 32-bit words as native numbers. `int`, `long` and `unsigned long` of the Arduino Due are all
-- 32 bits wide; each is kept as its bit pattern, a number below 2 ^ 32.
use Prim.Native.Nat.{ℕ, ◌+◌, ◌-◌, ◌%◌, ◌^◌}
use mathlib.Core.Bool.{Bool}
use speed_feed.Common.Tests.{ltb}

abbrev pub word_mod : ℕ
word_mod = 2 ^ 32

abbrev pub add32 : ℕ → ℕ → ℕ
add32 a b = (a + b) % word_mod

-- `-` on ℕ stops at 0, so the modulus is added first.
abbrev pub sub32 : ℕ → ℕ → ℕ
sub32 a b = (a + word_mod - b) % word_mod

-- the pattern of the negative number `-k`
abbrev pub neg32 : ℕ → ℕ
neg32 k = (word_mod - k) % word_mod

-- `a < b` for signed words: the patterns in the order of the numbers that they stand for
abbrev pub slt32 : ℕ → ℕ → Bool
slt32 a b = ltb ((a + 2 ^ 31) % word_mod) ((b + 2 ^ 31) % word_mod)
