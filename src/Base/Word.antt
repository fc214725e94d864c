-- ===== src/Base/Word.antt =====
-- Machine integers. A u32 is a number below 2 ^ 32; an int is its bit pattern, also below 2 ^ 32, so
-- that -1 is 0xffffffff. Signed comparison moves the sign to the top by adding 2 ^ 31.
use Prim.Native.Nat.{ℕ, ◌+◌, ◌-◌, ◌*◌, ◌/◌, ◌%◌}
use mathlib.Core.Bool.{Bool}
use aneasyos.Base.Tests.{ltb, leb, if◌then◌else◌}

abbrev pub word : ℕ
word = 0x1_0000_0000

abbrev pub half_word : ℕ
half_word = 0x8000_0000

abbrev pub add32 : ℕ → ℕ → ℕ
add32 a b = (a + b) % word

abbrev pub sub32 : ℕ → ℕ → ℕ
sub32 a b = (a + word - b) % word

abbrev pub mul32 : ℕ → ℕ → ℕ
mul32 a b = a * b % word

-- The bit pattern of -n.
abbrev pub minus : ℕ → ℕ
minus n = word - n

abbrev pub biased : ℕ → ℕ
biased a = (a + half_word) % word

-- a < b and a <= b on int
abbrev pub slt : ℕ → ℕ → Bool
slt a b = ltb (biased a) (biased b)

abbrev pub sle : ℕ → ℕ → Bool
sle a b = leb (biased a) (biased b)

-- |a|, and a / n for a positive n, on int: division rounds towards 0.
abbrev pub magnitude : ℕ → ℕ
magnitude a = if ltb a half_word then a else word - a

abbrev pub sdiv : ℕ → ℕ → ℕ
sdiv a n = if ltb a half_word then a / n else (word - (word - a) / n) % word
