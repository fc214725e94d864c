-- ===== src/Base/Flags.antt =====
-- The tests and updates of single bits of `p_flags`: `x & f`, `x |= f` and `x &= ~f` for a power of
-- two f, in a form that linear arithmetic reads. On the eight bits that the kernel uses they are
-- the bitwise operations.
use Prim.Native.Nat.{ℕ, ◌+◌, ◌-◌, ◌/◌, ◌%◌, ◌<◌, bit_and, bit_or}
use mathlib.Core.Path.{◌≡◌, refl}
use mathlib.Core.Bool.{Bool, true, ◌&&◌}
use aneasyos.Base.Tests.{◌==◌, if◌then◌else◌, holds_below, holds_at}

abbrev pub has_flag : ℕ → ℕ → Bool
has_flag x f = x / f % 2 == 1

abbrev pub set_flag : ℕ → ℕ → ℕ
set_flag x f = if has_flag x f then x else x + f

abbrev pub reset_flag : ℕ → ℕ → ℕ
reset_flag x f = if has_flag x f then x - f else x

-- `same` compares the two readings at one value of the flags.
abbrev pub same : ℕ → ℕ → Bool
same f x =
    ((if has_flag x f then 1 else 0) == bit_and x f / f)
    && ((set_flag x f == bit_or x f) && (reset_flag x f == bit_and x (255 - f)))

flag_table : (f : ℕ) → Bool
flag_table f = holds_below (same f) 256

tables :
    (flag_table 2 ≡ true)
    × (flag_table 4 ≡ true)
    × (flag_table 8 ≡ true)
    × (flag_table 0x10 ≡ true)
    × (flag_table 0x20 ≡ true)
    × (flag_table 0x40 ≡ true)
    × (flag_table 0x80 ≡ true)
unfolding flag_table holds_below
tables = (refl, refl, refl, refl, refl, refl, refl)

-- On eight bits, the three readings of the SENDING bit are those of the C operators; so for the
-- other flags, by `tables`.
pub flag_bits : (x : ℕ) → x < 256 → same 2 x ≡ true
unfolding flag_table
flag_bits x h = holds_at (same 2) h tables.0
