-- ===== src/Numbers/Tests.antt =====
-- src/kernel/vsprintf.c and src/lib/klib.c: the theorems at small numbers and formats.
use aneasyos.Base.Lists.{length}
use aneasyos.Base.{ℕ, ◌≡◌, ◌⊎◌, refl, some, List, [], ◌∷◌, arith}
use aneasyos.Base.Word.{minus}
use aneasyos.Numbers.{u2a, itoa, print_int, plain, vsprintf, i2a, i2a_digits, digit_char}
use aneasyos.Numbers.Decimal.{read_int, print_int-reads}
use aneasyos.Numbers.Hex.{read_hex, digits_of, NoZeros, hex-reads}
use aneasyos.Numbers.Format.{
  Piece, char, number, percent_sign, spell, arguments, join, AllMatch, vsprintf-texts,
}

minus_42 : print_int (minus 42) ≡ some (b'-' ∷ (b'4' ∷ (b'2' ∷ [])))
unfolding print_int i2a i2a_digits digit_char
minus_42 = refl

print_int-reads_example : (s : List ℕ) × (print_int (minus 42) ≡ some s) × (read_int s ≡ minus 42)
print_int-reads_example = print_int-reads (minus 42) (omega arith) (λ e. absurd (omega (arith, e)))

hex-reads_example :
    (read_hex (u2a 0xb8000) ≡ 0xb8000)
    × (u2a 0xb8000 ≡ b'0' ∷ (b'x' ∷ digits_of (u2a 0xb8000)))
    × (length (digits_of (u2a 0xb8000)) ≡ 8)
    × (read_hex (itoa 0xb8000) ≡ 0xb8000)
    × (itoa 0xb8000 ≡ b'0' ∷ (b'x' ∷ digits_of (itoa 0xb8000)))
    × ((digits_of (itoa 0xb8000) ≡ b'0' ∷ []) ⊎ NoZeros (digits_of (itoa 0xb8000)))
hex-reads_example = hex-reads 0xb8000 (omega arith)

-- "n=%d%%" with 42
abbrev pieces : List Piece
pieces = char b'n' ∷ (char b'=' ∷ (number 42 ∷ (percent_sign ∷ [])))

vsprintf-texts_example :
    (ts : List (List ℕ)) × (vsprintf (λ p. []) plain (spell pieces) [] (arguments pieces)
      ≡ some (join ts))
    × AllMatch (λ p. []) pieces ts
vsprintf-texts_example =
    vsprintf-texts (λ p. []) pieces []
      (
        (λ e. absurd (omega (arith, e))),
        (
          (λ e. absurd (omega (arith, e))),
          ((omega arith, λ e. absurd (omega (arith, e))), (tt, tt)),
        ),
      )
