-- ===== src/Numbers.antt =====
-- src/kernel/vsprintf.c and src/lib/klib.c: numbers as text, and formatted printing. A text is the list of its
-- characters before the NUL. An int is its bit pattern.
pub mod Decimal
pub mod Hex
pub mod Format
mod Tests
use mathlib.Core.List.{reverse}
use mathlib.Core.Option
use aneasyos.Base.{
  ℕ, zero, suc, ◌+◌, ◌-◌, ◌*◌, ◌/◌, ◌%◌, Option, none, some, Bool, true, false, ◌&&◌, ◌||◌, List,
  [], ◌∷◌, ◌++◌, map, ltb, leb, ◌==◌, if◌then◌else◌,
}
use aneasyos.Base.Lists.{length}
use aneasyos.Base.Options.{◌>>=◌}
use aneasyos.Base.Word.{word, half_word, minus, slt, sdiv}

-- `val % base` on int, with the sign of `val`
abbrev pub srem : ℕ → ℕ → ℕ
srem a n = if ltb a half_word then a % n else (word - (word - a) % n) % word

-- `(m < 10) ? (m + '0') : (m - 10 + 'A')` as a char
unfoldable pub digit_char : ℕ → ℕ
digit_char m = (if slt m 10 then m + b'0' else m + word - 10 + b'A') % 0x100

-- The loop `while(val)` of `i2a`: the digits from the last one on.
unfoldable pub i2a_digits : ℕ → ℕ → ℕ → Option (List ℕ)
i2a_digits zero val base = none
i2a_digits (suc fuel) val base =
    let rest =
      Option.map (λ s. digit_char (srem val base) ∷ s) (i2a_digits fuel (sdiv val base) base) in
    if val == 0 then some [] else rest

-- The swaps from both ends reverse the digits.
unfoldable pub i2a : ℕ → ℕ → ℕ → Option (List ℕ)
i2a fuel val base =
    if val == 0 then some (b'0' ∷ []) else Option.map reverse (i2a_digits fuel val base)

-- The eight nibbles `(val >> i*4) & 0xf` from the highest one on.
abbrev pub nibbles : ℕ → List ℕ
nibbles val =
    (val / 0x1000_0000 % 0x10)
    ∷ ((val / 0x100_0000 % 0x10)
        ∷ ((val / 0x10_0000 % 0x10)
            ∷ ((val / 0x1_0000 % 0x10)
                ∷ ((val / 0x1000 % 0x10)
                    ∷ ((val / 0x100 % 0x10) ∷ ((val / 0x10 % 0x10) ∷ ((val % 0x10) ∷ [])))))))

abbrev pub hex_char : ℕ → ℕ
hex_char c = if ltb c 10 then c + b'0' else c - 10 + b'A'

unfoldable pub u2a : ℕ → List ℕ
u2a val = b'0' ∷ (b'x' ∷ map hex_char (nibbles val))

-- The loop of `itoa`, which leaves out the zeros in front.
unfoldable pub itoa_digits : Bool → List ℕ → List ℕ
itoa_digits flag [] = []
itoa_digits flag (ch ∷ chs) =
    let shown = flag || ltb 0 ch in
    let rest = itoa_digits shown chs in
    if shown then (if ltb b'9' (ch + b'0') then ch + b'0' + 7 else ch + b'0') ∷ rest else rest

unfoldable pub itoa : ℕ → List ℕ
itoa num = b'0' ∷ (b'x' ∷ (if num == 0 then b'0' ∷ [] else itoa_digits false (nibbles num)))

-- The conversion `%d`: the negative number is negated, which leaves -2^31 as it is.
unfoldable pub print_int : ℕ → Option (List ℕ)
print_int m =
    if slt m 0 then Option.map (λ s. b'-' ∷ s) (i2a 11 ((word - m) % word) 10) else i2a 11 m 10

-- A text that ends at its first NUL.
abbrev pub until_nul : ℕ → List ℕ
until_nul c = if c == 0 then [] else c ∷ []

-- `inner_buf` has 1024 bytes; a text that does not fit in with its NUL is `none`.
abbrev pub in_inner_buf : List ℕ → Option (List ℕ)
in_inner_buf s = if ltb (length s) 1024 then some s else none

-- The text of a conversion in `inner_buf`, and the arguments that are left; `str` is the text at an
-- address. An unknown conversion leaves the text of the one before, and takes no argument.
unfoldable pub convert : (ℕ → List ℕ) → ℕ → List ℕ → List ℕ → Option (List ℕ × List ℕ)
convert str c inner args =
    if (c == b'c') || (c == b'x') || (c == b'd') || (c == b's')
    then elim args [
      | [] ↦ none
      | m ∷ rest ↦ do
        s ←
            if c == b'c'
            then some (until_nul (m % 0x100))
            else if c == b'x'
            then some (u2a m)
            else if c == b'd'
            then print_int m
            else in_inner_buf (str m)
        some (s, rest)
    ]
    else some (inner, args)

abbrev pub repeat : ℕ → ℕ → List ℕ
repeat zero c = []
repeat (suc n) c = c ∷ repeat n c

-- `strlen` of src/lib/string.c counts the NUL too.
unfoldable pub padded : ℕ → ℕ → List ℕ → List ℕ
padded cs align_nr inner =
    (if ltb (length inner + 1) align_nr then repeat (align_nr - (length inner + 1)) cs else [])
    ++ inner

-- Where `vsprintf` stands in the format: in plain text, behind `%`, or in the width.
pub data Place : Type 0 where
  plain : Place
  percent : Place
  width : ℕ → ℕ → Place

abbrev pub is_digit : ℕ → Bool
is_digit c = leb b'0' c && leb c b'9'

-- `none` is a format that ends within a conversion, which `vsprintf` runs past, an argument that is
-- missing, or a text that is too long for `inner_buf`.
unfoldable pub vsprintf : (ℕ → List ℕ) → Place → List ℕ → List ℕ → List ℕ → Option (List ℕ)
vsprintf str plain [] inner args = some []
vsprintf str percent [] inner args = none
vsprintf str (width cs n) [] inner args = none
vsprintf str plain (c ∷ fmt) inner args =
    let after = vsprintf str percent fmt inner args in
    let copied = Option.map (λ s. c ∷ s) (vsprintf str plain fmt inner args) in
    if c == b'%' then after else copied
vsprintf str percent (c ∷ fmt) inner args =
    let literal = Option.map (λ s. c ∷ s) (vsprintf str plain fmt inner args) in
    let zeros = vsprintf str (width b'0' 0) fmt inner args in
    let digit = vsprintf str (width b' ' (c - b'0')) fmt inner args in
    let conversion = do
      r ← convert str c inner args
      s ← vsprintf str plain fmt r.0 r.1
      some (padded b' ' 0 r.0 ++ s)
    in if c == b'%'
      then literal
      else if c == b'0'
      then zeros
      else if is_digit c
      then digit
      else conversion
vsprintf str (width cs n) (c ∷ fmt) inner args =
    let digit = vsprintf str (width cs (n * 10 + (c - b'0'))) fmt inner args in
    let conversion = do
      r ← convert str c inner args
      s ← vsprintf str plain fmt r.0 r.1
      some (padded cs n r.0 ++ s)
    in if is_digit c then digit else conversion
