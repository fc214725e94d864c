-- ===== src/Numbers/Hex.antt =====
-- src/kernel/vsprintf.c and src/lib/klib.c: the hexadecimal digits of a number are read back as the number.
use aneasyos.Base.{
  ℕ, ◌+◌, ◌-◌, ◌*◌, ◌<◌, ◌≡◌, ◌≢◌, ◌⊎◌, refl, ap, ◌∙◌, inl, inr, List, [], ◌∷◌, map, true, false,
  arith, ltb, leb, ◌==◌, if◌then◌else◌, Bool-cases,
}
use aneasyos.Base.Lists.{All, length}
use aneasyos.Base.Word.{word}
use aneasyos.Numbers.{nibbles, hex_char, u2a, itoa_digits, itoa}

-- Reading hexadecimal digits, of capital letters.
abbrev pub read_digit : ℕ → ℕ
read_digit c = if leb c b'9' then c - b'0' else c - b'A' + 10

abbrev pub read_hex_from : ℕ → List ℕ → ℕ
read_hex_from n [] = n
read_hex_from n (c ∷ s) = read_hex_from (n * 16 + read_digit c) s

-- After the prefix 0x.
abbrev pub read_hex : List ℕ → ℕ
read_hex [] = 0
read_hex (z ∷ []) = 0
read_hex (z ∷ (x ∷ s)) = read_hex_from 0 s

abbrev value : ℕ → List ℕ → ℕ
value n [] = n
value n (c ∷ s) = value (n * 16 + c) s

abbrev Nibbles : List ℕ → Type 0
Nibbles = All (λ c. c < 16)

nibbles-value : (val : ℕ) → val < word → (value 0 (nibbles val) ≡ val) × Nibbles (nibbles val)
nibbles-value val h = (
  omega (arith, h),
  (
    omega arith,
    (
      omega arith,
      (omega arith, (omega arith, (omega arith, (omega arith, (omega arith, (omega arith, tt)))))),
    ),
  ),
)

read_hex-hex_char : (n : ℕ) (s : List ℕ) → Nibbles s → read_hex_from n (map hex_char s) ≡ value n s
read_hex-hex_char n [] d = refl
read_hex-hex_char n (c ∷ s) (h, d) =
    let digit : read_digit (hex_char c) ≡ c = ground (arith, h) in
    ap (λ (k : ℕ). read_hex_from (n * 16 + k) (map hex_char s)) digit
    ∙ read_hex-hex_char (n * 16 + c) s d

-- Once a digit is shown, all are; before, the zeros that are left out have no value.
itoa_shown : (n : ℕ) (s : List ℕ) → Nibbles s → read_hex_from n (itoa_digits true s) ≡ value n s
unfolding itoa_digits
itoa_shown n [] d = refl
itoa_shown n (c ∷ s) (h, d) =
    let digit : read_digit (if ltb b'9' (c + b'0') then c + b'0' + 7 else c + b'0') ≡ c =
      ground (arith, h) in
    ap (λ (k : ℕ). read_hex_from (n * 16 + k) (itoa_digits true s)) digit
    ∙ itoa_shown (n * 16 + c) s d

itoa_hidden : (s : List ℕ) → Nibbles s → read_hex_from 0 (itoa_digits false s) ≡ value 0 s
unfolding itoa_digits
itoa_hidden [] d = refl
itoa_hidden (c ∷ s) (h, d) = elim (Bool-cases (ltb 0 c)) [
  | inl e ↦
      let digit : read_digit (if ltb b'9' (c + b'0') then c + b'0' + 7 else c + b'0') ≡ c =
        ground (arith, h) in
      rw e (
        ap (λ (k : ℕ). read_hex_from (0 * 16 + k) (itoa_digits true s)) digit
        ∙ itoa_shown (0 * 16 + c) s d)
  | inr e ↦ let none_yet : 0 * 16 + c ≡ 0 = ground (arith, e) in rw (e, none_yet) (itoa_hidden s d)
]

-- The digits without zeros in front: none, or the first of them is not 0.
abbrev pub NoZeros : List ℕ → Type 0
NoZeros [] = Unit
NoZeros (c ∷ s) = c ≢ b'0'

itoa_hidden-NoZeros : (s : List ℕ) → Nibbles s → NoZeros (itoa_digits false s)
unfolding itoa_digits
itoa_hidden-NoZeros [] d = tt
itoa_hidden-NoZeros (c ∷ s) (h, d) = elim (Bool-cases (ltb 0 c)) [
  | inl e ↦
      let first : (if ltb b'9' (c + b'0') then c + b'0' + 7 else c + b'0') ≢ b'0' =
        λ z. ground (arith, h, e, z) in
      rw e first
  | inr e ↦ rw e (itoa_hidden-NoZeros s d)
]

-- What stands behind the prefix 0x.
abbrev pub digits_of : List ℕ → List ℕ
digits_of [] = []
digits_of (z ∷ []) = []
digits_of (z ∷ (x ∷ s)) = s

pub hex-reads :
    (val : ℕ)
    → val < word
    → (read_hex (u2a val) ≡ val)
      × (u2a val ≡ b'0' ∷ (b'x' ∷ digits_of (u2a val)))
      × (length (digits_of (u2a val)) ≡ 8)
      × (read_hex (itoa val) ≡ val)
      × (itoa val ≡ b'0' ∷ (b'x' ∷ digits_of (itoa val)))
      × ((digits_of (itoa val) ≡ b'0' ∷ []) ⊎ NoZeros (digits_of (itoa val)))
unfolding u2a itoa
hex-reads val h =
    let (back, digits) = nibbles-value val h in
    (
      read_hex-hex_char 0 (nibbles val) digits ∙ back,
      refl,
      refl,
      elim (Bool-cases (val == 0)) [
        | inl e ↦ rw e (ground (arith, e))
        | inr e ↦ rw e (itoa_hidden (nibbles val) digits ∙ back)
      ],
      refl,
      elim (Bool-cases (val == 0)) [
        | inl e ↦ rw e (inl refl)
        | inr e ↦ rw e (inr (itoa_hidden-NoZeros (nibbles val) digits))
      ],
    )
