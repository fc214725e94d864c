-- ===== src/Numbers/Decimal.antt =====
-- src/kernel/vsprintf.c: the decimal digits of a number are read back as the number.
use mathlib.Core.List.{reverse, reverse_aux}
use mathlib.Core.Option
use aneasyos.Base.{
  ◌⊎◌, inl, inr, ℕ, zero, suc, ◌+◌, ◌-◌, ◌*◌, ◌/◌, ◌%◌, ◌<◌, ◌≤◌, ◌≡◌, ◌≢◌, refl, sym, ap, ◌∙◌,
  some, List, [], ◌∷◌, dec_lt, true, false, arith, ◌==◌, if◌then◌else◌,
}
use aneasyos.Base.Lists.{All}
use aneasyos.Base.Word.{word, half_word, slt, sdiv}
use aneasyos.Numbers.{srem, digit_char, i2a_digits, i2a, print_int}

-- Reading decimal digits, the first one first.
abbrev pub read_from : ℕ → List ℕ → ℕ
read_from n [] = n
read_from n (c ∷ s) = read_from (n * 10 + (c - b'0')) s

abbrev pub IsDigit : ℕ → Type 0
IsDigit c = (b'0' ≤ c) × (c ≤ b'9')

-- The value of digits, the last one first.
abbrev value : List ℕ → ℕ
value [] = 0
value (c ∷ s) = (c - b'0') + 10 * value s

read_from-reverse_aux : (s t : List ℕ) → read_from 0 (reverse_aux s t) ≡ read_from (value s) t
read_from-reverse_aux [] t = refl
read_from-reverse_aux (c ∷ s) t =
    read_from-reverse_aux s (c ∷ t) ∙ ap (λ (n : ℕ). read_from n t) (omega arith)

All-reverse_aux : (s t : List ℕ) → All IsDigit s → All IsDigit t → All IsDigit (reverse_aux s t)
All-reverse_aux [] t ds dt = dt
All-reverse_aux (c ∷ s) t (d, ds) dt = All-reverse_aux s (c ∷ t) ds (d, dt)

abbrev pub power : ℕ → ℕ
power zero = 1
power (suc d) = 10 * power d

i2a_digits_step :
    (fuel val : ℕ)
    → 0 < val
    → val < half_word
    → i2a_digits (suc fuel) val 10
      ≡ Option.map (λ s. (b'0' + val % 10) ∷ s) (i2a_digits fuel (val / 10) 10)
unfolding i2a_digits
i2a_digits_step fuel val pos small =
    let more : (val == 0) ≡ false = ground (arith, pos) in
    let quotient : sdiv val 10 ≡ val / 10 = ground (arith, small) in
    let digit : digit_char (srem val 10) ≡ b'0' + val % 10 =
      unfold digit_char in ground (arith, small) in
    rw (more, quotient, digit) refl

-- The digits of a number below 10^d, with fuel for them.
i2a_digits-value :
    (d val : ℕ)
    → val < power d
    → val < half_word
    → (s : List ℕ) × (i2a_digits (suc d) val 10 ≡ some s) × (value s ≡ val) × All IsDigit s
i2a_digits-value zero val h small =
    let none_left : val ≡ 0 = omega (arith, h) in
    ([], unfold i2a_digits in rw none_left refl, sym none_left, tt)
i2a_digits-value (suc d) zero h small = ([], unfold i2a_digits in refl, refl, tt)
i2a_digits-value (suc d) (suc val) h small =
    let (s, run, back, digits) =
      i2a_digits-value d (suc val / 10) (omega (arith, h)) (omega (arith, small)) in
    let c = b'0' + suc val % 10 in
    (
      c ∷ s,
      i2a_digits_step (suc d) (suc val) (omega arith) small ∙ ap (Option.map (λ t. c ∷ t)) run,
      omega (arith, back),
      ((omega arith, omega arith), digits),
    )

-- `i2a` of a positive number, with fuel for its digits, gives its decimal digits.
i2a-reads :
    (val : ℕ)
    → val < half_word
    → (s : List ℕ) × (i2a 11 val 10 ≡ some s) × (read_from 0 s ≡ val) × All IsDigit s
unfolding i2a
i2a-reads zero h = (b'0' ∷ [], refl, refl, ((omega arith, omega arith), tt))
i2a-reads (suc val) h =
    let more : (suc val == 0) ≡ false = ground arith in
    let (s, run, back, digits) = i2a_digits-value 10 (suc val) (omega (arith, h)) h in
    (
      reverse s,
      rw (more, run) refl,
      read_from-reverse_aux s [] ∙ back,
      All-reverse_aux s [] digits tt,
    )

-- The value of a printed int: a minus sign negates.
abbrev pub read_int : List ℕ → ℕ
read_int [] = 0
read_int (c ∷ s) = if c == b'-' then (word - read_from 0 s) % word else read_from 0 (c ∷ s)

read_digits : (s : List ℕ) → All IsDigit s → read_int s ≡ read_from 0 s
read_digits [] d = refl
read_digits (c ∷ s) ((lo, hi), d) =
    let plus : (c == b'-') ≡ false = ground (arith, lo) in rw plus refl

-- Decimal digits of a number that is not negative, or a minus sign and those of its negation.
abbrev pub IsDecimal : ℕ → List ℕ → Type 0
IsDecimal m s =
    ((m < half_word) × All IsDigit s × (read_from 0 s ≡ m))
    ⊎ ((t : List ℕ) × (s ≡ b'-' ∷ t) × All IsDigit t × (read_from 0 t ≡ word - m))

pub print_int-IsDecimal :
    (m : ℕ) → m < word → m ≢ half_word → (s : List ℕ) × (print_int m ≡ some s) × IsDecimal m s
unfolding print_int
print_int-IsDecimal m h ne = elim (dec_lt m half_word) [
  | yes small ↦
      let plus : slt m 0 ≡ false = ground (arith, small) in
      let (s, run, back, digits) = i2a-reads m small in
      (s, rw (plus, run) refl, inl (small, digits, back))
  | no large ↦
      let below : slt m 0 ≡ true = ground (arith, large, h) in
      let (s, run, back, digits) = i2a-reads ((word - m) % word) (omega (arith, large, h, ne)) in
      (b'-' ∷ s, rw (below, run) refl, inr (s, refl, digits, back ∙ omega (arith, large, h)))
]

pub print_int-reads :
    (m : ℕ) → m < word → m ≢ half_word → (s : List ℕ) × (print_int m ≡ some s) × (read_int s ≡ m)
unfolding print_int
print_int-reads m h ne = elim (dec_lt m half_word) [
  | yes small ↦
      let plus : slt m 0 ≡ false = ground (arith, small) in
      let (s, run, back, digits) = i2a-reads m small in
      (s, rw (plus, run) refl, read_digits s digits ∙ back)
  | no large ↦
      let below : slt m 0 ≡ true = ground (arith, large, h) in
      let (s, run, back, digits) = i2a-reads ((word - m) % word) (omega (arith, large, h, ne)) in
      (b'-' ∷ s, rw (below, run) refl, rw back (omega (arith, large, h)))
]
