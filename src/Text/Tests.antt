-- ===== src/Text/Tests.antt =====
-- src/lib/string.c and src/lib/klib.c: the theorems at small memories.
use aneasyos.Base.{ℕ, ◌≡◌, refl, ◌↔◌, some, List, [], ◌∷◌, arith, update}
use aneasyos.Text.{Memory, strcmp, strncmp}
use aneasyos.Text.Strings.{IsString}
use aneasyos.Text.Compare.{strings_compared}

-- "ab" at 10 and "a" at 20
abbrev page : Memory
page = update (update (update (λ a. 0) 10 b'a') 11 b'b') 20 b'a'

ab-IsString : IsString page 10 (b'a' ∷ b'b' ∷ [])
ab-IsString =
    (refl, (λ e. absurd (omega (arith, e))), (refl, (λ e. absurd (omega (arith, e))), refl))

a-IsString : IsString page 20 (b'a' ∷ [])
a-IsString = (refl, (λ e. absurd (omega (arith, e))), refl)

abbrev ab : List ℕ
ab = b'a' ∷ b'b' ∷ []

abbrev a : List ℕ
a = b'a' ∷ []

strings_compared_example :
    ((r : ℕ) × (strcmp 3 page 10 20 ≡ some r) × ((r ≡ 0) ↔ (ab ≡ a)))
    × ((strncmp 1 page 10 20 ≡ 0) ↔ (ab ≡ a))
strings_compared_example =
    strings_compared 1 page 10 20 (b'a' ∷ b'b' ∷ []) (b'a' ∷ []) (λ e. absurd (omega (arith, e)))
      (λ e. absurd (omega (arith, e))) ab-IsString a-IsString (omega arith) (omega arith)
