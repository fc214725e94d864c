-- ===== src/Base/Lists.antt =====
-- Lists measured and indexed by native numbers, under the library's names.
use Prim.Native.Nat.{ℕ, zero, suc, ◌+◌, ◌-◌}
use mathlib.Core.Path.{◌≡◌, refl, ap}
use mathlib.Core.List.{List, [], ◌∷◌, ◌++◌}
use mathlib.Core.Logic.{◌↔◌}
use mathlib.Core.Bool.{Bool, true, false, ◌&&◌}
use aneasyos.Base.Tests.{◌==◌}
use native.Mathlib.Omega.{arith}

module _ {ℓ} {A : Type ℓ} where
  abbrev pub length : List A → ℕ
  length [] = 0
  length (x ∷ xs) = suc (length xs)

  abbrev pub get_or : List A → ℕ → A → A
  get_or [] i d = d
  get_or (x ∷ xs) zero d = x
  get_or (x ∷ xs) (suc i) d = get_or xs i d

  abbrev pub drop : ℕ → List A → List A
  drop zero xs = xs
  drop (suc n) [] = []
  drop (suc n) (x ∷ xs) = drop n xs

  abbrev pub take : ℕ → List A → List A
  take zero xs = []
  take (suc n) [] = []
  take (suc n) (x ∷ xs) = x ∷ take n xs

  pub length-append : (xs ys : List A) → length (xs ++ ys) ≡ length xs + length ys
  length-append [] ys = omega arith
  length-append (x ∷ xs) ys = omega (arith, length-append xs ys)

-- A property that each entry of a list has; it computes to a tuple.
abbrev pub All {κ ℓ} : {A : Type ℓ} (P : A → Type κ) → List A → Type κ
All P [] = Unit
All P (head ∷ tail) = P head × All P tail

module _ {ℓ} {A : Type ℓ} where
  pub get_or-drop : (k j : ℕ) (xs : List A) (d : A) → get_or (drop k xs) j d ≡ get_or xs (k + j) d
  get_or-drop zero j xs d = ap (λ (i : ℕ). get_or xs i d) (omega arith)
  get_or-drop (suc k) j [] d = refl
  get_or-drop (suc k) j (x ∷ xs) d =
      let at : suc k + j ≡ suc (k + j) = omega arith in rw at (get_or-drop k j xs d)

  pub length-drop : (k : ℕ) (xs : List A) → length (drop k xs) ≡ length xs - k
  length-drop zero xs = omega arith
  length-drop (suc k) [] = omega arith
  length-drop (suc k) (x ∷ xs) = omega (arith, length-drop k xs)

  pub drop_one : (k : ℕ) (xs : List A) → drop 1 (drop k xs) ≡ drop (suc k) xs
  drop_one zero [] = refl
  drop_one zero (x ∷ xs) = refl
  drop_one (suc k) [] = refl
  drop_one (suc k) (x ∷ xs) = drop_one k xs

-- Two texts are the same.
abbrev pub same_text : List ℕ → List ℕ → Bool
same_text [] [] = true
same_text [] (d ∷ t) = false
same_text (c ∷ s) [] = false
same_text (c ∷ s) (d ∷ t) = (c == d) && same_text s t

pub same_text_exact : (s t : List ℕ) → (same_text s t ≡ true) ↔ (s ≡ t)
same_text_exact [] [] = ground arith
same_text_exact [] (d ∷ t) = ground arith
same_text_exact (c ∷ s) [] = ground arith
same_text_exact (c ∷ s) (d ∷ t) = ground (arith, same_text_exact s t)
