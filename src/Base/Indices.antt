-- ===== src/Base/Indices.antt =====
-- Lists of distinct indices of a table: such a list is no longer than the table.
use Prim.Native.Nat.{ℕ, zero, suc, ◌<◌, ◌≤◌}
use mathlib.Core.Path.{◌≡◌, refl, sym, ap, subst}
use mathlib.Core.Logic.{◌≢◌, ◌⊎◌, inl, inr}
use mathlib.Core.List.{List, [], ◌∷◌, ◌++◌, append_assoc}
use native.Mathlib.Omega.{arith}
use native.Mathlib.Decide.{ℕ_discrete}
use aneasyos.Base.Tests.{◌==◌, if◌then◌else◌, Bool-cases}
use aneasyos.Base.Lists.{length, All}

abbrev pub IsIn : ℕ → List ℕ → Type 0
IsIn a [] = ⊥
IsIn a (x ∷ xs) = (a ≡ x) ⊎ IsIn a xs

abbrev pub Distinct : List ℕ → Type 0
Distinct [] = Unit
Distinct (x ∷ xs) = (¬ IsIn x xs) × Distinct xs

abbrev pub Below : ℕ → List ℕ → Type 0
Below n = All (λ x. x < n)

without : ℕ → List ℕ → List ℕ
without n [] = []
without n (x ∷ xs) = if x == n then without n xs else x ∷ without n xs

IsIn-without : (a n : ℕ) (xs : List ℕ) → IsIn a (without n xs) → IsIn a xs
unfolding without
IsIn-without a n [] m = m
IsIn-without a n (x ∷ xs) m = ground (arith, IsIn-without a n xs)

Distinct-without : (n : ℕ) (xs : List ℕ) → Distinct xs → Distinct (without n xs)
unfolding without
Distinct-without n [] d = tt
Distinct-without n (x ∷ xs) d = elim (Bool-cases (x == n)) [
  | inl e ↦ ground (arith, e, Distinct-without n xs d.1)
  | inr e ↦ ground (
    arith,
    e,
    λ (m : IsIn x (without n xs)). d.0 (IsIn-without x n xs m),
    Distinct-without n xs d.1,
  )
]

Below-without : (n : ℕ) (xs : List ℕ) → Below (suc n) xs → Below n (without n xs)
unfolding without
Below-without n [] b = tt
Below-without n (x ∷ xs) b = ground (arith, Below-without n xs b.1)

length-without_absent : (n : ℕ) (xs : List ℕ) → ¬ IsIn n xs → length (without n xs) ≡ length xs
unfolding without
length-without_absent n [] out = refl
length-without_absent n (x ∷ xs) out =
    ground (arith, length-without_absent n xs (λ m. out (inr m)), λ (e : n ≡ x). out (inl e))

length-without : (n : ℕ) (xs : List ℕ) → Distinct xs → length xs ≤ suc (length (without n xs))
unfolding without
length-without n [] d = omega arith
length-without n (x ∷ xs) d = elim (ℕ_discrete x n) [
  | yes e ↦ ground (arith, length-without_absent x xs d.0)
  | no ne ↦ ground (arith, length-without n xs d.1)
]

pub length-le-bound : (n : ℕ) (xs : List ℕ) → Distinct xs → Below n xs → length xs ≤ n
length-le-bound zero [] d b = omega arith
length-le-bound zero (x ∷ xs) d b = absurd (omega arith)
length-le-bound (suc n) xs d b = omega (
  arith,
  length-without n xs d,
  length-le-bound n (without n xs) (Distinct-without n xs d) (Below-without n xs b),
)

pub IsIn-dec : (a : ℕ) (xs : List ℕ) → IsIn a xs ⊎ (¬ IsIn a xs)
IsIn-dec a [] = inr (λ m. m)
IsIn-dec a (x ∷ xs) = elim (ℕ_discrete a x) [
  | yes e ↦ inl (inl e)
  | no ne ↦ elim (IsIn-dec a xs) [
    | inl m ↦ inl (inr m)
    | inr out ↦ inr (elim [ inl e ↦ ne e | inr m ↦ out m ])
  ]
]

pub IsIn-append : (a : ℕ) (xs ys : List ℕ) → IsIn a (xs ++ ys) → IsIn a xs ⊎ IsIn a ys
IsIn-append a [] ys m = inr m
IsIn-append a (x ∷ xs) ys (inl e) = inl (inl e)
IsIn-append a (x ∷ xs) ys (inr m) = elim (IsIn-append a xs ys m) [
  | inl l ↦ inl (inr l)
  | inr r ↦ inr r
]

pub append-IsIn_left : (a : ℕ) (xs ys : List ℕ) → IsIn a xs → IsIn a (xs ++ ys)
append-IsIn_left a [] ys m = absurd m
append-IsIn_left a (x ∷ xs) ys (inl e) = inl e
append-IsIn_left a (x ∷ xs) ys (inr m) = inr (append-IsIn_left a xs ys m)

pub append-IsIn_right : (a : ℕ) (xs ys : List ℕ) → IsIn a ys → IsIn a (xs ++ ys)
append-IsIn_right a [] ys m = m
append-IsIn_right a (x ∷ xs) ys m = inr (append-IsIn_right a xs ys m)

pub Distinct-snoc : (xs : List ℕ) (a : ℕ) → Distinct xs → ¬ IsIn a xs → Distinct (xs ++ (a ∷ []))
Distinct-snoc [] a d out = ((λ m. m), tt)
Distinct-snoc (x ∷ xs) a d out = (fresh, Distinct-snoc xs a d.1 (λ m. out (inr m)))
  where
    apart : IsIn x xs ⊎ IsIn x (a ∷ []) → ⊥
    apart (inl m) = d.0 m
    apart (inr (inl e)) = out (inl (ground (arith, e)))
    apart (inr (inr m)) = m

    fresh : ¬ IsIn x (xs ++ (a ∷ []))
    fresh m = apart (IsIn-append x xs (a ∷ []) m)

-- In a list of distinct numbers, those on both sides of `p`.
pub Distinct-middle :
    (c p : ℕ) (ps qs : List ℕ)
    → Distinct (c ∷ (ps ++ (p ∷ qs)))
    → Distinct (c ∷ ps)
      × (¬ IsIn p (c ∷ ps))
      × (¬ IsIn p qs)
      × ((a : ℕ) → IsIn a qs → ¬ IsIn a (c ∷ ps))
      × Distinct (c ∷ ((ps ++ (p ∷ [])) ++ qs))
Distinct-middle c p [] qs d = (
  ((λ m. m), tt),
  elim [ inl e ↦ d.0 (inl (sym e)) | inr m ↦ m ],
  d.1.0,
  λ a m. elim [ inl e ↦ d.0 (inr (subst (λ (z : ℕ). IsIn z qs) e m)) | inr no_one ↦ no_one ],
  d,
)
Distinct-middle c p (q ∷ ps) qs d =
    let (front, out, behind, others, all) = Distinct-middle q p ps qs d.1 in
    let c_apart : (a : ℕ) → IsIn a (p ∷ qs) → a ≢ c = λ a m e.
      d.0 (append-IsIn_right c (q ∷ ps) (p ∷ qs) (subst (λ (z : ℕ). IsIn z (p ∷ qs)) e m)) in
    (
      ((λ m. d.0 (append-IsIn_left c (q ∷ ps) (p ∷ qs) m)), front),
      elim [ inl e ↦ c_apart p (inl refl) e | inr m ↦ out m ],
      behind,
      λ a m. elim [ inl e ↦ c_apart a (inr m) e | inr m' ↦ others a m m' ],
      (
        subst (λ (l : List ℕ). ¬ IsIn c l)
            (ap (λ (l : List ℕ). q ∷ l) (sym (append_assoc ps (p ∷ []) qs))) d.0,
        all,
      ),
    )
