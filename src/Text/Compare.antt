-- ===== src/Text/Compare.antt =====
-- src/lib/klib.c: comparing strings and blocks.
use aneasyos.Base.{
  ℕ, zero, suc, ◌+◌, ◌<◌, ◌≡◌, refl, ap, sym, ◌∙◌, ◌≢◌, ◌⊎◌, inl, inr, ◌↔◌, some, List, [], ◌∷◌,
  arith, ℕ_discrete, false, ◌==◌, ◌||◌,
}
use aneasyos.Base.Lists.{length, take, All}
use aneasyos.Base.Word.{sub32}
use aneasyos.Text.{Memory, signed, strcmp_loop, strcmp, strncmp_loop, strncmp}
use aneasyos.Text.Strings.{IsString}

differs : (a b : ℕ) → a < 256 → b < 256 → (sub32 (signed a) (signed b) ≡ 0) ↔ (a ≡ b)
differs a b h l = ground arith

stops :
    (fuel : ℕ) (mem : Memory) (p1 p2 : ℕ)
    → mem p1 ≢ mem p2
    → strcmp_loop (suc fuel) mem p1 p2 ≡ some (sub32 (signed (mem p1)) (signed (mem p2)))
unfolding strcmp_loop
stops fuel mem p1 p2 ne = ground arith

goes_on :
    (fuel : ℕ) (mem : Memory) (p1 p2 : ℕ)
    → mem p1 ≡ mem p2
    → mem p1 ≢ 0
    → strcmp_loop (suc fuel) mem p1 p2 ≡ strcmp_loop fuel mem (p1 + 1) (p2 + 1)
unfolding strcmp_loop
goes_on fuel mem p1 p2 e ne = ground arith

-- The result at two places that differ.
apart :
    (fuel : ℕ) (mem : Memory) (p1 p2 c d : ℕ) (s t : List ℕ)
    → mem p1 ≡ c
    → mem p2 ≡ d
    → c < 256
    → d < 256
    → c ≢ d
    → s ≢ t
    → (r : ℕ) × (strcmp_loop (suc fuel) mem p1 p2 ≡ some r) × ((r ≡ 0) ↔ (s ≡ t))
apart fuel mem p1 p2 c d s t a b hc hd ne other = (
  sub32 (signed c) (signed d),
  stops fuel mem p1 p2 (rw (a, b) ne) ∙ rw (a, b),
  ((λ z. absurd (ne ((differs c d hc hd).0 z))), (λ z. absurd (other z))),
)

-- For two strings of bytes `strcmp_loop` returns, with fuel for the first one, and its result is 0
-- exactly if the strings are equal.
strcmp_loop_equal :
    (mem : Memory) (p1 p2 : ℕ) (s t : List ℕ)
    → IsString mem p1 s
    → IsString mem p2 t
    → All (λ c. c < 256) s
    → All (λ c. c < 256) t
    → (r : ℕ) × (strcmp_loop (suc (length s)) mem p1 p2 ≡ some r) × ((r ≡ 0) ↔ (s ≡ t))
unfolding strcmp_loop
strcmp_loop_equal mem p1 p2 [] [] a b h l = (0, ground (arith, a, b), ((λ z. refl), (λ z. refl)))
strcmp_loop_equal mem p1 p2 [] (d ∷ t) a (b, nd, bs) h (ld, ls) =
    apart 0 mem p1 p2 0 d [] (d ∷ t) a b (omega arith) ld (λ e. nd (sym e)) (λ e. ground (arith, e))
strcmp_loop_equal mem p1 p2 (c ∷ s) [] (a, nc, more) b (hc, hs) l =
    apart (suc (length s)) mem p1 p2 c 0 (c ∷ s) [] a b hc (omega arith) nc (λ e. ground (arith, e))
strcmp_loop_equal mem p1 p2 (c ∷ s) (d ∷ t) (a, nc, more) (b, nd, bs) (hc, hs) (ld, ls) =
    elim (ℕ_discrete c d) [
      | no ne ↦
          apart (suc (length s)) mem p1 p2 c d (c ∷ s) (d ∷ t) a b hc ld ne
            (λ e. ground (arith, e, ne))
      | yes e ↦
          let (r, f, (to, from)) = strcmp_loop_equal mem (p1 + 1) (p2 + 1) s t more bs hs ls in
          (
            r,
            goes_on (suc (length s)) mem p1 p2 (a ∙ e ∙ sym b) (λ z. nc (sym a ∙ z)) ∙ f,
            ((λ z. cc (e, to z)), (λ z. from (ground (arith, z)))),
          )
    ]

-- Where two characters differ, or both are the NUL, `strncmp_loop` ends with their difference.
strncmp_stops :
    (n : ℕ) (mem : Memory) (p1 p2 c d : ℕ)
    → mem p1 ≡ c
    → mem p2 ≡ d
    → (c ≢ d) ⊎ (c ≡ 0)
    → strncmp_loop n mem p1 p2 ≡ sub32 (signed c) (signed d)
unfolding strncmp_loop
strncmp_stops zero mem p1 p2 c d a b out = rw (a, b)
strncmp_stops (suc n) mem p1 p2 c d a b (inl ne) = rw (a, b) (ground arith)
strncmp_stops (suc n) mem p1 p2 c d a b (inr z) = rw (a, b) (ground arith)

strncmp_zero :
    (mem : Memory) (p1 p2 c d : ℕ)
    → mem p1 ≡ c
    → mem p2 ≡ d
    → strncmp_loop 0 mem p1 p2 ≡ sub32 (signed c) (signed d)
unfolding strncmp_loop
strncmp_zero mem p1 p2 c d a b = rw (a, b) refl

strncmp_goes_on :
    (n : ℕ) (mem : Memory) (p1 p2 c : ℕ)
    → mem p1 ≡ c
    → mem p2 ≡ c
    → c ≢ 0
    → strncmp_loop (suc n) mem p1 p2 ≡ strncmp_loop n mem (p1 + 1) (p2 + 1)
unfolding strncmp_loop
strncmp_goes_on n mem p1 p2 c a b ne = rw (a, b) (ground arith)

strncmp_apart :
    (n : ℕ) (mem : Memory) (p1 p2 c d : ℕ) (s t : List ℕ)
    → mem p1 ≡ c
    → mem p2 ≡ d
    → c < 256
    → d < 256
    → c ≢ d
    → s ≢ t
    → (strncmp_loop n mem p1 p2 ≡ 0) ↔ (s ≡ t)
strncmp_apart n mem p1 p2 c d s t a b hc hd ne other = (
  (λ z. absurd (ne ((differs c d hc hd).0 (sym (strncmp_stops n mem p1 p2 c d a b (inl ne)) ∙ z)))),
  (λ z. absurd (other z)),
)

-- `strncmp_loop` compares one character more than its size says.
strncmp_loop-take :
    (n : ℕ) (mem : Memory) (p1 p2 : ℕ) (s t : List ℕ)
    → IsString mem p1 s
    → IsString mem p2 t
    → All (λ c. c < 256) s
    → All (λ c. c < 256) t
    → (strncmp_loop n mem p1 p2 ≡ 0) ↔ (take (suc n) s ≡ take (suc n) t)
strncmp_loop-take n mem p1 p2 [] [] a b h l =
    ((λ z. refl), (λ z. strncmp_stops n mem p1 p2 0 0 a b (inr refl)))
strncmp_loop-take n mem p1 p2 [] (d ∷ t) a (b, nd, bs) h (ld, ls) =
    strncmp_apart n mem p1 p2 0 d [] (d ∷ take n t) a b (omega arith) ld (λ e. nd (sym e))
      (λ e. ground (arith, e))
strncmp_loop-take n mem p1 p2 (c ∷ s) [] (a, nc, more) b (hc, hs) l =
    strncmp_apart n mem p1 p2 c 0 (c ∷ take n s) [] a b hc (omega arith) nc (λ e. ground (arith, e))
strncmp_loop-take zero mem p1 p2 (c ∷ s) (d ∷ t) (a, nc, more) (b, nd, bs) (hc, hs) (ld, ls) = (
  (λ z. ap (λ x. x ∷ []) ((differs c d hc ld).0 (sym (strncmp_zero mem p1 p2 c d a b) ∙ z))),
  (λ z. strncmp_zero mem p1 p2 c d a b ∙ (differs c d hc ld).1 (ground (arith, z))),
)
strncmp_loop-take (suc n) mem p1 p2 (c ∷ s) (d ∷ t) (a, nc, more) (b, nd, bs) (hc, hs) (ld, ls) =
    elim (ℕ_discrete c d) [
      | no ne ↦
          strncmp_apart (suc n) mem p1 p2 c d (c ∷ take (suc n) s) (d ∷ take (suc n) t) a b hc ld ne
            (λ e. ground (arith, e, ne))
      | yes e ↦
          let (to, from) = strncmp_loop-take n mem (p1 + 1) (p2 + 1) s t more bs hs ls in
          let on = strncmp_goes_on n mem p1 p2 c a (b ∙ sym e) nc in
          ((λ z. cc (e, to (sym on ∙ z))), (λ z. on ∙ from (ground (arith, z))))
    ]

-- For two strings of bytes at addresses other than null `strcmp` returns, with fuel for the first one,
-- and its result is 0 exactly if the strings are equal; the result of `strncmp` is 0 exactly if the
-- strings agree on one character more than the size that it is given.
pub strings_compared :
    (size : ℕ) (mem : Memory) (p1 p2 : ℕ) (s t : List ℕ)
    → p1 ≢ 0
    → p2 ≢ 0
    → IsString mem p1 s
    → IsString mem p2 t
    → All (λ c. c < 256) s
    → All (λ c. c < 256) t
    → ((r : ℕ) × (strcmp (suc (length s)) mem p1 p2 ≡ some r) × ((r ≡ 0) ↔ (s ≡ t)))
      × ((strncmp size mem p1 p2 ≡ 0) ↔ (take (suc size) s ≡ take (suc size) t))
unfolding strcmp strncmp
strings_compared size mem p1 p2 s t here there a b h l =
    let given : ((p1 == 0) || (p2 == 0)) ≡ false = ground (arith, here, there) in
    rw given (strcmp_loop_equal mem p1 p2 s t a b h l, strncmp_loop-take size mem p1 p2 s t a b h l)
