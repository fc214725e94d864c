-- ===== src/Text/Strings.antt =====
-- src/lib/string.c and src/lib/klib.c: copying and joining strings.
use aneasyos.Base.{
  ℕ, suc, ◌+◌, ◌<◌, ◌≤◌, ◌≡◌, refl, ap, subst, ◌∙◌, ◌≢◌, ◌⊎◌, inl, some, false, List, [], ◌∷◌, ◌++◌,
  arith, ◌==◌, ◌||◌, update, update_self, update_ne,
}
use aneasyos.Base.Lists.{length}
use aneasyos.Text.{Memory, strcpy, strlen, find_end, strcat}

-- At `p` stands the string `s` with its NUL.
abbrev pub IsString : Memory → ℕ → List ℕ → Type 0
IsString mem p [] = mem p ≡ 0
IsString mem p (c ∷ s) = (mem p ≡ c) × (c ≢ 0) × IsString mem (p + 1) s

-- A write outside of a string leaves it.
pub IsString-update :
    (mem : Memory) (p a v : ℕ) (s : List ℕ)
    → (a < p) ⊎ (p + length s < a)
    → IsString mem p s
    → IsString (update mem a v) p s
IsString-update mem p a v [] out e = ground (arith, out)
IsString-update mem p a v (c ∷ s) out (e, ne, r) = (
  update_ne mem a v p (ground (arith, out)) ∙ e,
  ne,
  IsString-update mem (p + 1) a v s (ground (arith, out)) r,
)

-- With fuel for the string, `strlen` returns one more than the number of its characters.
pub strlen-length :
    (mem : Memory) (p : ℕ) (s : List ℕ)
    → IsString mem p s
    → strlen (suc (length s)) mem p ≡ some (length s + 1)
unfolding strlen
strlen-length mem p [] e = rw e
strlen-length mem p (c ∷ s) (e, ne, r) =
    let here : (mem p == 0) ≡ false = ground arith in
    rw (here, strlen-length mem (p + 1) s r) (ap some (omega arith))

find_end-length :
    (mem : Memory) (p : ℕ) (s : List ℕ)
    → IsString mem p s
    → find_end (suc (length s)) mem p ≡ some (p + length s)
unfolding find_end
find_end-length mem p [] e = rw e (ap some (omega arith))
find_end-length mem p (c ∷ s) (e, ne, r) =
    let here : (mem p == 0) ≡ false = ground arith in
    rw here (find_end-length mem (p + 1) s r ∙ ap some (omega arith))

-- The string stands at `p`, and outside of it the memory is as it was.
pub record Copied (mem mem' : Memory) (p : ℕ) (s : List ℕ) : Type 0 where
  pub string : IsString mem' p s
  pub unchanged : (a : ℕ) → ((p ≤ a) × (a ≤ p + length s)) ⊎ (mem' a ≡ mem a)

kept :
    {mem mem' : Memory} {p : ℕ} {s : List ℕ} (a : ℕ)
    → Copied mem mem' p s
    → (a < p) ⊎ (p + length s < a)
    → mem' a ≡ mem a
kept a w out = ground (arith, w.unchanged a, out)

-- `strcpy` of a string to a place that does not overlap it returns, with fuel for the string. The
-- string with its NUL stands at that place, and the rest of the memory is as it was.
pub strcpy-Copied :
    (mem : Memory) (p_dst p_src : ℕ) (s : List ℕ)
    → IsString mem p_src s
    → (p_dst + length s < p_src) ⊎ (p_src + length s < p_dst)
    → (mem' : Memory) × (strcpy (suc (length s)) mem p_dst p_src ≡ some mem')
      × Copied mem mem' p_dst s
unfolding strcpy
strcpy-Copied mem p_dst p_src [] e apart = (
  update mem p_dst 0,
  rw e,
  record { string = update_self mem p_dst 0; unchanged = λ a. ground arith },
)
strcpy-Copied mem p_dst p_src (c ∷ s) (e, ne, r) apart =
    let here : (mem p_src == 0) ≡ false = ground arith in
    let mem1 = update mem p_dst (mem p_src) in
    let r' : IsString mem1 (p_src + 1) s =
      IsString-update mem (p_src + 1) p_dst (mem p_src) s (ground (arith, apart)) r in
    let (mem', f, w) = strcpy-Copied mem1 (p_dst + 1) (p_src + 1) s r' (ground (arith, apart)) in
    (
      mem',
      rw here f,
      record {
        string = (
          kept p_dst w (inl (omega arith)) ∙ update_self mem p_dst (mem p_src) ∙ e,
          ne,
          w.string,
        );
        unchanged = λ a. ground (arith, w.unchanged a);
      },
    )

-- A string stays where the memory is as it was.
IsString-same :
    (mem mem' : Memory) (p : ℕ) (s t : List ℕ)
    → IsString mem p s
    → ((a : ℕ) → p ≤ a → a < p + length s → mem' a ≡ mem a)
    → IsString mem' (p + length s) t
    → IsString mem' p (s ++ t)
IsString-same mem mem' p [] t e same end = subst (λ z. IsString mem' z t) (omega arith) end
IsString-same mem mem' p (c ∷ s) t (e, ne, r) same end = (
  same p (omega arith) (omega arith) ∙ e,
  ne,
  IsString-same mem mem' (p + 1) s t r (λ a l h. same a (omega arith) (omega arith))
      (subst (λ z. IsString mem' z t) (omega arith) end),
)

-- `strcat` of two pointers that are not null returns the first one, with fuel for the two strings, when the second string does not overlap the
-- first one and the room behind it: at the first address then stands the one string followed by the
-- other.
pub strcat-append :
    (mem : Memory) (s1 s2 : ℕ) (s t : List ℕ)
    → IsString mem s1 s
    → IsString mem s2 t
    → s1 ≢ 0
    → s2 ≢ 0
    → (s1 + length s + length t < s2) ⊎ (s2 + length t < s1)
    → (mem' : Memory) × (strcat (suc (length s)) (suc (length t)) mem s1 s2 ≡ some (mem', s1))
      × IsString mem' s1 (s ++ t)
unfolding strcat
strcat-append mem s1 s2 s t a b here there apart =
    let given : ((s1 == 0) || (s2 == 0)) ≡ false = ground (arith, here, there) in
    let (mem', f, w) = strcpy-Copied mem (s1 + length s) s2 t b (ground (arith, apart)) in
    (
      mem',
      rw (given, find_end-length mem s1 s a, f) refl,
      IsString-same mem mem' s1 s t a (λ i l h. kept i w (inl h)) w.string,
    )
