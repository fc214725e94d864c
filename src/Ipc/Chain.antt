-- ===== src/Ipc/Chain.antt =====
-- src/kernel/sched.c: a sending queue is a chain through `next_sending`. What the walks along it
-- find, and what linking and unlinking do to it.
use aneasyos.Base.{
  ℕ, zero, suc, ◌<◌, ◌≡◌, refl, sym, subst, ◌∙◌, inl, inr, Option, none, some, List, [], ◌∷◌, ◌++◌,
  arith, update, update_self, update_ne,
}
use aneasyos.Base.Lists.{length}
use aneasyos.Base.Indices.{IsIn, Distinct, append-IsIn_left, append-IsIn_right}
use aneasyos.Kernel.{Kernel, done}
use aneasyos.Ipc.{find_last}

-- From the pointer `o` the entries of the list follow one another, and the last one's pointer is
-- null.
abbrev pub Chain : (ℕ → Option ℕ) → Option ℕ → List ℕ → Type 0
Chain next o [] = o ≡ none
Chain next o (x ∷ xs) = (o ≡ some x) × Chain next (next x) xs

abbrev pub nexts : Kernel → ℕ → Option ℕ
nexts k i = (k.proc_table i).next_sending

abbrev pub last_of : ℕ → List ℕ → ℕ
last_of p [] = p
last_of p (x ∷ xs) = last_of x xs

pub last_of-IsIn : (p : ℕ) (xs : List ℕ) → IsIn (last_of p xs) (p ∷ xs)
last_of-IsIn p [] = inl refl
last_of-IsIn p (x ∷ xs) = inr (last_of-IsIn x xs)

-- A chain depends on the pointers of its entries alone.
pub Chain-frame :
    (next next' : ℕ → Option ℕ) (o : Option ℕ) (xs : List ℕ)
    → ((x : ℕ) → IsIn x xs → next' x ≡ next x)
    → Chain next o xs
    → Chain next' o xs
Chain-frame next next' o [] same c = c
Chain-frame next next' o (x ∷ xs) same (e, c) =
    (e, rw (same x (inl refl)) (Chain-frame next next' (next x) xs (λ y m. same y (inr m)) c))

pub Chain-update :
    (next : ℕ → Option ℕ) (a : ℕ) (v o : Option ℕ) (xs : List ℕ)
    → ¬ IsIn a xs
    → Chain next o xs
    → Chain (update next a v) o xs
Chain-update next a v o xs out c =
    Chain-frame next (update next a v) o xs (λ x m. update_ne next a v x (λ e. out (rw (← e) m))) c

-- With fuel for its length the walk finds the last entry.
pub find_last-last_of :
    (fuel : ℕ) (k : Kernel) (p : ℕ) (xs : List ℕ)
    → Chain (nexts k) (nexts k p) xs
    → length xs < fuel
    → find_last fuel k p ≡ done (last_of p xs)
unfolding find_last
find_last-last_of zero k p xs c h = absurd (omega arith)
find_last-last_of (suc fuel) k p [] c h = rw (c, find_last)
find_last-last_of (suc fuel) k p (x ∷ xs) (e, c) h =
    rw (e, find_last) (find_last-last_of fuel k x xs c (omega arith))

-- Linking a new entry behind the last one.
pub Chain-snoc :
    (next : ℕ → Option ℕ) (p a : ℕ) (xs : List ℕ)
    → Chain next (next p) xs
    → Distinct (p ∷ xs)
    → ¬ IsIn a (p ∷ xs)
    → Chain (update (update next (last_of p xs) (some a)) a none) (some p) ((p ∷ xs) ++ (a ∷ []))
Chain-snoc next p a [] c d out = (refl, (ground (arith, λ (e : a ≡ p). out (inl e)), ground arith))
Chain-snoc next p a (x ∷ xs) (e, c) d out =
    (refl, rw here (Chain-snoc next x a xs c d.1 (λ m. out (inr m))))
  where
    here : update (update next (last_of x xs) (some a)) a none p ≡ some x
    here =
        update_ne (update next (last_of x xs) (some a)) a none p (λ e. out (inl (sym e)))
        ∙ update_ne next (last_of x xs) (some a) p
            (λ e. d.0 (subst (λ z. IsIn z (x ∷ xs)) (sym e) (last_of-IsIn x xs)))
        ∙ e

-- Unlinking the entry behind a prefix: the last entry of the prefix is made to skip it.
pub Chain-unlink :
    (next : ℕ → Option ℕ) (p a : ℕ) (xs ys : List ℕ)
    → Chain next (next p) (xs ++ (a ∷ ys))
    → Distinct (p ∷ (xs ++ (a ∷ ys)))
    → Chain (update (update next (last_of p xs) (next a)) a none) (some p) (p ∷ (xs ++ ys))
Chain-unlink next p a [] ys (e, c) d = (refl, rw here rest)
  where
    next' : ℕ → Option ℕ
    next' = update next p (next a)

    here : update next' a none p ≡ next a
    here = update_ne next' a none p (λ e. d.0 (inl e)) ∙ update_self next p (next a)

    rest : Chain (update next' a none) (next a) ys
    rest =
        Chain-update next' a none (next a) ys d.1.0
          (Chain-update next p (next a) (next a) ys (λ m. d.0 (inr m)) c)
Chain-unlink next p a (x ∷ xs) ys (e, c) d = (refl, rw here (Chain-unlink next x a xs ys c d.1))
  where
    here : update (update next (last_of x xs) (next a)) a none p ≡ some x
    here =
        update_ne (update next (last_of x xs) (next a)) a none p
          (λ e. d.0 (append-IsIn_right p (x ∷ xs) (a ∷ ys) (inl e)))
        ∙ update_ne next (last_of x xs) (next a) p (λ e. d.0 (
            append-IsIn_left p (x ∷ xs) (a ∷ ys)
              (subst (λ z. IsIn z (x ∷ xs)) (sym e) (last_of-IsIn x xs))))
        ∙ e
