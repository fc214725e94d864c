-- ===== src/Ipc/Deadlock.antt =====
-- src/kernel/sched.c: `deadlock` follows the processes that are blocked in a send. It tells exactly
-- whether a new send would close a cycle.
use aneasyos.Base.{
  ℕ, zero, suc, ◌<◌, ◌≤◌, ◌≡◌, refl, sym, ap, subst, ◌∙◌, ◌≢◌, inl, inr, true, false, List, [], ◌∷◌,
  ◌++◌, arith, ◌==◌, ℕ_discrete,
}
use aneasyos.Base.Lists.{length}
use aneasyos.Base.Indices.{IsIn, Distinct, Below, length-le-bound}
use aneasyos.Base.Flags.{has_flag}
use aneasyos.Kernel.{Kernel, done, nr_all, sending}
use aneasyos.Ipc.{walk, print_chain, deadlock_walk, deadlock}

abbrev pub IsSending : Kernel → ℕ → Type 0
IsSending k p = has_flag (k.proc_table p).p_flags sending ≡ true

-- From `p` the processes of the list block one another in a send, and the last one waits for `e`.
abbrev pub Trail : Kernel → ℕ → List ℕ → ℕ → Type 0
Trail k p [] e = p ≡ e
Trail k p (x ∷ xs) e =
    (p ≡ x)
    × (x < nr_all)
    × IsSending k x
    × ((k.proc_table x).p_msg ≢ 0)
    × Trail k (k.proc_table x).p_sendto xs e

-- A process of the table that is not blocked in a send.
abbrev pub IsEnd : Kernel → ℕ → Type 0
IsEnd k e = (e < nr_all) × (has_flag (k.proc_table e).p_flags sending ≡ false)

-- Whom a process waits for, over any number of steps, is somebody who is not blocked in a send.
abbrev pub Ends : Kernel → ℕ → Type 0
Ends k p = (xs : List ℕ) × (e : ℕ) × Trail k p xs e × IsEnd k e

pub Trail-unique :
    (k : Kernel) (p e f : ℕ) (xs ys : List ℕ)
    → Trail k p xs e
    → IsEnd k e
    → Trail k p ys f
    → IsEnd k f
    → (length xs ≡ length ys) × (e ≡ f)
Trail-unique k p e f [] [] t he u hf = (refl, sym t ∙ u)
Trail-unique k p e f [] (y ∷ ys) t he (py, _, s, _, _) hf =
    absurd (ground (arith, he.1, s, sym t ∙ py))
Trail-unique k p e f (x ∷ xs) [] (px, _, s, _, _) he u hf =
    absurd (ground (arith, hf.1, s, sym u ∙ px))
Trail-unique k p e f (x ∷ xs) (y ∷ ys) (px, _, _, _, t) he (py, _, _, _, u) hf =
    let xy : x ≡ y = sym px ∙ py in
    let u' : Trail k (k.proc_table x).p_sendto ys f =
      subst (λ z. Trail k (k.proc_table z).p_sendto ys f) (sym xy) u in
    let (l, ef) = Trail-unique k (k.proc_table x).p_sendto e f xs ys t he u' hf in (ap suc l, ef)

-- From an entry of a trail the rest of it goes on.
Trail-suffix :
    (k : Kernel) (p e a : ℕ) (xs : List ℕ)
    → Trail k p xs e
    → IsIn a xs
    → (ys : List ℕ) × Trail k a ys e × (length ys ≤ length xs)
Trail-suffix k p e a [] t m = absurd m
Trail-suffix k p e a (x ∷ xs) t (inl ax) = (x ∷ xs, (ax, t.1, t.2, t.3, t.4), omega arith)
Trail-suffix k p e a (x ∷ xs) t (inr m) =
    let (ys, u, l) = Trail-suffix k (k.proc_table x).p_sendto e a xs t.4 m in
    (ys, u, omega (arith, l))

Trail-Distinct : (k : Kernel) (p e : ℕ) (xs : List ℕ) → Trail k p xs e → IsEnd k e → Distinct xs
Trail-Distinct k p e [] t h = tt
Trail-Distinct k p e (x ∷ xs) t h = (fresh, Trail-Distinct k (k.proc_table x).p_sendto e xs t.4 h)
  where
    fresh : ¬ IsIn x xs
    fresh m =
        let (ys, u, l) = Trail-suffix k (k.proc_table x).p_sendto e x xs t.4 m in
        let same = Trail-unique k x e e (x ∷ xs) ys (refl, t.1, t.2, t.3, t.4) h u h in
        omega (arith, same.0, l)

Trail-Below : (k : Kernel) (p e : ℕ) (xs : List ℕ) → Trail k p xs e → Below nr_all xs
Trail-Below k p e [] t = tt
Trail-Below k p e (x ∷ xs) t = (t.1, Trail-Below k (k.proc_table x).p_sendto e xs t.4)

pub Trail-short :
    (k : Kernel) (p e : ℕ) (xs : List ℕ) → Trail k p xs e → IsEnd k e → length xs ≤ nr_all
Trail-short k p e xs t h =
    length-le-bound nr_all xs (Trail-Distinct k p e xs t h) (Trail-Below k p e xs t)

Trail-at_end :
    (k : Kernel) (p e : ℕ) (xs : List ℕ)
    → Trail k p xs e
    → has_flag (k.proc_table p).p_flags sending ≡ false
    → p ≡ e
Trail-at_end k p e [] t s = t
Trail-at_end k p e (x ∷ xs) t s = absurd (ground (arith, t.0, t.2))

-- The walk goes along the trail; only its last process can wait for one that is not sending.
deadlock_walk-Trail :
    (fuel : ℕ) (k : Kernel) (src p e : ℕ) (xs : List ℕ)
    → Trail k p xs e
    → IsEnd k e
    → has_flag (k.proc_table src).p_flags sending ≡ false
    → p ≢ src
    → length xs < fuel
    → deadlock_walk fuel k src p ≡ done (e == src)
unfolding deadlock_walk
deadlock_walk-Trail zero k src p e xs t h s ne l = absurd (omega arith)
deadlock_walk-Trail (suc fuel) k src p e [] t h s ne l = ground (arith, t)
deadlock_walk-Trail (suc fuel) k src p e (x ∷ xs) (px, lt, snd, msg, t) h s ne l =
    elim (ℕ_discrete (k.proc_table x).p_sendto src) [
      | yes hit ↦
          let end : src ≡ e = Trail-at_end k src e xs (subst (λ z. Trail k z xs e) hit t) s in
          ground (arith, px, hit, end)
      | no miss ↦
          let rest =
            deadlock_walk-Trail fuel k src (k.proc_table x).p_sendto e xs t h s miss
              (omega arith) in
          ground (arith, px, rest)
    ]

print_chain-Trail :
    (fuel : ℕ) (k : Kernel) (src p x : ℕ) (xs : List ℕ)
    → Trail k p (x ∷ xs) src
    → length xs < fuel
    → has_flag (k.proc_table src).p_flags sending ≡ false
    → print_chain fuel k src p ≡ done tt
unfolding print_chain
print_chain-Trail zero k src p x xs t l s = absurd (omega arith)
print_chain-Trail (suc fuel) k src p x [] (px, lt, snd, msg, t) l s = ground (arith, px, t)
print_chain-Trail (suc fuel) k src p x (y ∷ ys) (px, lt, snd, msg, t) l s =
    let next : (k.proc_table x).p_sendto ≢ src = ground (arith, t.0, t.2) in
    let rest = print_chain-Trail fuel k src (k.proc_table x).p_sendto y ys t (omega arith) s in
    ground (arith, px, rest, next)

print_chain_found :
    (k : Kernel) (src p : ℕ) (xs : List ℕ)
    → Trail k p xs src
    → length xs < walk
    → p ≢ src
    → has_flag (k.proc_table src).p_flags sending ≡ false
    → print_chain walk k src p ≡ done tt
print_chain_found k src p [] t l ne s = absurd (ne t)
print_chain_found k src p (x ∷ xs) t l ne s = print_chain-Trail walk k src p x xs t (omega arith) s

-- Where the processes that `dest` waits for end in `e`, which is not blocked in a send, and `src`
-- is not blocked in a send either and is another process than `dest`, `deadlock` returns, and says
-- yes exactly if `e` is `src`: exactly if a send from `src` to `dest` would close a cycle.
pub deadlock_exact :
    (k : Kernel) (src dest e : ℕ) (xs : List ℕ)
    → Trail k dest xs e
    → IsEnd k e
    → has_flag (k.proc_table src).p_flags sending ≡ false
    → dest ≢ src
    → deadlock k src dest ≡ done (e == src)
unfolding deadlock
deadlock_exact k src dest e xs t h s ne =
    let short = Trail-short k dest e xs t h in
    let found = deadlock_walk-Trail walk k src dest e xs t h s ne (omega arith) in
    elim (ℕ_discrete e src) [
      | yes hit ↦
          let t' : Trail k dest xs src = subst (Trail k dest xs) hit t in
          ground (arith, found, hit, print_chain_found k src dest xs t' (omega arith) ne s)
      | no miss ↦ ground (arith, found)
    ]

-- A change of the process table that leaves a trail's processes blocked as they were keeps it.
pub Trail-frame :
    (k k' : Kernel) (p e : ℕ) (xs : List ℕ)
    → ((x : ℕ)
        → IsIn x xs
        → (has_flag (k'.proc_table x).p_flags sending ≡ has_flag (k.proc_table x).p_flags sending)
          × ((k'.proc_table x).p_msg ≡ (k.proc_table x).p_msg)
          × ((k'.proc_table x).p_sendto ≡ (k.proc_table x).p_sendto))
    → Trail k p xs e
    → Trail k' p xs e
Trail-frame k k' p e [] same t = t
Trail-frame k k' p e (x ∷ xs) same (px, lt, snd, msg, t) =
    let (f, m, to) = same x (inl refl) in
    (
      px,
      lt,
      rw f snd,
      rw m msg,
      rw to (Trail-frame k k' (k.proc_table x).p_sendto e xs (λ y i. same y (inr i)) t),
    )

pub Trail-IsSending :
    (k : Kernel) (p e x : ℕ) (xs : List ℕ) → Trail k p xs e → IsIn x xs → IsSending k x
Trail-IsSending k p e x [] t m = absurd m
Trail-IsSending k p e x (y ∷ ys) t (inl xy) = rw xy t.2
Trail-IsSending k p e x (y ∷ ys) t (inr m) =
    Trail-IsSending k (k.proc_table y).p_sendto e x ys t.4 m

-- A trail to a process that is now blocked goes on along the trail of whom that one waits for.
pub Trail-append :
    (k : Kernel) (p a e : ℕ) (xs ys : List ℕ)
    → Trail k p xs a
    → Trail k a ys e
    → Trail k p (xs ++ ys) e
Trail-append k p a e [] ys t u = subst (λ z. Trail k z ys e) (sym t) u
Trail-append k p a e (x ∷ xs) ys (px, lt, snd, msg, t) u =
    (px, lt, snd, msg, Trail-append k (k.proc_table x).p_sendto a e xs ys t u)
