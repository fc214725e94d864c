-- ===== src/Sched/Scan.antt =====
-- src/kernel/sched.c: the two loops of `schedule` over the process table.
use aneasyos.Base.{
  ℕ, zero, suc, ◌+◌, ◌<◌, ◌≤◌, ◌≡◌, refl, ◌∙◌, subst, fun_ext, ◌≢◌, ◌⊎◌, inl, inr, ◌&&◌, arith, leb,
  ltb, ◌==◌, if◌then◌else◌, Bool-cases,
}
use aneasyos.Base.Word.{biased}
use aneasyos.Kernel.{Kernel, Proc, set_proc}
use aneasyos.Sched.{wake, visit, scan, refilled, refill}

-- What a scan leaves alone, besides the process table and the choice.
pub record SameGlobals (k k' : Kernel) : Type 0 where
  pub ticks_same : k'.ticks ≡ k.ticks
  pub kernel_ticks_same : k'.kernel_ticks ≡ k.kernel_ticks
  pub unix_time_same : k'.unix_time ≡ k.unix_time
  pub k_reenter_same : k'.k_reenter ≡ k.k_reenter
  pub memory_same : k'.memory ≡ k.memory

pub SameGlobals-trans : {k l m : Kernel} → SameGlobals k l → SameGlobals l m → SameGlobals k m
SameGlobals-trans p q = record {
  ticks_same = q.ticks_same ∙ p.ticks_same;
  kernel_ticks_same = q.kernel_ticks_same ∙ p.kernel_ticks_same;
  unix_time_same = q.unix_time_same ∙ p.unix_time_same;
  k_reenter_same = q.k_reenter_same ∙ p.k_reenter_same;
  memory_same = q.memory_same ∙ p.memory_same;
}

visit-SameGlobals : (i : ℕ) (s : Kernel × ℕ) → SameGlobals s.0 (visit i s).0
unfolding visit
visit-SameGlobals i (k, max) = ground arith

pub scan-SameGlobals : (n i : ℕ) (s : Kernel × ℕ) → SameGlobals s.0 (scan n i s).0
unfolding scan
scan-SameGlobals zero i s = ground arith
scan-SameGlobals (suc n) i s =
    SameGlobals-trans (visit-SameGlobals i s) (scan-SameGlobals n (i + 1) (visit i s))

visit-table :
    (i j : ℕ) (s : Kernel × ℕ)
    → (visit i s).0.proc_table j
      ≡ (if j == i then wake s.0.ticks (s.0.proc_table j) else s.0.proc_table j)
unfolding visit
visit-table i j (k, max) = ground arith

-- A scan wakes the processes that it passes, and changes no other.
pub scan-table :
    (n i j : ℕ) (s : Kernel × ℕ)
    → (scan n i s).0.proc_table j
      ≡ (if leb i j && ltb j (i + n) then wake s.0.ticks (s.0.proc_table j) else s.0.proc_table j)
unfolding scan
scan-table zero i j s = ground arith
scan-table (suc n) i j s =
    scan-table n (i + 1) j (visit i s) ∙ ground (arith, visit-table i j s, visit-SameGlobals i s)

abbrev pub woken : Kernel → ℕ → Proc
woken k j = wake k.ticks (k.proc_table j)

-- The entry `j` of the range has no more ticks than the choice.
abbrev Beaten : Kernel → ℕ → ℕ → Type 0
Beaten k max j = ((woken k j).p_flags ≢ 0) ⊎ (biased (woken k j).ticks ≤ biased max)

-- The choice of a scan of the entries from `i` to `i + n`: the one before, or a ready entry of
-- the range, whose ticks are the maximum.
abbrev Choice : (ℕ → Proc) → ℕ → ℕ → ℕ → ℕ → ℕ → ℕ → Type 0
Choice w ready n i start chosen max =
    ((max ≡ start) × (chosen ≡ ready))
    ⊎ ((i ≤ chosen)
        × (chosen < i + n)
        × ((w chosen).p_flags ≡ 0)
        × ((w chosen).ticks ≡ max)
        × (biased start < biased max))

pub record Best (n i : ℕ) (k : Kernel) (start chosen max : ℕ) : Type 0 where
  pub above : (j : ℕ) → i ≤ j → j < i + n → Beaten k max j
  pub grown : biased start ≤ biased max
  pub choice : Choice (woken k) k.p_proc_ready n i start chosen max

visit_choice :
    (i : ℕ) (k : Kernel) (max : ℕ)
    → (((woken k i).p_flags ≡ 0)
        × (biased max < biased (woken k i).ticks)
        × ((visit i (k, max)).1 ≡ (woken k i).ticks)
        × ((visit i (k, max)).0.p_proc_ready ≡ i))
      ⊎ (Beaten k max i
          × ((visit i (k, max)).1 ≡ max)
          × ((visit i (k, max)).0.p_proc_ready ≡ k.p_proc_ready))
unfolding visit
visit_choice i k max = ground arith

-- Waking is done once: a woken process is not asleep with its time come.
pub wake_again : (now : ℕ) (p : Proc) → wake now (wake now p) ≡ wake now p
wake_again now p = ground arith

woken-visit : (i j : ℕ) (s : Kernel × ℕ) → woken (visit i s).0 j ≡ woken s.0 j
woken-visit i j s =
    ground
      (arith, visit-table i j s, visit-SameGlobals i s, wake_again s.0.ticks (s.0.proc_table j))

woken-visit_ext : (i : ℕ) (s : Kernel × ℕ) → woken (visit i s).0 ≡ woken s.0
woken-visit_ext i s = fun_ext (λ j. woken-visit i j s)

Choice-visit :
    (w : ℕ → Proc) (ready mid n i start chosen max m : ℕ)
    → Choice w mid n (i + 1) m chosen max
    → (((w i).p_flags ≡ 0) × (biased start < biased (w i).ticks) × (m ≡ (w i).ticks) × (mid ≡ i))
      ⊎ ((m ≡ start) × (mid ≡ ready))
    → Choice w ready (suc n) i start chosen max
Choice-visit w ready mid n i start chosen max m (inl (e, c)) (inl (f, lt, em, er)) =
    let here : chosen ≡ i = c ∙ er in
    inr (omega arith, omega arith, rw here f, ground arith, ground arith)
Choice-visit w ready mid n i start chosen max m (inl (e, c)) (inr (em, er)) = inl (e ∙ em, c ∙ er)
Choice-visit w ready mid n i start chosen max m (inr (l, h, f, t, g)) (inl (_, lt, em, er)) =
    inr (omega arith, omega arith, f, t, ground arith)
Choice-visit w ready mid n i start chosen max m (inr (l, h, f, t, g)) (inr (em, er)) =
    inr (omega arith, omega arith, f, t, ground arith)

pub scan-Best :
    (n i : ℕ) (k : Kernel) (max : ℕ)
    → Best n i k max (scan n i (k, max)).0.p_proc_ready (scan n i (k, max)).1
unfolding scan
scan-Best zero i k max = record {
  above = λ j l h. absurd (omega arith);
  grown = omega arith;
  choice = inl (refl, refl);
}
scan-Best (suc n) i k max =
    let next = visit i (k, max) in
    let ih = scan-Best n (i + 1) next.0 next.1 in
    record {
      above = λ j l h. elim (Bool-cases (j == i)) [
        | inl here ↦ ground (arith, ih.grown, visit_choice i k max)
        | inr there ↦
            let b : Beaten next.0 (scan n (i + 1) next).1 j =
              ih.above j (ground arith) (omega arith) in
            ground (arith, b, woken-visit i j (k, max))
      ];
      grown = ground (arith, ih.grown, visit_choice i k max);
      choice =
          Choice-visit (woken k) k.p_proc_ready next.0.p_proc_ready n i max _ _ next.1
            (subst
              (λ w.
                Choice w next.0.p_proc_ready n (i + 1) next.1 (scan n (i + 1) next).0.p_proc_ready
                  (scan n (i + 1) next).1)
              (woken-visit_ext i (k, max)) ih.choice)
            (choice_of (visit_choice i k max));
    }
  where
    choice_of :
        (((woken k i).p_flags ≡ 0)
            × (biased max < biased (woken k i).ticks)
            × ((visit i (k, max)).1 ≡ (woken k i).ticks)
            × ((visit i (k, max)).0.p_proc_ready ≡ i))
          ⊎ (Beaten k max i
              × ((visit i (k, max)).1 ≡ max)
              × ((visit i (k, max)).0.p_proc_ready ≡ k.p_proc_ready))
        → (((woken k i).p_flags ≡ 0)
            × (biased max < biased (woken k i).ticks)
            × ((visit i (k, max)).1 ≡ (woken k i).ticks)
            × ((visit i (k, max)).0.p_proc_ready ≡ i))
          ⊎ (((visit i (k, max)).1 ≡ max) × ((visit i (k, max)).0.p_proc_ready ≡ k.p_proc_ready))
    choice_of (inl h) = inl h
    choice_of (inr (_, m, r)) = inr (m, r)

-- The refill gives every ready process that it passes its priority as ticks.
pub refill-table :
    (n i j : ℕ) (k : Kernel)
    → (refill n i k).proc_table j
      ≡ (if leb i j && ltb j (i + n) then refilled (k.proc_table j) else k.proc_table j)
unfolding refill
refill-table zero i j k = ground arith
refill-table (suc n) i j k =
    refill-table n (i + 1) j (set_proc i (refilled (k.proc_table i)) k) ∙ ground arith

pub refill-SameGlobals : (n i : ℕ) (k : Kernel) → SameGlobals k (refill n i k)
unfolding refill
refill-SameGlobals zero i k = ground arith
refill-SameGlobals (suc n) i k =
    SameGlobals-trans (ground arith)
      (refill-SameGlobals n (i + 1) (set_proc i (refilled (k.proc_table i)) k))
