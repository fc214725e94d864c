-- ===== src/Mm/Waiting.antt =====
-- src/mm/forkexit.c: what `do_wait` does.
use aneasyos.Base.{
  ℕ, zero, suc, ◌+◌, ◌<◌, ◌≤◌, ◌≡◌, refl, sym, subst, ◌≢◌, ◌⊎◌, inl, inr, none, some, Bool, true,
  false, arith, ◌==◌, Bool-cases, ==_ne, ==_refl, ℕ_discrete, update,
}
use aneasyos.Base.Flags.{has_flag, set_flag}
use aneasyos.Kernel.{
  Kernel, Message, Outcome, done, ◌>>=◌, nr_all, no_task, waiting, hanging, set_proc,
}
use aneasyos.Mm.{find_child, cleanup, do_wait, syscall_ret}

abbrev pub IsChild : Kernel → ℕ → ℕ → Type 0
IsChild k pid j = (k.proc_table j).p_parent ≡ pid

abbrev pub IsHanging : Kernel → ℕ → Type 0
IsHanging k j = has_flag (k.proc_table j).p_flags hanging ≡ true

-- No entry from `i` to below `b` is a child of `pid` that hangs.
abbrev pub NoneHangs : Kernel → ℕ → ℕ → ℕ → Type 0
NoneHangs k pid i b =
    (j : ℕ)
    → ((j < i) ⊎ (b ≤ j))
      ⊎ ((k.proc_table j).p_parent ≢ pid)
      ⊎ (has_flag (k.proc_table j).p_flags hanging ≡ false)

abbrev pub NoChild : Kernel → ℕ → ℕ → ℕ → Type 0
NoChild k pid i b = (j : ℕ) → ((j < i) ⊎ (b ≤ j)) ⊎ ((k.proc_table j).p_parent ≢ pid)

-- What the search says of the entries from `i` on.
abbrev Found : ℕ → ℕ → ℕ → Kernel → Bool → Type 0
Found n i pid k seen =
    ((c : ℕ) × (c < i + n)
      × (i ≤ c)
      × IsChild k pid c
      × IsHanging k c
      × NoneHangs k pid i c
      × (find_child n i pid k seen ≡ (some c, true)))
    ⊎ (NoneHangs k pid i (i + n)
        × ((c : ℕ) × (c < i + n) × (i ≤ c) × IsChild k pid c)
        × (find_child n i pid k seen ≡ (none, true)))
    ⊎ (NoChild k pid i (i + n) × (find_child n i pid k seen ≡ (none, seen)))

skip :
    (k : Kernel) (pid i b : ℕ)
    → ((k.proc_table i).p_parent ≢ pid) ⊎ (has_flag (k.proc_table i).p_flags hanging ≡ false)
    → NoneHangs k pid (i + 1) b
    → NoneHangs k pid i b
skip k pid i b h later j = elim (ℕ_discrete j i) [
  | yes e ↦
      subst
        (λ z.
          ((z < i) ⊎ (b ≤ z))
          ⊎ ((k.proc_table z).p_parent ≢ pid)
          ⊎ (has_flag (k.proc_table z).p_flags hanging ≡ false))
        (sym e) (inr h)
  | no ne ↦ ground (arith, later j)
]

skip_child :
    (k : Kernel) (pid i n : ℕ)
    → (k.proc_table i).p_parent ≢ pid
    → NoChild k pid (i + 1) (i + 1 + n)
    → NoChild k pid i (i + suc n)
skip_child k pid i n h later j = elim (ℕ_discrete j i) [
  | yes e ↦
      subst (λ z. ((z < i) ⊎ (i + suc n ≤ z)) ⊎ ((k.proc_table z).p_parent ≢ pid)) (sym e) (inr h)
  | no ne ↦ ground (arith, later j)
]

weaken :
    (k : Kernel) (pid j : ℕ) {a b : ℕ}
    → ((j < a) ⊎ (b ≤ j)) ⊎ ((k.proc_table j).p_parent ≢ pid)
    → ((j < a) ⊎ (b ≤ j))
      ⊎ ((k.proc_table j).p_parent ≢ pid)
      ⊎ (has_flag (k.proc_table j).p_flags hanging ≡ false)
weaken k pid j (inl h) = inl h
weaken k pid j (inr h) = inr (inl h)

find_child-Found : (n i pid : ℕ) (k : Kernel) (seen : Bool) → Found n i pid k seen
unfolding find_child
find_child-Found zero i pid k seen = inr (inr ((λ j. ground arith), refl))
find_child-Found (suc n) i pid k seen = elim (ℕ_discrete (k.proc_table i).p_parent pid) [
  | no ne ↦
      let other : ((k.proc_table i).p_parent == pid) ≡ false =
        ==_ne (k.proc_table i).p_parent pid ne in
      rw other (elim (find_child-Found n (i + 1) pid k seen) [
        | inl (c, lt, ge, ch, hang, before, e) ↦
            inl (c, omega arith, omega arith, ch, hang, skip k pid i c (inl ne) before, e)
        | inr (inl (quiet, (c, lt, ge, ch), e)) ↦ inr (
            inl (
              last (skip k pid i (i + 1 + n) (inl ne) quiet),
              (c, omega arith, omega arith, ch),
              e,
            ))
        | inr (inr (no_child, e)) ↦ inr (inr (skip_child k pid i n ne no_child, e))
      ])
  | yes child ↦ elim (Bool-cases (has_flag (k.proc_table i).p_flags hanging)) [
    | inl hang ↦ inl (
      i,
      omega arith,
      omega arith,
      child,
      hang,
      (λ j. ground arith),
      rw (child, hang, ==_refl pid),
    )
    | inr calm ↦
        let here : ((k.proc_table i).p_parent == pid) ≡ true = rw child (==_refl pid) in
        rw (here, calm)
          (elim (find_child-Found n (i + 1) pid k true) [
            | inl (c, lt, ge, ch, hang, before, e) ↦
                inl (c, omega arith, omega arith, ch, hang, skip k pid i c (inr calm) before, e)
            | inr (inl (quiet, (c, lt, ge, ch), e)) ↦ inr (
                inl (
                  last (skip k pid i (i + 1 + n) (inr calm) quiet),
                  (c, omega arith, omega arith, ch),
                  e,
                ))
            | inr (inr (no_child, e)) ↦ inr (
                inl (
                  last (skip k pid i (i + 1 + n) (inr calm) (λ j. weaken k pid j (no_child j))),
                  (i, omega arith, omega arith, child),
                  e,
                ))
          ])
  ]
]
  where
    last : NoneHangs k pid i (i + 1 + n) → NoneHangs k pid i (i + suc n)
    last h j = ground (arith, h j)

-- The entry can be used again, all else is as it was.
abbrev pub freed : ℕ → Kernel → Kernel
freed c k = record k {
  proc_table = update k.proc_table c (record (k.proc_table c) { p_flags = 0x20 });
}

-- `do_wait` does one of three things. If a child of the caller hangs, the number and the exit status
-- of the first one are sent to the caller, and after the send the entry of the child is free; if there are children and none hangs, the caller is WAITING; if there is no child, the caller is
-- sent NO_TASK. An entry counts as a child by its `p_parent` alone.
pub do_wait_exact :
    (send : Kernel → ℕ → Message → Outcome Kernel) (stack : Message) (k : Kernel) (pid : ℕ)
    → ((c : ℕ) × (c < nr_all)
        × IsChild k pid c
        × IsHanging k c
        × NoneHangs k pid 0 c
        × (do_wait send stack k pid ≡ (do
          sent ←
              send k pid
                (record stack { type = syscall_ret; m3i2 = c; m3i1 = (k.proc_table c).exit_status })
          done (freed c sent))))
      ⊎ (NoneHangs k pid 0 nr_all
          × ((c : ℕ) × (c < nr_all) × IsChild k pid c)
          × (do_wait send stack k pid
              ≡ done (
                  set_proc pid
                    (record (k.proc_table pid) {
                      p_flags = set_flag (k.proc_table pid).p_flags waiting;
                    })
                    k)))
      ⊎ (NoChild k pid 0 nr_all
          × (do_wait send stack k pid
              ≡ send k pid (record stack { type = syscall_ret; m3i2 = no_task })))
unfolding do_wait cleanup
do_wait_exact send stack k pid = elim (find_child-Found nr_all 0 pid k false) [
  | inl (c, lt, ge, ch, hang, before, e) ↦ inl (c, omega arith, ch, hang, before, rw (e, ch) refl)
  | inr (inl (quiet, (c, lt, ge, ch), e)) ↦ inr (inl (quiet, (c, omega arith, ch), rw (do_wait, e)))
  | inr (inr (no_child, e)) ↦ inr (inr (no_child, rw (do_wait, e)))
]
