-- ===== src/Start/Processes.antt =====
-- src/kernel/sched.c: what `init_sched` makes of each entry of the process table.
use aneasyos.Base.{
  ℕ, zero, suc, ◌+◌, ◌-◌, ◌*◌, ◌<◌, ◌≤◌, ◌≡◌, refl, sym, ap, ◌∙◌, true, subst, arith, ltb, leb,
  if◌then◌else◌, ◌&&◌, ℕ_discrete, update, update_self,
}
use aneasyos.Base.Word.{word, add32, sub32}
use aneasyos.Pm.{Descriptor}
use aneasyos.Kernel.{Proc, nr_all}
use aneasyos.Start.{Started, stack_size, first_frame, begun, init_procs, set_tty, init_sched}

-- Where the stack of the entry `i` begins: the first one on top.
abbrev pub stack_at : ℕ → ℕ → ℕ
stack_at base i = base + stack_size * (9 - i)

-- The two agree in all but the terminal.
abbrev pub SameButTty : Proc → Proc → Type 0
SameButTty p p' = p' ≡ record p { nr_tty = p'.nr_tty }

same_trans : (p q r : Proc) → SameButTty p q → SameButTty q r → SameButTty p r
same_trans p q r a b = b ∙ ap (λ (x : Proc). record x { nr_tty = r.nr_tty }) a

set_tty_same : (i nr : ℕ) (procs : ℕ → Proc) (j : ℕ) → SameButTty (procs j) (set_tty i nr procs j)
set_tty_same i nr procs j = elim (ℕ_discrete j i) [
  | yes e ↦ ground (arith, e)
  | no ne ↦ ground (arith, ne)
]

module _ (gdt : ℕ → Descriptor) (entry : ℕ → ℕ) where
  init_procs_procs :
      (n i stack : ℕ) (s : Started) (j : ℕ)
      → (init_procs gdt entry n i stack s).procs j
        ≡ (if leb i j && ltb j (i + n) then begun gdt j (s.procs j) else s.procs j)
  unfolding init_procs
  init_procs_procs zero i stack s j = ground arith
  init_procs_procs (suc n) i stack s j =
      let native = ltb i 9 in
      let stack' = if native then sub32 stack stack_size else stack in
      let frames' = if native then update s.frames i (first_frame entry i stack) else s.frames in
      let s1 : Started = record {
        procs = update s.procs i (begun gdt i (s.procs i));
        frames = frames';
      } in
      init_procs_procs n (suc i) stack' s1 j
      ∙ elim (ℕ_discrete j i) [ yes e ↦ ground (arith, e) | no ne ↦ ground (arith, ne) ]

  -- The entries before `i` keep their frames.
  frames_before :
      (n i stack : ℕ) (s : Started) (j : ℕ)
      → j < i
      → (init_procs gdt entry n i stack s).frames j ≡ s.frames j
  unfolding init_procs
  frames_before zero i stack s j h = refl
  frames_before (suc n) i stack s j h =
      let native = ltb i 9 in
      let frames' = if native then update s.frames i (first_frame entry i stack) else s.frames in
      frames_before n (suc i) (if native then sub32 stack stack_size else stack)
        record { procs = update s.procs i (begun gdt i (s.procs i)); frames = frames' } j
        (omega (arith, h))
      ∙ ground (arith, h)

  native_round :
      (n i stack : ℕ) (s : Started)
      → i < 9
      → init_procs gdt entry (suc n) i stack s
        ≡ init_procs gdt entry n (suc i) (sub32 stack stack_size) record {
          procs = update s.procs i (begun gdt i (s.procs i));
          frames = update s.frames i (first_frame entry i stack);
        }
  unfolding init_procs
  native_round n i stack s h = let here : ltb i 9 ≡ true = ground (arith, h) in rw here refl

  init_procs_frames :
      (base n i : ℕ) (s : Started) (j : ℕ)
      → base + 0x24000 < word
      → j < 9
      → i ≤ j
      → j < i + n
      → (init_procs gdt entry n i (stack_at base i) s).frames j
        ≡ first_frame entry j (stack_at base j)
  init_procs_frames base zero i s j h native lo hi = absurd (omega (arith, lo, hi))
  init_procs_frames base (suc n) i s j h native lo hi =
      let down : sub32 (stack_at base i) stack_size ≡ stack_at base (suc i) =
        omega (arith, h, native, lo) in
      let frame = first_frame entry i (stack_at base i) in
      let s1 : Started = record {
        procs = update s.procs i (begun gdt i (s.procs i));
        frames = update s.frames i frame;
      } in
      ap (λ (x : Started). x.frames j)
        (native_round n i (stack_at base i) s (omega (arith, native, lo)))
      ∙ ap (λ (st : ℕ). (init_procs gdt entry n (suc i) st s1).frames j) down
      ∙ elim (ℕ_discrete j i) [
        | yes e ↦
            frames_before n (suc i) (stack_at base (suc i)) s1 j (omega (arith, e))
            ∙ ap (update s.frames i frame) e
            ∙ update_self s.frames i frame
            ∙ ap (λ (z : ℕ). first_frame entry z (stack_at base z)) (sym e)
        | no ne ↦
            init_procs_frames base n (suc i) s1 j h native (omega (arith, lo, ne))
              (omega (arith, hi))
      ]

  pub init_sched_frames :
      (task_stack : ℕ) (s : Started) (j : ℕ)
      → task_stack + 0x24000 < word
      → j < 9
      → (init_sched gdt entry task_stack s).frames j ≡ first_frame entry j (stack_at task_stack j)
  unfolding init_sched
  init_sched_frames task_stack s j h native =
      let top : add32 task_stack (9 * stack_size) ≡ stack_at task_stack 0 = omega (arith, h) in
      ap (λ (st : ℕ). (init_procs gdt entry nr_all 0 st s).frames j) top
      ∙ init_procs_frames task_stack nr_all 0 s j h native (omega arith) (omega (arith, native))

  pub init_sched_procs :
      (task_stack : ℕ) (s : Started) (j : ℕ)
      → j < nr_all
      → SameButTty (begun gdt j (s.procs j)) ((init_sched gdt entry task_stack s).procs j)
  unfolding init_sched
  init_sched_procs task_stack s j h =
      let procs = (init_procs gdt entry nr_all 0 (add32 task_stack (9 * stack_size)) s).procs in
      let all : procs j ≡ begun gdt j (s.procs j) =
        init_procs_procs nr_all 0 (add32 task_stack (9 * stack_size)) s j ∙ ground (arith, h) in
      let a = set_tty 5 0 procs in
      let b = set_tty 6 1 a in
      let c = set_tty 7 1 b in
      let d = set_tty 8 2 c in
      subst (λ (p : Proc). SameButTty p (set_tty 3 2 d j)) all
        (same_trans (procs j) (d j) (set_tty 3 2 d j)
          (same_trans (procs j) (c j) (d j)
            (same_trans (procs j) (b j) (c j)
              (same_trans (procs j) (a j) (b j) (set_tty_same 5 0 procs j) (set_tty_same 6 1 a j))
              (set_tty_same 7 1 b j))
            (set_tty_same 8 2 c j))
          (set_tty_same 3 2 d j))
