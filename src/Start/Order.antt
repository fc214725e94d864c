-- ===== src/Start/Order.antt =====
-- src/kernel/sched.c and src/kernel/main.c: the state in which the first process runs.
use aneasyos.Base.{
  ℕ, ◌+◌, ◌-◌, ◌*◌, ◌/◌, ◌%◌, ◌<◌, ◌≤◌, ◌≡◌, refl, sym, ap, ◌∙◌, inl, inr, none, [], ◌∷◌, true,
  false, arith, ltb, if◌then◌else◌, Bool-cases, dec_lt,
}
use aneasyos.Base.Word.{word}
use aneasyos.Base.Flags.{has_flag}
use aneasyos.Base.Lists.{same_text}
use aneasyos.Pm.{Descriptor, init_descriptor, sel_kernel_cs, sel_kernel_ds}
use aneasyos.Kernel.{Kernel, Proc, free_slot, nr_all, sending}
use aneasyos.Ipc.Invariant.{IpcInv}
use aneasyos.Start.{
  Started, Frame, stack_size, task_name, privilege, first_segment, first_proc, first_frame, begun,
  init_sched, begin,
}
use aneasyos.Start.Processes.{init_sched_frames, init_sched_procs}

-- Nobody sends and no queue holds anybody: the messages are in order, with empty queues.
still-IpcInv :
    (k : Kernel)
    → ((j : ℕ) → j < nr_all → has_flag (k.proc_table j).p_flags sending ≡ false)
    → ((j : ℕ) → j < nr_all → (k.proc_table j).q_sending ≡ none)
    → IpcInv k (λ d. [])
still-IpcInv k still empty = record {
  queues = record {
    chained = λ d h. empty d h;
    distinct = λ d h. tt;
    members = λ d x h m. absurd m;
    queued = λ x h s. absurd (ground (arith, still x h, s));
  };
  ends = λ x h. ([], x, refl, (h, still x h));
  met = λ x h s. absurd (ground (arith, still x h, s));
}

-- The flags, the ticks and the queue of an entry after `init_sched`.
begun_fields :
    (gdt : ℕ → Descriptor) (j : ℕ) (p : Proc)
    → ((begun gdt j p).p_flags ≡ (if ltb j 9 then 0 else free_slot))
      × ((begun gdt j p).q_sending ≡ (if ltb j 9 then none else p.q_sending))
      × (j < 9
          → ((begun gdt j p).ticks ≡ (if ltb j 5 then 15 else 5))
            × ((begun gdt j p).priority ≡ (if ltb j 5 then 15 else 5)))
unfolding begun first_proc
begun_fields gdt j p = ground arith

-- Both kinds of segments get the privilege of the process.
first_segment_ring :
    (gdt : ℕ → Descriptor) (i sel kind : ℕ)
    → kind < 0x100
    → kind / 0x20 % 4 ≡ 0
    → (first_segment gdt i sel kind).attr1 / 0x20 % 4 ≡ privilege i
unfolding first_segment init_descriptor
first_segment_ring gdt i sel kind small plain =
    elim (Bool-cases (same_text (task_name i) (b'I' ∷ (b'N' ∷ (b'I' ∷ (b'T' ∷ [])))))) [
      | inl e ↦ rw e (ground (arith, small, plain))
      | inr e ↦ rw e (ground (arith, small, plain))
    ]

begun_rings :
    (gdt : ℕ → Descriptor) (j : ℕ) (p : Proc)
    → j < 9
    → ((begun gdt j p).ldt_c.attr1 / 0x20 % 4 ≡ privilege j)
      × ((begun gdt j p).ldt_rw.attr1 / 0x20 % 4 ≡ privilege j)
unfolding begun first_proc
begun_rings gdt j p native =
    let here : ltb j 9 ≡ true = ground (arith, native) in
    rw here (
      first_segment_ring gdt j sel_kernel_cs 0x98 (omega arith) refl,
      first_segment_ring gdt j sel_kernel_ds 0x92 (omega arith) refl,
    )

module _ (gdt : ℕ → Descriptor) (entry : ℕ → ℕ) (task_stack : ℕ) (s : Started) where
  free_queue :
      (j : ℕ)
      → j < nr_all
      → ((i : ℕ) → 9 ≤ i → i < nr_all → (s.procs i).q_sending ≡ none)
      → (if ltb j 9 then none else (s.procs j).q_sending) ≡ none
  free_queue j h empty = elim (dec_lt j 9) [
    | yes native ↦ ground (arith, native)
    | no other ↦ let e = empty j (omega (arith, other)) h in rw e (ground (arith, other))
  ]

  -- After `init_sched` and the start of `main` the messages between the processes are in order, with
  -- empty queues. The five tasks and the four processes are ready with all of their ticks, 15 for a
  -- task and 5 for a process, the other entries are free, and the first task is to run. The queues of
  -- the free entries are empty before.
  pub begin-IpcInv :
      (now : ℕ) (k : Kernel)
      → ((j : ℕ) → 9 ≤ j → j < nr_all → (s.procs j).q_sending ≡ none)
      → let k' = begin (init_sched gdt entry task_stack s).procs now k in
        IpcInv k' (λ d. [])
        × ((j : ℕ) → j < nr_all → (k'.proc_table j).p_flags ≡ (if ltb j 9 then 0 else free_slot))
        × ((j : ℕ)
            → j < 9
            → ((k'.proc_table j).ticks ≡ (if ltb j 5 then 15 else 5))
              × ((k'.proc_table j).priority ≡ (if ltb j 5 then 15 else 5)))
        × (k'.p_proc_ready ≡ 0)
  unfolding begin
  begin-IpcInv now k empty =
      let procs = (init_sched gdt entry task_stack s).procs in
      let k' = begin procs now k in
      let flags : (j : ℕ) → j < nr_all → (procs j).p_flags ≡ (if ltb j 9 then 0 else free_slot) =
        λ j h.
          ap (λ (p : Proc). p.p_flags) (init_sched_procs gdt entry task_stack s j h)
          ∙ (begun_fields gdt j (s.procs j)).0 in
      let queues : (j : ℕ) → j < nr_all → (procs j).q_sending ≡ none = λ j h.
        ap (λ (p : Proc). p.q_sending) (init_sched_procs gdt entry task_stack s j h)
        ∙ (begun_fields gdt j (s.procs j)).1
        ∙ free_queue j h empty in
      (
        still-IpcInv k' (λ j h. ground (arith, flags j h)) queues,
        flags,
        λ j h.
            let here = init_sched_procs gdt entry task_stack s j (omega (arith, h)) in
            let (ticks, priority) = (begun_fields gdt j (s.procs j)).2 h in
            (
              ap (λ (p : Proc). p.ticks) here ∙ ticks,
              ap (λ (p : Proc). p.priority) here ∙ priority,
            ),
        refl,
      )

  -- The tasks start in ring 1 and the processes in ring 3: the privilege in the code and the stack
  -- selector of each of the nine is that of the segments in its local descriptor table. The other data
  -- selectors are the stack selector, and the selector for the video memory has the same privilege. The
  -- stack of each begins one stack size above that of the next one, and the last one lies within the
  -- area.
  pub init_sched-rings :
      (j : ℕ)
      → task_stack + 0x24000 < word
      → j < 9
      → let s' = init_sched gdt entry task_stack s in
        ((s'.frames j).cs % 4 ≡ (if ltb j 5 then 1 else 3))
        × ((s'.procs j).ldt_c.attr1 / 0x20 % 4 ≡ (s'.frames j).cs % 4)
        × ((s'.procs j).ldt_rw.attr1 / 0x20 % 4 ≡ (s'.frames j).ss % 4)
        × ((s'.frames j).ds ≡ (s'.frames j).ss)
        × ((s'.frames j).es ≡ (s'.frames j).ss)
        × ((s'.frames j).fs ≡ (s'.frames j).ss)
        × ((s'.frames j).gs % 4 ≡ (s'.frames j).cs % 4)
        × ((s'.frames j).esp ≡ task_stack + stack_size * (9 - j))
  init_sched-rings j h native =
      let frame = init_sched_frames gdt entry task_stack s j h native in
      let here = init_sched_procs gdt entry task_stack s j (omega (arith, native)) in
      let (code, rest) = begun_rings gdt j (s.procs j) native in
      let cs : ((init_sched gdt entry task_stack s).frames j).cs ≡ 4 + privilege j =
        ap (λ (x : Frame). x.cs) frame ∙ unfold first_frame in refl in
      let ss : ((init_sched gdt entry task_stack s).frames j).ss ≡ 8 + 4 + privilege j =
        ap (λ (x : Frame). x.ss) frame ∙ unfold first_frame in refl in
      let gs : ((init_sched gdt entry task_stack s).frames j).gs ≡ 0x18 + privilege j =
        ap (λ (x : Frame). x.gs) frame ∙ unfold first_frame in refl in
      (
        ground (arith, cs),
        ap (λ (p : Proc). p.ldt_c.attr1 / 0x20 % 4) here ∙ code ∙ ground (arith, cs),
        ap (λ (p : Proc). p.ldt_rw.attr1 / 0x20 % 4) here ∙ rest ∙ ground (arith, ss),
        ap (λ (x : Frame). x.ds) frame ∙ unfold first_frame in sym ss,
        ap (λ (x : Frame). x.es) frame ∙ unfold first_frame in sym ss,
        ap (λ (x : Frame). x.fs) frame ∙ unfold first_frame in sym ss,
        ground (arith, gs, cs),
        ap (λ (x : Frame). x.esp) frame ∙ unfold first_frame in refl,
      )
