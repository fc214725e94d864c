-- ===== src/Start.antt =====
-- src/kernel/main.c, src/kernel/sched.c and src/kernel/global.c: how the kernel starts: the tables that
-- `cstart` fills, the processes of `init_sched`, and the state in which `main` leaves for them.
-- Addresses that the linker fixes are arguments. `memset` of src/lib/string.c changes only the first byte
-- of an entry of `proc_table`, which lies in the saved registers, so `cstart` leaves the fields of the
-- entry.
pub mod Ldts
pub mod Processes
pub mod Order
mod Tests
use aneasyos.Base.{
  ℕ, zero, suc, none, ◌+◌, ◌-◌, ◌*◌, ◌/◌, Bool, true, false, List, [], ◌∷◌, ltb, ◌==◌,
  if◌then◌else◌, update,
}
use aneasyos.Base.Lists.{same_text}
use aneasyos.Base.Word.{add32, sub32}
use aneasyos.Pm.{
  Descriptor, init_descriptor, seg2phy, sel_kernel_cs, sel_kernel_ds, sel_ldt_first, ind_ldt_first,
  gdt_size,
}
use aneasyos.Kernel.{
  Kernel, Proc, Outcome, done, ◌>>=◌, ◌>>◌, assert, nr_all, nr_tasks, nr_native_procs, free_slot,
  no_task,
}

-- GDT and `proc_table`
pub record Tables : Type 0 where
  pub gdt : ℕ → Descriptor
  pub procs : ℕ → Proc

-- `vir2phys(seg2phy(SEL_KERNEL_DS), vir)`
abbrev pub kernel_address : (ℕ → Descriptor) → ℕ → ℕ
kernel_address gdt vir = add32 (seg2phy gdt sel_kernel_ds) vir

-- The first four descriptors: DA_32 is 0x4000, DA_LIMIT_4K 0x8000, DA_CR 0x9a, DA_DRW 0x92, DA_DPL3 0x60.
unfoldable pub first_descriptors : (ℕ → Descriptor) → ℕ → Descriptor
first_descriptors gdt =
    update
      (update (update (update gdt 0 (init_descriptor 0 0 0)) 1 (init_descriptor 0 0xfffff 0xc09a)) 2
        (init_descriptor 0 0xfffff 0xc092))
      3 (init_descriptor 0xb8000 0xffff 0xf2)

-- The loop over the processes at `i`, with `n` of them left. `ldts` is the address of the table of a
-- process; DA_LDT is 0x82, LDT_SIZE * sizeof(DESCRIPTOR) - 1 is 15.
unfoldable pub link_ldts : (ℕ → ℕ) → ℕ → ℕ → Tables → Outcome Tables
link_ldts ldts zero i t = done t
link_ldts ldts (suc n) i t = do
  assert (ltb (ind_ldt_first + i) gdt_size)
  link_ldts ldts n (suc i) record {
    gdt =
        update t.gdt (ind_ldt_first + i) (init_descriptor (kernel_address t.gdt (ldts i)) 15 0x82);
    procs = update t.procs i (record (t.procs i) { ldt_sel = sel_ldt_first + i * 8 });
  }

-- `cstart` without the interrupts: `ind_tss` is 4, `tss` its address, sizeof(tss) is 104, DA_386TSS
-- is 0x89.
unfoldable pub cstart : (ℕ → ℕ) → ℕ → Tables → Outcome Tables
cstart ldts tss t = do
  t' ← link_ldts ldts nr_all 0 (record t { gdt = first_descriptors t.gdt })
  done (record t' { gdt = update t'.gdt 4 (init_descriptor (kernel_address t'.gdt tss) 103 0x89) })

-- What `init_sched` sets of STACK_FRAME: the segment registers, the entry and the stack that a
-- process starts with. The general registers keep what they hold.
pub record Frame : Type 0 where
  pub cs : ℕ
  pub ds : ℕ
  pub es : ℕ
  pub fs : ℕ
  pub ss : ℕ
  pub gs : ℕ
  pub eip : ℕ
  pub esp : ℕ
  pub eflags : ℕ

abbrev pub stack_size : ℕ
stack_size = 0x4000

-- Is the entry a task? The others of the first nine are processes.
abbrev pub is_task : ℕ → Bool
is_task i = ltb i nr_tasks

-- The names in `task_table` and `user_proc_table`.
unfoldable pub task_name : ℕ → List ℕ
task_name i =
    if i == 0
    then b't' ∷ (b't' ∷ (b'y' ∷ []))
    else if i == 1
    then b's' ∷ (b'y' ∷ (b's' ∷ []))
    else if i == 2
    then b'H' ∷ (b'D' ∷ [])
    else if i == 3
    then b'F' ∷ (b'S' ∷ [])
    else if i == 4
    then b'M' ∷ (b'M' ∷ [])
    else if i == 5
    then b'I' ∷ (b'N' ∷ (b'I' ∷ (b'T' ∷ [])))
    else b't'
      ∷ (b'e' ∷ (b's' ∷ (b't' ∷ ((if i == 6 then b'A' else if i == 7 then b'B' else b'C') ∷ []))))

abbrev pub privilege : ℕ → ℕ
privilege i = if is_task i then 1 else 3

-- A descriptor of the process: of a segment of the kernel with another privilege, or of INIT with
-- the memory up to k_base + k_limit. DA_C is 0x98; the privilege stands in the bits 5 and 6.
unfoldable pub first_segment : (ℕ → Descriptor) → ℕ → ℕ → ℕ → Descriptor
first_segment gdt i sel kind =
    if same_text (task_name i) (b'I' ∷ (b'N' ∷ (b'I' ∷ (b'T' ∷ []))))
    then init_descriptor 0 ((0x30000 + 0x7ffff) / 4096) (0xc000 + kind + privilege i * 0x20)
    else record (gdt (sel / 8)) { attr1 = kind + privilege i * 0x20 }

unfoldable pub first_proc : (ℕ → Descriptor) → ℕ → Proc → Proc
first_proc gdt i p =
    let prio = if is_task i then 15 else 5 in
    record p {
      wake_up_ticks = 0;
      p_name = task_name i;
      p_parent = no_task;
      ldt_c = first_segment gdt i sel_kernel_cs 0x98;
      ldt_rw = first_segment gdt i sel_kernel_ds 0x92;
      pid = i;
      nr_tty = 0;
      runtime = 0;
      p_flags = 0;
      p_msg = 0;
      p_recvfrom = no_task;
      p_sendto = no_task;
      has_int_msg = 0;
      q_sending = none;
      next_sending = none;
      ticks = prio;
      priority = prio;
    }

-- SA_TIL is 4; `entry` is the address of the function of a task.
unfoldable pub first_frame : (ℕ → ℕ) → ℕ → ℕ → Frame
first_frame entry i stack = record {
  cs = 4 + privilege i;
  ds = 8 + 4 + privilege i;
  es = 8 + 4 + privilege i;
  fs = 8 + 4 + privilege i;
  ss = 8 + 4 + privilege i;
  gs = 0x18 + privilege i;
  eip = entry i;
  esp = stack;
  eflags = if is_task i then 0x1202 else 0x202;
}

pub record Started : Type 0 where
  pub procs : ℕ → Proc
  pub frames : ℕ → Frame

-- What the loop of `init_sched` makes of an entry: a task or a process, or a free entry.
unfoldable pub begun : (ℕ → Descriptor) → ℕ → Proc → Proc
begun gdt i p =
    if ltb i (nr_tasks + nr_native_procs)
    then first_proc gdt i p
    else record p { wake_up_ticks = 0; p_flags = free_slot }

-- The loop of `init_sched` at `i`, with `n` entries left; `stack` is `p_task_stack`.
unfoldable pub init_procs : (ℕ → Descriptor) → (ℕ → ℕ) → ℕ → ℕ → ℕ → Started → Started
init_procs gdt entry zero i stack s = s
init_procs gdt entry (suc n) i stack s =
    let native = ltb i (nr_tasks + nr_native_procs) in
    init_procs gdt entry n (suc i) (if native then sub32 stack stack_size else stack) record {
      procs = update s.procs i (begun gdt i (s.procs i));
      frames = if native then update s.frames i (first_frame entry i stack) else s.frames;
    }

abbrev pub set_tty : ℕ → ℕ → (ℕ → Proc) → ℕ → Proc
set_tty i nr procs = update procs i (record (procs i) { nr_tty = nr })

-- `init_sched`, without the programming of the timer; `task_stack` is its address.
unfoldable pub init_sched : (ℕ → Descriptor) → (ℕ → ℕ) → ℕ → Started → Started
init_sched gdt entry task_stack s =
    let s' = init_procs gdt entry nr_all 0 (add32 task_stack (9 * stack_size)) s in
    record s' {
      procs = set_tty 3 2 (set_tty 8 2 (set_tty 7 1 (set_tty 6 1 (set_tty 5 0 s'.procs))));
    }

-- What `main` does after it; `now` is the time of the clock chip.
unfoldable pub begin : (ℕ → Proc) → ℕ → Kernel → Kernel
begin procs now k = record k {
  proc_table = procs;
  ticks = 0;
  kernel_ticks = 0;
  unix_time = now;
  k_reenter = 0;
  p_proc_ready = 0;
}
