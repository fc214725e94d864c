-- ===== src/Start/Tests.antt =====
-- src/kernel/main.c and src/kernel/sched.c: the theorems at a kernel that is all zero.
use aneasyos.Base.{ℕ, ◌+◌, ◌*◌, ◌-◌, ◌/◌, ◌%◌, ◌<◌, ◌≡◌, refl, [], arith, ltb, if◌then◌else◌}
use aneasyos.Pm.{seg2phy}
use aneasyos.Kernel.{done, free_slot, nr_all}
use aneasyos.Kernel.Samples.{flat, ready_proc, booted}
use aneasyos.Ipc.Invariant.{IpcInv}
use aneasyos.Start.{Tables, Started, Frame, stack_size, cstart, init_sched, begin}
use aneasyos.Start.Ldts.{cstart-ldts}
use aneasyos.Start.Order.{begin-IpcInv, init_sched-rings}

abbrev tables : Tables
tables = record { gdt = λ i. flat; procs = λ i. ready_proc 0 }

abbrev no_frame : Frame
no_frame = record { cs = 0; ds = 0; es = 0; fs = 0; ss = 0; gs = 0; eip = 0; esp = 0; eflags = 0 }

abbrev before : Started
before = record { procs = λ i. ready_proc 0; frames = λ i. no_frame }

cstart-ldts_example :
    (t' : Tables) × (cstart (λ j. 0x40000) 0x50000 tables ≡ done t')
    × ((j : ℕ) → j < nr_all → seg2phy t'.gdt (t'.procs j).ldt_sel ≡ 0x40000)
cstart-ldts_example = cstart-ldts (λ j. 0x40000) (λ j. omega arith) 0x50000 tables

begin-IpcInv_example :
    let k' = begin (init_sched (λ i. flat) (λ i. 0x31000) 0x60000 before).procs 1000 booted in
    IpcInv k' (λ d. [])
    × ((j : ℕ) → j < nr_all → (k'.proc_table j).p_flags ≡ (if ltb j 9 then 0 else free_slot))
    × ((j : ℕ)
        → j < 9
        → ((k'.proc_table j).ticks ≡ (if ltb j 5 then 15 else 5))
          × ((k'.proc_table j).priority ≡ (if ltb j 5 then 15 else 5)))
    × (k'.p_proc_ready ≡ 0)
begin-IpcInv_example =
    begin-IpcInv (λ i. flat) (λ i. 0x31000) 0x60000 before 1000 booted (λ j lo h. refl)

init_sched-rings_example :
    let s' = init_sched (λ i. flat) (λ i. 0x31000) 0x60000 before in
    ((s'.frames 5).cs % 4 ≡ (if ltb 5 5 then 1 else 3))
    × ((s'.procs 5).ldt_c.attr1 / 0x20 % 4 ≡ (s'.frames 5).cs % 4)
    × ((s'.procs 5).ldt_rw.attr1 / 0x20 % 4 ≡ (s'.frames 5).ss % 4)
    × ((s'.frames 5).ds ≡ (s'.frames 5).ss)
    × ((s'.frames 5).es ≡ (s'.frames 5).ss)
    × ((s'.frames 5).fs ≡ (s'.frames 5).ss)
    × ((s'.frames 5).gs % 4 ≡ (s'.frames 5).cs % 4)
    × ((s'.frames 5).esp ≡ 0x60000 + stack_size * (9 - 5))
init_sched-rings_example =
    init_sched-rings (λ i. flat) (λ i. 0x31000) 0x60000 before 5 (omega arith) (omega arith)
