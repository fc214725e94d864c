-- ===== src/Mm/Tests.antt =====
-- src/mm/forkexit.c and src/mm/main.c: the theorems at a small state.
use aneasyos.Base.{ℕ, ◌<◌, ◌≡◌, refl, ◌⊎◌, true, [], arith, ◌==◌, if◌then◌else◌, update}
use aneasyos.Base.Word.{add32}
use aneasyos.Base.Flags.{set_flag}
use aneasyos.Kernel.{
  Kernel, Message, Outcome, done, ◌>>=◌, nr_all, waiting, hanging, no_task, set_proc,
}
use aneasyos.Kernel.Samples.{booted, ready_proc, blank_message}
use aneasyos.Pm.{seg_size, text_limit}
use aneasyos.Ipc.{va2la}
use aneasyos.Mm.{
  proc_image_size, init, alloc_mem, forked, one_segment, do_exit, do_wait, syscall_ret,
}
use aneasyos.Mm.Exit.{adopted, do_exit_hangs}
use aneasyos.Mm.Waiting.{IsChild, IsHanging, NoneHangs, NoChild, freed, do_wait_exact}
use aneasyos.Mm.Fork.{forked_segments}

-- A send that leaves its message at the address 0x400.
abbrev leave_message : Kernel → ℕ → Message → Outcome Kernel
leave_message k dest m = done (record k { memory = update k.memory 0x400 m })

-- Process 10 is a child of process 9, and 9 of INIT.
abbrev family : Kernel
family =
    set_proc 10 (record (ready_proc 10) { p_parent = 9 })
      (set_proc 9 (record (ready_proc 9) { p_parent = init }) booted)

granted_9 : alloc_mem 0x400_0000 9 0x20_0000 ≡ done 0xa0_0000
unfolding alloc_mem
granted_9 = refl

granted_12 : alloc_mem 0x400_0000 12 0x1000 ≡ done 0x100_0000
unfolding alloc_mem
granted_12 = refl

do_exit_hangs_example :
    (k' : Kernel) × (do_exit leave_message blank_message family 9 3 ≡ done k')
    × (k'.proc_table 10
        ≡ adopted 9 0 nr_all 10 (
            if 10 == 9
            then record (family.proc_table 10) {
              exit_status = 3;
              p_flags = set_flag (family.proc_table 10).p_flags hanging;
            }
            else family.proc_table 10))
    × (k' ≡ record family { proc_table = k'.proc_table })
do_exit_hangs_example =
    do_exit_hangs leave_message blank_message family 9 3 10 (omega arith) refl refl

ended : (k' : Kernel) × (do_exit leave_message blank_message family 9 3 ≡ done k')
ended =
    let (k', e, _, _) =
      do_exit_hangs leave_message blank_message family 9 3 10 (omega arith) refl refl in
    (k', e)

do_wait_exact_example :
    ((c : ℕ) × (c < nr_all)
      × IsChild family 9 c
      × IsHanging family c
      × NoneHangs family 9 0 c
      × (do_wait leave_message blank_message family 9 ≡ (do
        sent ← leave_message family 9 (record blank_message {
          type = syscall_ret;
          m3i2 = c;
          m3i1 = (family.proc_table c).exit_status;
        })
        done (freed c sent))))
    ⊎ (NoneHangs family 9 0 nr_all
        × ((c : ℕ) × (c < nr_all) × IsChild family 9 c)
        × (do_wait leave_message blank_message family 9
            ≡ done (
                set_proc 9
                  (record (family.proc_table 9) {
                    p_flags = set_flag (family.proc_table 9).p_flags waiting;
                  })
                  family)))
    ⊎ (NoChild family 9 0 nr_all
        × (do_wait leave_message blank_message family 9
            ≡ leave_message family 9 (record blank_message { type = syscall_ret; m3i2 = no_task })))
do_wait_exact_example = do_wait_exact leave_message blank_message family 9

forked_segments_example :
    let child = forked (ready_proc 5) (ready_proc 11) 5 11 0xe0_0000 [] in
    (one_segment child.ldt_c child.ldt_rw ≡ true)
    × (seg_size (text_limit child.ldt_c) child.ldt_c ≡ proc_image_size)
    × (va2la (set_proc 11 child booted) 11 0x400 ≡ done (add32 0xe0_0000 0x400))
forked_segments_example =
    forked_segments booted (ready_proc 5) (ready_proc 11) 5 11 0xe0_0000 0x400 [] (omega arith)
      (omega arith)

abbrev full : Kernel
full = record booted { proc_table = ready_proc }
