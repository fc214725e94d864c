-- ===== src/Sched/Tests.antt =====
-- src/kernel/sched.c and src/kernel/clock.c: runs of the scheduler, and the theorems at small states.
use aneasyos.Base.{◌≡◌, refl, inl, ◌≢◌, true, arith, update}
use aneasyos.Base.Flags.{has_flag}
use aneasyos.Kernel.{Kernel, Outcome, done, spinning, ◌>>=◌, nr_all, proc_sleep, set_proc}
use aneasyos.Kernel.Samples.{booted, ready_proc}
use aneasyos.Sched.{schedule, schedule_loop, scan, visit, refill, do_sleep_tick}
use aneasyos.Sched.Pick.{Chosen, schedule_picks}
use aneasyos.Sched.Clock.{clock_run, Sliced, clock_run_slice}
use aneasyos.Sched.Sleep.{sleeper_waits}

-- Process 3 is ahead of the others.
abbrev ahead : Kernel
ahead = set_proc 3 (record (ready_proc 3) { ticks = 16 }) booted

ahead_scanned : (scan nr_all 0 (ahead, 0)).0.p_proc_ready ≡ 3
unfolding scan visit
ahead_scanned = refl

-- Only process 2 lives, and it sleeps until tick 200.
abbrev asleep : Kernel
asleep = record booted {
  proc_table =
      update (λ i. record (ready_proc i) { p_flags = 0x20 }) 2
        (record (ready_proc 2) { p_flags = proc_sleep; wake_up_ticks = 200 });
}

asleep_spins : schedule asleep ≡ spinning
unfolding schedule schedule_loop scan visit refill
asleep_spins = refl

schedule_picks_example : (k' : Kernel) × (schedule ahead ≡ done k') × Chosen k'
schedule_picks_example = schedule_picks ahead 3 (omega arith) (inl refl) (omega arith)

clock_run_slice_example : (k' : Kernel) × (clock_run 4 booted ≡ done k') × Sliced 4 0 booted k'
clock_run_slice_example =
    clock_run_slice 4 booted (omega arith) (omega arith) (omega arith) (omega arith) (omega arith)
      refl

sleeper_waits_example :
    (k' : Kernel) × ((schedule (do_sleep_tick 0 5 booted) >>= clock_run 3) ≡ done k')
    × (has_flag (k'.proc_table 0).p_flags proc_sleep ≡ true)
    × ((k'.proc_table 0).wake_up_ticks ≡ 204)
    × (k'.p_proc_ready ≢ 0)
sleeper_waits_example =
    sleeper_waits 3 booted 0 5 1 (omega arith) (omega arith) (λ e. absurd (omega (arith, e)))
      (omega arith) (omega arith) (omega arith) refl (omega arith)

-- What `schedule` makes of a state.
abbrev after_schedule : Outcome Kernel → Kernel
after_schedule (done k) = k
after_schedule _ = booted

abbrev due : Kernel
due = record asleep { ticks = 200 }

abbrev woken_up : Kernel
woken_up = after_schedule (schedule due)

woken_up_done : schedule due ≡ done woken_up
unfolding schedule schedule_loop scan visit refill
woken_up_done = refl
