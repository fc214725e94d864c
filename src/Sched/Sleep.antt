-- ===== src/Sched/Sleep.antt =====
-- src/kernel/systask.c, src/kernel/clock.c and src/kernel/sched.c: sleeping.
use aneasyos.Base.{
  ℕ, zero, suc, ◌+◌, ◌<◌, ◌≡◌, refl, ap, ◌∙◌, ◌≢◌, true, false, arith, Bool-cases, inl, inr, ◌!=◌,
}
use aneasyos.Base.Word.{half_word, add32, biased, sle, slt}
use aneasyos.Base.Flags.{has_flag}
use aneasyos.Kernel.{Kernel, done, ◌>>=◌, nr_all, proc_sleep}
use aneasyos.Sched.{schedule, count_tick, clock_handler, do_sleep_tick}
use aneasyos.Sched.Pick.{schedule-table, schedule-SameGlobals, schedule_chooses}
use aneasyos.Sched.Clock.{clock_run}

-- The process `pid` sleeps until the tick `w` and does not run, and `i` can run.
record Resting (k : Kernel) (pid w i : ℕ) : Type 0 where
  asleep : has_flag (k.proc_table pid).p_flags proc_sleep ≡ true
  until : (k.proc_table pid).wake_up_ticks ≡ w
  other_runs : k.p_proc_ready ≢ pid
  ready : (k.proc_table i).p_flags ≡ 0
  priority : biased 0 < biased (k.proc_table i).priority

module _ (pid w i : ℕ) (pid_in : pid < nr_all) (i_in : i < nr_all) (small : w < half_word) where
  count_tick-Resting :
      (k : Kernel)
      → Resting k pid w i
      → k.ticks + 1 < half_word
      → Resting (count_tick k) pid w i × ((count_tick k).ticks ≡ k.ticks + 1)
  unfolding count_tick
  count_tick-Resting k r h = (
    record {
      asleep = ground (arith, r.asleep);
      until = ground (arith, r.until);
      other_runs = r.other_runs;
      ready = ground (arith, r.ready);
      priority = ground (arith, r.priority);
    },
    ground (arith, h),
  )

  -- Before the time comes `schedule` chooses a process, which is not the sleeper.
  schedule-Resting :
      (k : Kernel)
      → has_flag (k.proc_table pid).p_flags proc_sleep ≡ true
      → (k.proc_table pid).wake_up_ticks ≡ w
      → (k.proc_table i).p_flags ≡ 0
      → biased 0 < biased (k.proc_table i).priority
      → k.ticks < w
      → (k' : Kernel) × (schedule k ≡ done k') × Resting k' pid w i × (k'.ticks ≡ k.ticks)
  schedule-Resting k asleep until ready priority early =
      let (k', s, c) = schedule_chooses k i i_in (ground (arith, ready)) priority in
      let sleeper = schedule-table k pid s pid_in in
      let runner = schedule-table k i s i_in in
      let still : has_flag (k'.proc_table pid).p_flags proc_sleep ≡ true =
        ground (arith, sleeper, asleep, until, early, small) in
      (
        k',
        s,
        record {
          asleep = still;
          until = ground (arith, sleeper, asleep, until, early, small);
          other_runs = λ e.
              ground (arith, still, ap (λ (p : ℕ). (k'.proc_table p).p_flags) e, c.chosen_ready);
          ready = ground (arith, runner, ready);
          priority = ground (arith, runner, ready, priority);
        },
        (schedule-SameGlobals k s).ticks_same,
      )

  clock_handler-Resting :
      (k : Kernel)
      → Resting k pid w i
      → k.ticks + 1 < w
      → (k' : Kernel) × (clock_handler k ≡ done k') × Resting k' pid w i × (k'.ticks ≡ k.ticks + 1)
  unfolding clock_handler
  clock_handler-Resting k r early =
      let (counted, now) = count_tick-Resting k r (omega (arith, early, small)) in
      let k1 = count_tick k in
      elim (Bool-cases (k1.k_reenter != 0)) [
        | inl nested ↦ rw nested (
          record k1 { kernel_ticks = add32 k1.kernel_ticks 1 },
          refl,
          record {
            asleep = counted.asleep;
            until = counted.until;
            other_runs = counted.other_runs;
            ready = counted.ready;
            priority = counted.priority;
          },
          now,
        )
        | inr outer ↦ elim (Bool-cases (slt 0 (k1.proc_table k1.p_proc_ready).ticks)) [
          | inl left ↦ rw (outer, left) (k1, refl, counted, now)
          | inr spent ↦
              let (k', s, rests, same) =
                schedule-Resting k1 counted.asleep counted.until counted.ready counted.priority
                  (omega (arith, now, early)) in
              rw (outer, spent) (k', s, rests, same ∙ now)
        ]
      ]

  clock_run-Resting :
      (n : ℕ) (k : Kernel)
      → Resting k pid w i
      → k.ticks + n < w
      → (k' : Kernel) × (clock_run n k ≡ done k') × Resting k' pid w i
  unfolding clock_run
  clock_run-Resting zero k r early = (k, refl, r)
  clock_run-Resting (suc n) k r early =
      let (k1, e, r1, now) = clock_handler-Resting k r (omega (arith, early)) in
      let (k2, run, r2) = clock_run-Resting n k1 r1 (omega (arith, early, now)) in
      (k2, rw e run, r2)

-- A process that puts itself to sleep for `tick` ticks does not run before that time: `schedule`
-- returns, and so does every one of fewer than `tick` clock interrupts after it; then the sleeper is
-- still asleep until that tick, and another process runs. Some other process is ready and has a
-- positive priority, the sleeper was ready or blocked but not asleep, and the tick counter does not
-- overflow.
pub sleeper_waits :
    (n : ℕ) (k : Kernel) (pid tick i : ℕ)
    → pid < nr_all
    → i < nr_all
    → i ≢ pid
    → n < tick
    → k.ticks + tick < half_word
    → (k.proc_table pid).p_flags < proc_sleep
    → (k.proc_table i).p_flags ≡ 0
    → biased 0 < biased (k.proc_table i).priority
    → (k' : Kernel) × ((schedule (do_sleep_tick pid tick k) >>= clock_run n) ≡ done k')
      × (has_flag (k'.proc_table pid).p_flags proc_sleep ≡ true)
      × ((k'.proc_table pid).wake_up_ticks ≡ k.ticks + tick)
      × (k'.p_proc_ready ≢ pid)
unfolding do_sleep_tick
sleeper_waits n k pid tick i pid_in i_in ne short fits flags ready priority =
    let k0 = do_sleep_tick pid tick k in
    let w = k.ticks + tick in
    let (k1, s, r, same) =
      schedule-Resting pid w i pid_in i_in fits k0 (ground (arith, flags)) (ground (arith, fits))
        (ground (arith, ne, ready)) (ground (arith, ne, priority)) (omega (arith, short)) in
    let (k2, run, rests) =
      clock_run-Resting pid w i pid_in i_in fits n k1 r (omega (arith, same, short)) in
    (k2, rw s run, rests.asleep, rests.until, rests.other_runs)

-- A sleeper whose time has come is awake after `schedule`: the sleep bit is off and the other flags
-- are as they were.
pub sleeper_woken :
    (k k' : Kernel) (pid : ℕ)
    → pid < nr_all
    → has_flag (k.proc_table pid).p_flags proc_sleep ≡ true
    → sle (k.proc_table pid).wake_up_ticks k.ticks ≡ true
    → schedule k ≡ done k'
    → (has_flag (k'.proc_table pid).p_flags proc_sleep ≡ false)
      × ((k'.proc_table pid).p_flags + proc_sleep ≡ (k.proc_table pid).p_flags)
sleeper_woken k k' pid h a t e = ground (arith, schedule-table k pid e h)
