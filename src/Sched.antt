-- ===== src/Sched.antt =====
-- src/kernel/sched.c, src/kernel/clock.c, src/kernel/systask.c and src/kernel/syscall.c: the scheduler, the clock
-- interrupt and sleeping. Tick counts and priorities are ints.
pub mod Scan
pub mod Pick
pub mod Clock
pub mod Sleep
mod Tests
use aneasyos.Base.{
  ℕ, zero, suc, ◌+◌, ◌*◌, ◌/◌, ◌%◌, Bool, true, false, ◌&&◌, ◌==◌, ◌!=◌, if◌then◌else◌, update,
}
use aneasyos.Base.Word.{add32, sub32, mul32, slt, sle, magnitude, sdiv}
use aneasyos.Base.Flags.{has_flag, set_flag, reset_flag}
use aneasyos.Kernel.{Kernel, Proc, Outcome, done, spinning, ◌>>=◌, nr_all, proc_sleep, set_proc}

abbrev pub hz : ℕ
hz = 100

-- A sleeper whose time has come is woken.
abbrev pub wake : ℕ → Proc → Proc
wake now p =
    if has_flag p.p_flags proc_sleep && sle p.wake_up_ticks now
    then record p { p_flags = reset_flag p.p_flags proc_sleep; wake_up_ticks = 0 }
    else p

-- The body of the first loop of `schedule` for the process `i`; `max` is MaxTicks.
unfoldable pub visit : ℕ → Kernel × ℕ → Kernel × ℕ
visit i (k, max) =
    let p = wake k.ticks (k.proc_table i) in
    let k' = set_proc i p k in
    if (p.p_flags == 0) && slt max p.ticks
    then (record k' { p_proc_ready = i }, p.ticks)
    else (k', max)

unfoldable pub scan : ℕ → ℕ → Kernel × ℕ → Kernel × ℕ
scan zero i s = s
scan (suc n) i s = scan n (i + 1) (visit i s)

abbrev pub refilled : Proc → Proc
refilled p = if p.p_flags == 0 then record p { ticks = p.priority } else p

-- The second loop: every ready process gets its priority as ticks.
unfoldable pub refill : ℕ → ℕ → Kernel → Kernel
refill zero i k = k
refill (suc n) i k = refill n (i + 1) (set_proc i (refilled (k.proc_table i)) k)

-- `while(!MaxTicks)`, on fuel.
unfoldable pub schedule_loop : ℕ → Kernel → Outcome Kernel
schedule_loop zero k = spinning
schedule_loop (suc fuel) k =
    let (k', max) = scan nr_all 0 (k, 0) in
    let again = schedule_loop fuel (refill nr_all 0 k') in if max == 0 then again else done k'

-- Where two rounds choose no process, no later round does.
unfoldable pub schedule : Kernel → Outcome Kernel
schedule k = schedule_loop 2 k

-- The state after the counters of `clock_handler` have moved on.
unfoldable pub count_tick : Kernel → Kernel
count_tick k =
    let now = add32 k.ticks 1 in
    let p = k.proc_table k.p_proc_ready in
    let time = if magnitude now % hz == 0 then add32 k.unix_time 1 else k.unix_time in
    set_proc k.p_proc_ready (record p { ticks = sub32 p.ticks 1; runtime = add32 p.runtime 1 })
      (record k { ticks = now; unix_time = time })

unfoldable pub clock_handler : Kernel → Outcome Kernel
unfolding count_tick
clock_handler k =
    let k' = count_tick k in
    if k'.k_reenter != 0
    then done (record k' { kernel_ticks = add32 k'.kernel_ticks 1 })
    else (if slt 0 (k'.proc_table k'.p_proc_ready).ticks then done k' else schedule k')

-- `do_sleep_tick`, and what `sys_sleep` does before it calls `schedule`.
unfoldable pub do_sleep_tick : ℕ → ℕ → Kernel → Kernel
do_sleep_tick pid tick k =
    let p = k.proc_table pid in
    set_proc pid
      (record p { p_flags = set_flag p.p_flags proc_sleep; wake_up_ticks = add32 k.ticks tick }) k

-- `ms * HZ / 1000`
abbrev pub ms_to_ticks : ℕ → ℕ
ms_to_ticks ms = sdiv (mul32 ms hz) 1000

unfoldable pub sys_sleep : ℕ → ℕ → Kernel → Outcome Kernel
unfolding do_sleep_tick
sys_sleep ms pid k = schedule (do_sleep_tick pid (ms_to_ticks ms) k)

unfoldable pub sys_get_ticks : Kernel → ℕ
sys_get_ticks k = k.ticks

unfoldable pub sys_get_time : Kernel → ℕ
sys_get_time k = k.unix_time

-- `do_clock`
unfoldable pub do_clock : Kernel → ℕ
do_clock k = sdiv (mul32 k.ticks 1000) hz
