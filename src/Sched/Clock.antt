-- ===== src/Sched/Clock.antt =====
-- src/kernel/clock.c and src/kernel/systask.c: time slices, the time of day and sleeping.
use aneasyos.Base.{ℕ, zero, suc, ◌+◌, ◌/◌, ◌<◌, ◌≡◌, refl, arith}
use aneasyos.Base.Word.{word, half_word}
use aneasyos.Kernel.{Kernel, Outcome, done, ◌>>=◌}
use aneasyos.Sched.{count_tick, clock_handler, hz}

-- `n` clock interrupts one after another.
unfoldable pub clock_run : ℕ → Kernel → Outcome Kernel
clock_run zero k = done k
clock_run (suc n) k = do k' ← clock_handler k; clock_run n k'

-- What a number of clock interrupts has done to the running process `c` and to the counters.
abbrev pub Sliced : ℕ → ℕ → Kernel → Kernel → Type 0
Sliced n c k k' =
    (k'.p_proc_ready ≡ c)
    × ((k'.proc_table c).ticks + n ≡ (k.proc_table c).ticks)
    × ((k'.proc_table c).runtime ≡ (k.proc_table c).runtime + n)
    × (k'.ticks ≡ k.ticks + n)
    × (k'.unix_time + k.ticks / hz ≡ k.unix_time + (k.ticks + n) / hz)

one_tick :
    (k : Kernel) (c : ℕ)
    → k.p_proc_ready ≡ c
    → 1 < (k.proc_table c).ticks
    → (k.proc_table c).ticks < half_word
    → (k.proc_table c).runtime + 1 < half_word
    → k.ticks + 1 < half_word
    → k.unix_time + 1 < word
    → k.k_reenter ≡ 0
    → (clock_handler k ≡ done (count_tick k))
      × Sliced 1 c k (count_tick k)
      × ((count_tick k).k_reenter ≡ 0)
unfolding clock_handler count_tick
one_tick k c run a b r d e f = ground arith

clock_run-Sliced :
    (n : ℕ) (k : Kernel) (c : ℕ)
    → k.p_proc_ready ≡ c
    → n < (k.proc_table c).ticks
    → (k.proc_table c).ticks < half_word
    → (k.proc_table c).runtime + n < half_word
    → k.ticks + n < half_word
    → k.unix_time + n < word
    → k.k_reenter ≡ 0
    → (k' : Kernel) × (clock_run n k ≡ done k') × Sliced n c k k'
unfolding clock_run
clock_run-Sliced zero k c run a b r d e f =
    (k, refl, (run, omega arith, omega arith, omega arith, omega arith))
clock_run-Sliced (suc n) k c run a b r d e f =
    let (s, (run', t, u, now, time), again) =
      one_tick k c run (omega arith) b (omega arith) (omega arith) (omega arith) f in
    let (k', s', (run'', t', u', now', time')) =
      clock_run-Sliced n (count_tick k) c run' (omega (arith, t)) (omega (arith, t))
        (omega (arith, u)) (omega (arith, now)) (omega (arith, time)) again in
    (
      k',
      rw s s',
      (
        run'',
        omega (arith, t, t'),
        omega (arith, u, u'),
        omega (arith, now, now'),
        ground (arith, now, now', time, time'),
      ),
    )

-- While the running process `c` has more ticks left than `n`, `n` clock interrupts leave it
-- running. They take `n` from its ticks and add `n` to its run time and to the tick counter, and the
-- time of day moves on by the whole hundreds of ticks passed; as long as no counter overflows and
-- the interrupts do not hit the kernel.
pub clock_run_slice :
    (n : ℕ) (k : Kernel)
    → n < (k.proc_table k.p_proc_ready).ticks
    → (k.proc_table k.p_proc_ready).ticks < half_word
    → (k.proc_table k.p_proc_ready).runtime + n < half_word
    → k.ticks + n < half_word
    → k.unix_time + n < word
    → k.k_reenter ≡ 0
    → (k' : Kernel) × (clock_run n k ≡ done k') × Sliced n k.p_proc_ready k k'
clock_run_slice n k = clock_run-Sliced n k k.p_proc_ready refl
