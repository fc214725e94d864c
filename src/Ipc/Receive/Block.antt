-- ===== src/Ipc/Receive/Block.antt =====
-- src/kernel/sched.c: a `msg_recevie` that finds no message blocks the receiver.
use aneasyos.Base.{
  ℕ, ◌<◌, ◌≡◌, refl, sym, subst, ◌∙◌, ◌≢◌, ◌⊎◌, inl, inr, true, false, none, List, [], arith,
  update_self, ◌==◌, ◌!=◌, ◌&&◌, ℕ_discrete, lt→ltb,
}
use aneasyos.Base.Indices.{IsIn}
use aneasyos.Base.Flags.{has_flag, set_flag}
use aneasyos.Kernel.{Kernel, Message, done, nr_all, any, interrupt, no_task, sending, receiving}
use aneasyos.Sched.{schedule}
use aneasyos.Sched.Pick.{Chosen, schedule_chooses, schedule-table}
use aneasyos.Ipc.{block, is_waiting_for}
use aneasyos.Ipc.Chain.{Chain, nexts}
use aneasyos.Ipc.Deadlock.{IsSending}
use aneasyos.Ipc.Invariant.{IpcInv, IpcInv-frame, schedule-SameIpc}
use aneasyos.Ipc.Calm.{Calm, Calm-refl, Calm-IpcInv}
use aneasyos.Ipc.Send.{IsIdle, CanRun}
use aneasyos.Ipc.Receive.{choose, begin_wait, await, msg_recevie}

-- No process is blocked in sending what the receive asks for.
abbrev pub NoneSends : Kernel → (ℕ → List ℕ) → ℕ → ℕ → Type 0
NoneSends k q who src =
    ((src ≡ any) × (q who ≡ []))
    ⊎ ((src < nr_all)
        × ((has_flag (k.proc_table src).p_flags sending ≡ false)
            ⊎ ((k.proc_table src).p_sendto ≢ who)))
    ⊎ (src ≡ interrupt)

choose-none :
    (k : Kernel) (q : ℕ → List ℕ) (who src : ℕ)
    → IpcInv k q
    → who < nr_all
    → NoneSends k q who src
    → choose k who src ≡ done none
unfolding choose
choose-none k q who src v h (inl (e, empty)) =
    let c : (k.proc_table who).q_sending ≡ none =
      subst (λ z. Chain (nexts k) (k.proc_table who).q_sending z) empty (v.queues.chained who h) in
    rw (e, c)
choose-none k q who src v h (inr (inl (lt, quiet))) =
    let not_any : (src == any) ≡ false = ground arith in
    let not_int : (src == interrupt) ≡ false = ground arith in
    let none_there : has_flag (k.proc_table src).p_flags sending
          && (k.proc_table src).p_sendto == who
        ≡ false =
      ground (arith, quiet) in
    rw (not_any, not_int, lt→ltb src nr_all lt, none_there)
choose-none k q who src v h (inr (inr e)) = rw e

module _ (k : Kernel) (who src m : ℕ) (idle : IsIdle (k.proc_table who)) where
  waiting_now : Kernel
  waiting_now = begin_wait k who src m

  at-who :
      waiting_now.proc_table who
      ≡ record (k.proc_table who) { p_flags = receiving; p_msg = m; p_recvfrom = src }
  unfolding waiting_now begin_wait
  at-who =
      update_self k.proc_table who (record (k.proc_table who) {
        p_flags = set_flag (k.proc_table who).p_flags receiving;
        p_msg = m;
        p_recvfrom = src;
      })
      ∙ rw idle.idle_flags

  at-other : (j : ℕ) → j ≢ who → waiting_now.proc_table j ≡ k.proc_table j
  unfolding waiting_now begin_wait
  at-other j ne = ground arith

  begin_wait-Calm : (j : ℕ) → Calm (k.proc_table j) (waiting_now.proc_table j)
  begin_wait-Calm j = elim (ℕ_discrete j who) [
    | yes e ↦
        rw (e, at-who)
          (record {
            calm_sending = rw idle.idle_flags;
            calm_msg = λ s. absurd (ground (arith, idle.idle_flags, s));
            calm_sendto = λ s. refl;
            calm_queue = refl;
            calm_next = refl;
          })
    | no ne ↦ rw (at-other j ne) (Calm-refl (k.proc_table j))
  ]

  begin_wait-CanRun : (i : ℕ) → i ≢ who → CanRun k i → CanRun waiting_now i
  unfolding waiting_now begin_wait
  begin_wait-CanRun i ne (h, f, g) = (h, rw (at-other i ne) f, rw (at-other i ne) g)

  -- The receiver waits for nobody who is blocked in sending to it.
  begin_wait_apart :
      (q : ℕ → List ℕ)
      → IpcInv k q
      → NoneSends k q who src
      → (x : ℕ) → x < nr_all
      → IsSending k x
      → is_waiting_for (waiting_now.proc_table (k.proc_table x).p_sendto) x ≡ false
  begin_wait_apart q v quiet x h s = elim (ℕ_discrete (k.proc_table x).p_sendto who) [
    | no ne ↦ rw (at-other (k.proc_table x).p_sendto ne) (v.met x h s)
    | yes e ↦
        rw (e, at-who)
          (elim quiet [
            | inl (any_one, empty) ↦
                let queued : IsIn x (q who) =
                  subst (λ d. IsIn x (q d)) e (v.queues.queued x h s).1 in
                absurd (subst (IsIn x) empty queued)
            | inr (inl (lt, inl idle_src)) ↦
                let ne : src ≢ x = λ eq. ground (arith, subst (IsSending k) (sym eq) s, idle_src) in
                ground (arith, ne)
            | inr (inl (lt, inr away)) ↦
                let ne : src ≢ x =
                  λ eq. away (subst (λ z. (k.proc_table z).p_sendto ≡ who) (sym eq) e) in
                ground (arith, ne)
            | inr (inr int) ↦ ground (arith, int)
          ])
  ]

  begin_wait-IpcInv : (q : ℕ → List ℕ) → IpcInv k q → NoneSends k q who src → IpcInv waiting_now q
  begin_wait-IpcInv q v quiet =
      Calm-IpcInv k waiting_now begin_wait-Calm q v (begin_wait_apart q v quiet)

receiver_stays :
    (k : Kernel) {k' : Kernel} (j : ℕ)
    → schedule k ≡ done k'
    → j < nr_all
    → (k.proc_table j).p_flags ≡ receiving
    → k'.proc_table j ≡ k.proc_table j
receiver_stays k j e h f = ground (arith, schedule-table k j e h)

-- The receiver blocks, and what `schedule` makes of that is the result.
pub receive_parks :
    (k : Kernel) (q : ℕ → List ℕ) (who src m i : ℕ) (stack : Message)
    → IpcInv k q
    → who < nr_all
    → who ≢ src
    → m ≢ 0
    → IsIdle (k.proc_table who)
    → (k.proc_table who).has_int_msg ≡ 0
    → NoneSends k q who src
    → i ≢ who
    → CanRun k i
    → (k' : Kernel) × (msg_recevie k who src m stack ≡ done k')
      × (schedule (begin_wait k who src m) ≡ done k')
      × Chosen k'
unfolding msg_recevie await block waiting_now
receive_parks k q who src m i stack v h ne given idle calm quiet other run =
    let w = begin_wait k who src m in
    let (hi, ready, priority) = begin_wait-CanRun k who src m idle i other run in
    let (k', s, c) = schedule_chooses w i hi ready priority in
    let here = at-who k who src m idle in
    let blocked : (w.proc_table who).p_flags ≡ receiving = rw here in
    let now = receiver_stays w who s h blocked ∙ here in
    let differs : (who != src) ≡ true = ground arith in
    let is_given : (m != 0) ≡ true = ground arith in
    let not_no_task : (src != no_task) ≡ true = ground (arith, quiet) in
    (
      k',
      rw (
        differs,
        calm,
        choose-none k q who src v h quiet,
        blocked,
        s,
        now,
        is_given,
        idle.idle_sendto,
        not_no_task,
        calm,
      ),
      s,
      c,
    )

-- After that the receiver waits, and the messages are in order.
pub waited :
    (k : Kernel) (q : ℕ → List ℕ) (who src m : ℕ) {k' : Kernel}
    → IpcInv k q
    → who < nr_all
    → IsIdle (k.proc_table who)
    → NoneSends k q who src
    → schedule (begin_wait k who src m) ≡ done k'
    → IpcInv k' q
      × (k'.proc_table who
          ≡ record (k.proc_table who) { p_flags = receiving; p_msg = m; p_recvfrom = src })
unfolding waiting_now
waited k q who src m {k'} v h idle quiet s =
    let w = begin_wait k who src m in
    let here = at-who k who src m idle in
    (
      IpcInv-frame w k' (λ j l. schedule-SameIpc w j s l) q
          (begin_wait-IpcInv k who src m idle q v quiet),
      receiver_stays w who s h (rw here) ∙ here,
    )
