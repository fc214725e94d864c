-- ===== src/Ipc/Send.antt =====
-- src/kernel/sched.c: what `msg_send` does, on each of its three branches.
use aneasyos.Base.{
  ℕ, ◌<◌, ◌≡◌, sym, subst, ◌∙◌, ◌≢◌, true, false, List, arith, lt→ltb, ==_ne, ==_refl, ap, ◌!=◌,
}
use aneasyos.Base.Indices.{IsIn}
use aneasyos.Base.Word.{biased}
use aneasyos.Kernel.{Kernel, Proc, done, panicked, nr_all, no_task, sending}
use aneasyos.Sched.{wake, schedule}
use aneasyos.Sched.Pick.{Chosen, schedule_chooses, schedule-table}
use aneasyos.Ipc.{block, deadlock, park, is_waiting_for, msg_send}
use aneasyos.Ipc.Deadlock.{Trail, IsEnd, deadlock_exact}
use aneasyos.Ipc.Invariant.{IpcInv, IpcInv-frame, schedule-SameIpc}
use aneasyos.Ipc.Parked.{Parked, parked, park-parked, parked-Parked}
use aneasyos.Ipc.Order.{appended, parked-IpcInv, queue-short}

-- A process that runs: it is ready, and neither sends nor receives.
pub record IsIdle (p : Proc) : Type 0 where
  pub idle_flags : p.p_flags ≡ 0
  pub idle_msg : p.p_msg ≡ 0
  pub idle_recvfrom : p.p_recvfrom ≡ no_task
  pub idle_sendto : p.p_sendto ≡ no_task

-- A send to another process of the table that waits, over any number of blocked senders, for the
-- sender itself, which is not blocked in a send, panics.
pub send_deadlock :
    (k : Kernel) (sender dest m : ℕ) (xs : List ℕ)
    → dest < nr_all
    → sender ≢ dest
    → Trail k dest xs sender
    → IsEnd k sender
    → msg_send k sender dest m ≡ panicked
unfolding msg_send
send_deadlock k sender dest m xs h ne t e =
    ground (arith, deadlock_exact k sender dest sender xs t e e.1 (λ eq. ne (sym eq)))

-- Another process that can run: it is ready, or asleep and due, and has a positive priority.
abbrev pub CanRun : Kernel → ℕ → Type 0
CanRun k i =
    (i < nr_all)
    × ((wake k.ticks (k.proc_table i)).p_flags ≡ 0)
    × (biased 0 < biased (k.proc_table i).priority)

blocked_stays :
    (k : Kernel) {k' : Kernel} (j : ℕ)
    → schedule k ≡ done k'
    → j < nr_all
    → (k.proc_table j).p_flags ≡ sending
    → k'.proc_table j ≡ k.proc_table j
blocked_stays k j e h f = ground (arith, schedule-table k j e h)

ready_differs :
    (k : Kernel) (p : ℕ) → Chosen k → k.p_proc_ready ≡ p → (k.proc_table p).p_flags ≡ sending → ⊥
ready_differs k p c eq f =
    ground (arith, c.chosen_ready, subst (λ z. (k.proc_table z).p_flags ≡ 0) eq c.chosen_ready)

Parked-CanRun :
    (k kp : Kernel) (sender dest m i : ℕ)
    → Parked k kp sender dest m
    → i ≢ sender
    → CanRun k i
    → CanRun kp i
Parked-CanRun k kp sender dest m i facts other (h, f, g) = (
  h,
  ground (arith, facts.flags_at i, facts.wake_at i, facts.now_same),
  ground (arith, facts.priority_at i),
)

msg_send_parks :
    (k kp k' : Kernel) (sender dest m : ℕ)
    → dest < nr_all
    → sender ≢ dest
    → m ≢ 0
    → IsIdle (k.proc_table sender)
    → deadlock k sender dest ≡ done false
    → is_waiting_for (k.proc_table dest) sender ≡ false
    → park k sender dest m ≡ done kp
    → Parked k kp sender dest m
    → schedule kp ≡ done k'
    → k'.proc_table sender ≡ kp.proc_table sender
    → msg_send k sender dest m ≡ done k'
unfolding msg_send block
msg_send_parks k kp k' sender dest m hd ne given idle safe unmet p facts s stays =
    let differ : (sender != dest) ≡ true = ground arith in
    let is_given : (m != 0) ≡ true = ground arith in
    let blocks : ((kp.proc_table sender).p_flags != 0) ≡ true =
      ground (arith, facts.flags_at sender) in
    let flags : (kp.proc_table sender).p_flags ≡ sending = ground (arith, facts.flags_at sender) in
    let told : (kp.proc_table sender).p_msg ≡ m = ground (arith, facts.msg_at sender) in
    let to : (kp.proc_table sender).p_sendto ≡ dest = ground (arith, facts.sendto_at sender) in
    let from : (kp.proc_table sender).p_recvfrom ≡ no_task =
      facts.recvfrom_at sender ∙ idle.idle_recvfrom in
    rw (
      differ,
      lt→ltb dest nr_all hd,
      safe,
      unmet,
      p,
      blocks,
      s,
      stays,
      flags,
      told,
      is_given,
      from,
      to,
      ==_refl dest,
    )

-- The sender blocks, and what `schedule` makes of that is the result.
pub send_parks :
    (k : Kernel) (q : ℕ → List ℕ) (sender dest m i e : ℕ) (ys : List ℕ)
    → IpcInv k q
    → sender < nr_all
    → dest < nr_all
    → sender ≢ dest
    → m ≢ 0
    → IsIdle (k.proc_table sender)
    → is_waiting_for (k.proc_table dest) sender ≡ false
    → Trail k dest ys e
    → IsEnd k e
    → e ≢ sender
    → i ≢ sender
    → CanRun k i
    → let kp = parked k sender dest m (q dest) in
      (k' : Kernel) × (msg_send k sender dest m ≡ done k')
      × (schedule kp ≡ done k')
      × Chosen k'
      × Parked k kp sender dest m
      × (k'.proc_table sender ≡ kp.proc_table sender)
      × IpcInv k' (appended q dest sender)
send_parks k q sender dest m i e ys v hs hd ne given idle unmet t he open_end other run =
    let kp = parked k sender dest m (q dest) in
    let out : ¬ IsIn sender (q dest) =
      λ mem. ground (arith, v.queues.members dest sender hd mem, idle.idle_flags) in
    let facts = parked-Parked k sender dest m (q dest) ne out in
    let quick =
      park-parked k sender dest m (q dest) idle.idle_flags ne out (v.queues.chained dest hd)
        (queue-short k q v sender dest m hs hd ne idle.idle_flags given) in
    let order =
      parked-IpcInv k q v sender dest m hs hd ne idle.idle_flags given ys e t he open_end unmet in
    let (_, ready, priority) = Parked-CanRun k kp sender dest m i facts other run in
    let (k', s, c) = schedule_chooses kp i run.0 ready priority in
    let sends : (kp.proc_table sender).p_flags ≡ sending = ground (arith, facts.flags_at sender) in
    let stays = blocked_stays kp sender s hs sends in
    (
      k',
      msg_send_parks k kp k' sender dest m hd ne given idle
          (deadlock_exact k sender dest e ys t he (ground (arith, idle.idle_flags))
              (λ eq. ne (sym eq))
            ∙ ap done (==_ne e sender open_end))
          unmet quick facts s stays,
      s,
      c,
      facts,
      stays,
      IpcInv-frame kp k' (λ j h. schedule-SameIpc kp j s h) (appended q dest sender) order,
    )

-- Where the messages are in order, the sender neither sends nor receives and has a message, the
-- destination is another process of the table and does not wait for this sender, the processes
-- that the destination waits for do not end in the sender, and some other process can run,
-- `msg_send` blocks the sender and returns. The sender is blocked with its message at the end of
-- the destination's queue, the messages are still in order, and another process has been chosen
-- to run.
pub send_blocks :
    (k : Kernel) (q : ℕ → List ℕ) (sender dest m i e : ℕ) (ys : List ℕ)
    → IpcInv k q
    → sender < nr_all
    → dest < nr_all
    → sender ≢ dest
    → m ≢ 0
    → IsIdle (k.proc_table sender)
    → is_waiting_for (k.proc_table dest) sender ≡ false
    → Trail k dest ys e
    → IsEnd k e
    → e ≢ sender
    → i ≢ sender
    → CanRun k i
    → (k' : Kernel) × (msg_send k sender dest m ≡ done k')
      × IpcInv k' (appended q dest sender)
      × ((k'.proc_table sender).p_flags ≡ sending)
      × ((k'.proc_table sender).p_msg ≡ m)
      × Chosen k'
      × (k'.p_proc_ready ≢ sender)
send_blocks k q sender dest m i e ys v hs hd ne given idle unmet t he open_end other run =
    let (k', done_k', s, c, facts, stays, order) =
      send_parks k q sender dest m i e ys v hs hd ne given idle unmet t he open_end other run in
    let sends : (k'.proc_table sender).p_flags ≡ sending =
      rw stays (ground (arith, facts.flags_at sender)) in
    (
      k',
      done_k',
      order,
      sends,
      rw stays (ground (arith, facts.msg_at sender)),
      c,
      λ eq. ready_differs k' sender c eq sends,
    )
