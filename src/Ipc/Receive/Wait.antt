-- ===== src/Ipc/Receive/Wait.antt =====
-- src/kernel/sched.c: what a `msg_recevie` does that finds no message.
use aneasyos.Base.{ℕ, ◌<◌, ◌≡◌, subst, ◌≢◌, List, arith}
use aneasyos.Kernel.{Kernel, Message, done, nr_all, receiving}
use aneasyos.Sched.Pick.{Chosen}
use aneasyos.Ipc.Invariant.{IpcInv}
use aneasyos.Ipc.Send.{IsIdle, CanRun}
use aneasyos.Ipc.Receive.{msg_recevie}
use aneasyos.Ipc.Receive.Block.{NoneSends, receive_parks, waited}

-- Where the messages are in order, the receiver neither sends nor receives and has a buffer, no
-- process is blocked in sending what the receive asks for, which is not the receiver itself, no
-- interrupt is pending and some other process can run, `msg_recevie` blocks the receiver and
-- returns. The receiver waits for `src` with its buffer, the messages are still in order, and
-- another process has been chosen to run.
pub receive_waits :
    (k : Kernel) (q : ℕ → List ℕ) (who src m i : ℕ) (stack : Message)
    → IpcInv k q
    → who < nr_all
    → who ≢ src
    → m ≢ 0
    → IsIdle (k.proc_table who)
    → (k.proc_table who).has_int_msg ≡ 0
    → NoneSends k q who src
    → i ≢ who
    → CanRun k i
    → (k' : Kernel) × (msg_recevie k who src m stack ≡ done k')
      × IpcInv k' q
      × ((k'.proc_table who).p_flags ≡ receiving)
      × ((k'.proc_table who).p_recvfrom ≡ src)
      × ((k'.proc_table who).p_msg ≡ m)
      × Chosen k'
      × (k'.p_proc_ready ≢ who)
receive_waits k q who src m i stack v h ne given idle calm quiet other run =
    let (k', e, s, c) =
      receive_parks k q who src m i stack v h ne given idle calm quiet other run in
    let (order, now) = waited k q who src m v h idle quiet s in
    let waits : (k'.proc_table who).p_flags ≡ receiving = rw now in
    (
      k',
      e,
      order,
      rw now,
      rw now,
      rw now,
      c,
      λ eq. ground (arith, subst (λ z. (k'.proc_table z).p_flags ≡ 0) eq c.chosen_ready, waits),
    )
