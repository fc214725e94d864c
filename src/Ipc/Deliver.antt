-- ===== src/Ipc/Deliver.antt =====
-- src/kernel/sched.c: `msg_send` to a process that waits for the message.
use aneasyos.Base.{
  ℕ, ◌<◌, ◌≡◌, refl, sym, ap, ◌∙◌, ◌≢◌, ◌⊎◌, true, false, List, [], arith, lt→ltb, ◌!=◌, ==_ne,
  ℕ_discrete, update_self, update_ne,
}
use aneasyos.Kernel.{Kernel, Proc, done, nr_all, any, no_task, receiving, set_proc}
use aneasyos.Ipc.{va2la, deadlock, deliver, is_waiting_for, msg_send, copy_message}
use aneasyos.Ipc.Deadlock.{deadlock_exact}
use aneasyos.Ipc.Invariant.{IpcInv}
use aneasyos.Ipc.Calm.{Calm, Calm-refl, Calm-IpcInv}
use aneasyos.Ipc.Send.{IsIdle}

-- A process that is blocked in a receive from `sender` or from anybody, with a buffer.
pub record Awaits (p : Proc) (sender : ℕ) : Type 0 where
  pub awaits_flags : p.p_flags ≡ receiving
  pub awaits_from : (p.p_recvfrom ≡ sender) ⊎ (p.p_recvfrom ≡ any)
  pub awaits_msg : p.p_msg ≢ 0
  pub awaits_sendto : p.p_sendto ≡ no_task

abbrev pub served : Proc → Proc
served d = record d { p_msg = 0; p_flags = 0; p_recvfrom = no_task }

-- The message is in the buffer, and the destination can run.
abbrev pub delivered : Kernel → ℕ → ℕ → ℕ → Kernel
delivered k dest to from = set_proc dest (served (k.proc_table dest)) (copy_message k to from)

deliver-delivered :
    (k : Kernel) (sender dest m to from : ℕ)
    → m ≢ 0
    → IsIdle (k.proc_table sender)
    → Awaits (k.proc_table dest) sender
    → va2la k dest (k.proc_table dest).p_msg ≡ done to
    → va2la k sender m ≡ done from
    → deliver k sender dest m ≡ done (delivered k dest to from)
unfolding deliver
deliver-delivered k sender dest m to from given idle wait a b =
    let buffer : ((k.proc_table dest).p_msg != 0) ≡ true = ground (arith, wait.awaits_msg) in
    let is_given : (m != 0) ≡ true = ground arith in
    rw (
      buffer, is_given, a, b, wait.awaits_flags, wait.awaits_sendto, idle.idle_flags, idle.idle_msg,
      idle.idle_recvfrom, idle.idle_sendto,
    )

served-Calm :
    (k : Kernel) (sender dest to from : ℕ)
    → Awaits (k.proc_table dest) sender
    → (j : ℕ) → Calm (k.proc_table j) ((delivered k dest to from).proc_table j)
served-Calm k sender dest to from wait j = elim (ℕ_discrete j dest) [
  | yes e ↦
      rw (e, update_self k.proc_table dest (served (k.proc_table dest)))
        (record {
          calm_sending = ground (arith, wait.awaits_flags);
          calm_msg = λ s. absurd (ground (arith, wait.awaits_flags, s));
          calm_sendto = λ s. refl;
          calm_queue = refl;
          calm_next = refl;
        })
  | no ne ↦
      rw (update_ne k.proc_table dest (served (k.proc_table dest)) j ne)
        (Calm-refl (k.proc_table j))
]

delivered-IpcInv :
    (k : Kernel) (q : ℕ → List ℕ) (sender dest to from : ℕ)
    → IpcInv k q
    → Awaits (k.proc_table dest) sender
    → IpcInv (delivered k dest to from) q
delivered-IpcInv k q sender dest to from v wait =
    Calm-IpcInv k (delivered k dest to from) (served-Calm k sender dest to from wait) q v
      (λ x h s. ground (arith, v.met x h s))

-- Where the messages are in order, the sender neither sends nor receives and has a message,
-- another process of the table is blocked in a receive from it or from anybody, and the two
-- addresses can be translated, `msg_send` returns at once: the message is copied into the buffer
-- of the destination, the destination is made ready and neither sends nor receives, no other
-- process changes, and the messages are still in order.
pub send_delivers :
    (k : Kernel) (q : ℕ → List ℕ) (sender dest m to from : ℕ)
    → IpcInv k q
    → dest < nr_all
    → sender ≢ dest
    → m ≢ 0
    → IsIdle (k.proc_table sender)
    → Awaits (k.proc_table dest) sender
    → va2la k dest (k.proc_table dest).p_msg ≡ done to
    → va2la k sender m ≡ done from
    → (msg_send k sender dest m ≡ done (delivered k dest to from))
      × ((delivered k dest to from).memory to ≡ k.memory from)
      × IsIdle ((delivered k dest to from).proc_table dest)
      × IpcInv (delivered k dest to from) q
unfolding msg_send
send_delivers k q sender dest m to from v hd ne given idle wait a b =
    let safe : deadlock k sender dest ≡ done false =
      deadlock_exact k sender dest dest [] refl (hd, ground (arith, wait.awaits_flags))
        (ground (arith, idle.idle_flags)) (λ e. ne (sym e))
      ∙ ap done (==_ne dest sender (λ e. ne (sym e))) in
    let differ : (sender != dest) ≡ true = ground arith in
    let waits : is_waiting_for (k.proc_table dest) sender ≡ true =
      ground (arith, wait.awaits_flags, wait.awaits_from) in
    (
      rw (differ, lt→ltb dest nr_all hd, safe, waits)
          (deliver-delivered k sender dest m to from given idle wait a b),
      update_self k.memory to (k.memory from),
      rw (update_self k.proc_table dest (served (k.proc_table dest))) (record {
        idle_flags = refl;
        idle_msg = refl;
        idle_recvfrom = refl;
        idle_sendto = wait.awaits_sendto;
      }),
      delivered-IpcInv k q sender dest to from v wait,
    )
