-- ===== src/Ipc/Receive/Interrupt.antt =====
-- src/kernel/sched.c: what `inform_int` does to a process that waits, and to one that does not.
use aneasyos.Base.{
  ℕ, ◌<◌, ◌≡◌, refl, sym, ◌∙◌, ◌≢◌, ◌⊎◌, true, false, List, arith, ap, update_self, update_ne, ◌==◌,
  ◌!=◌, ◌&&◌, ◌||◌, update, ℕ_discrete,
}
use aneasyos.Base.Flags.{has_flag}
use aneasyos.Kernel.{
  Kernel, Proc, Message, done, nr_all, any, interrupt, no_task, receiving, set_proc,
}
use aneasyos.Ipc.{va2la, hard_int}
use aneasyos.Ipc.Invariant.{IpcInv}
use aneasyos.Ipc.Calm.{Calm, Calm-refl, Calm-IpcInv}
use aneasyos.Ipc.Send.{IsIdle}
use aneasyos.Ipc.Receive.Meet.{va2la_same}
use aneasyos.Ipc.Receive.{receive_int, msg_recevie, inform_int}

abbrev told : Kernel → ℕ → Kernel
told k a = record k {
  memory = update k.memory a (record (k.memory a) { source = interrupt; type = hard_int });
}

abbrev woken : Proc → Proc
woken p = record p { p_msg = 0; has_int_msg = 0; p_flags = 0; p_recvfrom = no_task }

abbrev pub IsInterruptible : Proc → Type 0
IsInterruptible p =
    (p.p_flags ≡ receiving)
    × ((p.p_recvfrom ≡ interrupt) ⊎ (p.p_recvfrom ≡ any))
    × (p.p_sendto ≡ no_task)

woken-Calm :
    (k : Kernel) (t a : ℕ)
    → IsInterruptible (k.proc_table t)
    → (j : ℕ)
    → Calm (k.proc_table j) ((set_proc t (woken (k.proc_table t)) (told k a)).proc_table j)
woken-Calm k t a (f, from, to) j = elim (ℕ_discrete j t) [
  | yes e ↦
      rw (e, update_self k.proc_table t (woken (k.proc_table t)))
        (record {
          calm_sending = ground (arith, f);
          calm_msg = λ s. absurd (ground (arith, f, s));
          calm_sendto = λ s. refl;
          calm_queue = refl;
          calm_next = refl;
        })
  | no ne ↦ rw (update_ne k.proc_table t (woken (k.proc_table t)) j ne) (Calm-refl (k.proc_table j))
]

-- Where the messages are in order, an interrupt wakes a process that is blocked in a receive from
-- INTERRUPT or from anybody: the process finds in its buffer a message from INTERRUPT of type
-- HARD_INT, it neither sends nor receives, and the messages are still in order.
pub inform_int_wakes :
    (k : Kernel) (q : ℕ → List ℕ) (t : ℕ)
    → IpcInv k q
    → IsInterruptible (k.proc_table t)
    → (k' : Kernel) × (inform_int k t ≡ done k')
      × IsIdle (k'.proc_table t)
      × ((k'.memory (k.proc_table t).p_msg).source ≡ interrupt)
      × ((k'.memory (k.proc_table t).p_msg).type ≡ hard_int)
      × IpcInv k' q
unfolding inform_int
inform_int_wakes k q t v h =
    let p = k.proc_table t in
    let a = p.p_msg in
    let k' = set_proc t (woken p) (told k a) in
    let waits : has_flag p.p_flags receiving && (p.p_recvfrom == interrupt || p.p_recvfrom == any)
        ≡ true =
      ground (arith, h) in
    (
      k',
      rw (waits, h.0, h.2),
      rw (update_self k.proc_table t (woken p))
          (record { idle_flags = refl; idle_msg = refl; idle_recvfrom = refl; idle_sendto = h.2 }),
      ground arith,
      ground arith,
      Calm-IpcInv k k' (woken-Calm k t a h) q v (λ x l s. ground (arith, v.met x l s)),
    )

interrupted : Kernel → ℕ → ℕ → Message → Kernel
interrupted k t to stack =
    set_proc t (record (k.proc_table t) { has_int_msg = 0 })
      (record k {
        memory = update k.memory to (record stack { source = interrupt; type = hard_int });
      })

receive_int-interrupted :
    (k : Kernel) (t src m to : ℕ) (stack : Message)
    → IsIdle (k.proc_table t)
    → (k.proc_table t).has_int_msg ≡ 1
    → t < nr_all
    → m ≢ 0
    → (src ≡ any) ⊎ (src ≡ interrupt)
    → va2la k t m ≡ done to
    → msg_recevie k t src m stack ≡ done (interrupted k t to stack)
unfolding msg_recevie receive_int interrupted
receive_int-interrupted k t src m to stack idle pending h given asks a =
    let differs : (t != src) ≡ true = ground (arith, asks) in
    let wanted : (src == any || src == interrupt) ≡ true = ground (arith, asks) in
    let is_given : (m != 0) ≡ true = ground arith in
    rw (differs, pending, wanted, is_given, a, idle.idle_flags, idle.idle_msg, idle.idle_sendto)

-- An interrupt that comes while a process neither sends nor receives is not lost: its next
-- receive from anybody or from INTERRUPT, with a buffer whose address can be translated, returns
-- at once with a message from INTERRUPT of type HARD_INT, and the process is then as it was
-- before the interrupt.
pub interrupt_kept :
    (k : Kernel) (t src m to : ℕ) (stack : Message)
    → IsIdle (k.proc_table t)
    → (k.proc_table t).has_int_msg ≡ 0
    → t < nr_all
    → m ≢ 0
    → (src ≡ any) ⊎ (src ≡ interrupt)
    → va2la k t m ≡ done to
    → (k1 : Kernel) × (k2 : Kernel) × (inform_int k t ≡ done k1)
      × (msg_recevie k1 t src m stack ≡ done k2)
      × ((k2.memory to).source ≡ interrupt)
      × ((k2.memory to).type ≡ hard_int)
      × (k2.proc_table t ≡ k.proc_table t)
unfolding inform_int interrupted
interrupt_kept k t src m to stack idle calm h given asks a =
    let p = k.proc_table t in
    let pending = record p { has_int_msg = 1 } in
    let k1 = set_proc t pending k in
    let here : k1.proc_table t ≡ pending = update_self k.proc_table t pending in
    let runs : has_flag p.p_flags receiving ≡ false = ground (arith, idle.idle_flags) in
    let idle' : IsIdle (k1.proc_table t) = rw here (record {
      idle_flags = idle.idle_flags;
      idle_msg = idle.idle_msg;
      idle_recvfrom = idle.idle_recvfrom;
      idle_sendto = idle.idle_sendto;
    }) in
    let a' : va2la k1 t m ≡ done to = va2la_same k k1 t m (rw here) ∙ a in
    (
      k1,
      interrupted k1 t to stack,
      rw runs,
      receive_int-interrupted k1 t src m to stack idle' (rw here) h given asks a',
      ground arith,
      ground arith,
      update_self k1.proc_table t (record (k1.proc_table t) { has_int_msg = 0 })
          ∙ ap (λ (r : Proc). record r { has_int_msg = 0 }) here
          ∙ ap (λ z. record p { has_int_msg = z }) (sym calm),
    )
