-- ===== src/Ipc/Tests.antt =====
-- src/kernel/sched.c: the theorems on messages at small states.
use aneasyos.Base.{
  ℕ, ◌<◌, ◌≡◌, refl, ◌≢◌, inl, inr, none, some, sym, subst, ℕ_discrete, List, [], ◌∷◌, false, arith,
  ◌==◌, if◌then◌else◌,
}
use aneasyos.Base.Flags.{has_flag}
use aneasyos.Kernel.{Kernel, done, nr_all, set_proc, sending, receiving, any, interrupt}
use aneasyos.Base.Indices.{IsIn, Distinct}
use aneasyos.Pm.{seg_linear}
use aneasyos.Kernel.Samples.{booted, ready_proc, blank_message}
use aneasyos.Sched.Pick.{Chosen}
use aneasyos.Ipc.{hard_int, deadlock, msg_send, is_waiting_for, va2la}
use aneasyos.Ipc.Chain.{Chain, nexts}
use aneasyos.Ipc.Deadlock.{IsSending, Ends, deadlock_exact}
use aneasyos.Ipc.Invariant.{IpcInv}
use aneasyos.Ipc.Order.{appended}
use aneasyos.Ipc.Send.{IsIdle, send_blocks}
use aneasyos.Ipc.Receive.{msg_recevie, inform_int}
use aneasyos.Ipc.Receive.Take.{removed}
use aneasyos.Ipc.Receive.Meet.{receive_takes}
use aneasyos.Ipc.Receive.Wait.{receive_waits}
use aneasyos.Ipc.Receive.Interrupt.{interrupt_kept}
use aneasyos.Ipc.Rendezvous.{Passed, message_passes}
use aneasyos.Ipc.Deliver.{delivered, send_delivers}

-- Process 1 is blocked in a send to process 2.
abbrev waits : Kernel
waits = set_proc 1 (record (ready_proc 1) { p_flags = sending; p_sendto = 2; p_msg = 0x100 }) booted

deadlock_exact_example : deadlock waits 2 1 ≡ done (2 == 2)
deadlock_exact_example =
    deadlock_exact waits 2 1 2 (1 ∷ [])
      (refl, omega arith, refl, (λ e. absurd (omega (arith, e))), refl) (omega arith, refl) refl
      (λ e. absurd (omega (arith, e)))

abbrev nobody : ℕ → List ℕ
nobody d = []

-- No process sends.
calm_IpcInv :
    (k : Kernel)
    → ((j : ℕ) → has_flag (k.proc_table j).p_flags sending ≡ false)
    → ((j : ℕ) → (k.proc_table j).q_sending ≡ none)
    → IpcInv k nobody
calm_IpcInv k calm empty = record {
  queues = record {
    chained = λ d h. empty d;
    distinct = λ d h. tt;
    members = λ d x h m. absurd m;
    queued = λ x h s. absurd (ground (arith, calm x, s));
  };
  ends = λ x h. ([], x, refl, (h, calm x));
  met = λ x h s. absurd (ground (arith, calm x, s));
}

booted-IpcInv : IpcInv booted nobody
booted-IpcInv = calm_IpcInv booted (λ j. ground arith) (λ j. ground arith)

send_blocks_example :
    (k' : Kernel) × (msg_send booted 0 1 0x100 ≡ done k')
    × IpcInv k' (appended nobody 1 0)
    × ((k'.proc_table 0).p_flags ≡ sending)
    × ((k'.proc_table 0).p_msg ≡ 0x100)
    × Chosen k'
    × (k'.p_proc_ready ≢ 0)
send_blocks_example =
    send_blocks booted nobody 0 1 0x100 2 1 [] booted-IpcInv (omega arith) (omega arith)
      (λ e. absurd (omega (arith, e))) (λ e. absurd (omega (arith, e)))
      (record { idle_flags = refl; idle_msg = refl; idle_recvfrom = refl; idle_sendto = refl }) refl
      refl (omega arith, refl) (λ e. absurd (omega (arith, e))) (λ e. absurd (omega (arith, e)))
      (omega arith, refl, omega arith)

-- Process 1 waits for a message from anybody, at 0x200.
abbrev listens : Kernel
listens =
    set_proc 1 (record (ready_proc 1) { p_flags = receiving; p_recvfrom = any; p_msg = 0x200 })
      booted

listens-IpcInv : IpcInv listens nobody
listens-IpcInv = calm_IpcInv listens (λ j. ground arith) (λ j. ground arith)

va2la_buffer : va2la listens 1 0x200 ≡ done 0x200
unfolding va2la seg_linear
va2la_buffer = refl

va2la_message : va2la listens 0 0x100 ≡ done 0x100
unfolding va2la seg_linear
va2la_message = refl

send_delivers_example :
    (msg_send listens 0 1 0x100 ≡ done (delivered listens 1 0x200 0x100))
    × ((delivered listens 1 0x200 0x100).memory 0x200 ≡ listens.memory 0x100)
    × IsIdle ((delivered listens 1 0x200 0x100).proc_table 1)
    × IpcInv (delivered listens 1 0x200 0x100) nobody
send_delivers_example =
    send_delivers listens nobody 0 1 0x100 0x200 0x100 listens-IpcInv (omega arith)
      (λ e. absurd (omega (arith, e))) (λ e. absurd (omega (arith, e)))
      (record { idle_flags = refl; idle_msg = refl; idle_recvfrom = refl; idle_sendto = refl })
      (record {
        awaits_flags = refl;
        awaits_from = inr refl;
        awaits_msg = λ e. absurd (omega (arith, e));
        awaits_sendto = refl;
      })
      va2la_buffer va2la_message

-- Besides, process 1 is in the queue of process 2.
abbrev queued : Kernel
queued =
    set_proc 2 (record (ready_proc 2) { q_sending = some 1 })
      (set_proc 1 (record (ready_proc 1) { p_flags = sending; p_sendto = 2; p_msg = 0x100 }) booted)

abbrev one : ℕ → List ℕ
one d = if d == 2 then 1 ∷ [] else []

queued_only : (x : ℕ) → IsSending queued x → x ≡ 1
queued_only x s = ground arith

queued_chained : (d : ℕ) → d < nr_all → Chain (nexts queued) (queued.proc_table d).q_sending (one d)
queued_chained d h = elim (ℕ_discrete d 2) [
  | yes e ↦
      subst (λ z. Chain (nexts queued) (queued.proc_table z).q_sending (one z)) (sym e) (refl, refl)
  | no ne ↦
      let quiet : (d == 2) ≡ false = ground arith in
      let none_there : (queued.proc_table d).q_sending ≡ none = ground arith in
      let empty : one d ≡ [] = rw quiet in
      subst (Chain (nexts queued) (queued.proc_table d).q_sending) (sym empty) none_there
]

one_members : (d x : ℕ) → IsIn x (one d) → (d ≡ 2) × (x ≡ 1)
one_members d x m = elim (ℕ_discrete d 2) [
  | yes e ↦ (e, at_two (subst (λ z. IsIn x (one z)) e m))
  | no ne ↦ let quiet : (d == 2) ≡ false = ground arith in absurd (rw quiet at m)
]
  where
    at_two : IsIn x (1 ∷ []) → x ≡ 1
    at_two (inl e) = e
    at_two (inr m) = absurd m

one-Distinct : (d : ℕ) → Distinct (one d)
one-Distinct d = elim (ℕ_discrete d 2) [
  | yes e ↦ subst (λ z. Distinct (one z)) (sym e) ((λ m. m), tt)
  | no ne ↦ let quiet : (d == 2) ≡ false = ground arith in rw quiet tt
]

queued-Ends : (x : ℕ) → x < nr_all → Ends queued x
queued-Ends x h = elim (ℕ_discrete x 1) [
  | yes e ↦ (
    1 ∷ [],
    2,
    (e, omega arith, refl, (λ z. absurd (omega (arith, z))), refl),
    (omega arith, refl),
  )
  | no ne ↦ ([], x, refl, (h, ground arith))
]

queued_IpcInv : IpcInv queued one
queued_IpcInv = record {
  queues = record {
    chained = queued_chained;
    distinct = λ d h. one-Distinct d;
    members = λ d x h m.
        let (e, f) = one_members d x m in
        subst (λ z. (z < nr_all) × IsSending queued z × ((queued.proc_table z).p_sendto ≡ d))
          (sym f) (omega arith, refl, sym e);
    queued = λ x h s.
        subst
          (λ z.
            ((queued.proc_table z).p_sendto < nr_all)
            × IsIn z (one (queued.proc_table z).p_sendto)
            × ((queued.proc_table z).p_msg ≢ 0))
          (sym (queued_only x s)) (omega arith, inl refl, λ z. absurd (omega (arith, z)));
  };
  ends = queued-Ends;
  met = λ x h s.
      subst (λ z. is_waiting_for (queued.proc_table (queued.proc_table z).p_sendto) z ≡ false)
        (sym (queued_only x s)) refl;
}

va2la_receiver : va2la queued 2 0x300 ≡ done 0x300
unfolding va2la seg_linear
va2la_receiver = refl

va2la_sender : va2la queued 1 0x100 ≡ done 0x100
unfolding va2la seg_linear
va2la_sender = refl

va2la-booted : va2la booted 1 0x200 ≡ done 0x200
unfolding va2la seg_linear
va2la-booted = refl

receive_takes_example :
    (k' : Kernel) × (msg_recevie queued 2 any 0x300 blank_message ≡ done k')
    × (k'.memory 0x300 ≡ queued.memory 0x100)
    × IsIdle (k'.proc_table 1)
    × IsIdle (k'.proc_table 2)
    × IpcInv k' (removed one 2 [] [])
receive_takes_example =
    receive_takes queued one 2 any 1 0x300 0x300 0x100 [] [] blank_message queued_IpcInv
      (omega arith) (λ e. absurd (omega (arith, e))) (λ e. absurd (omega (arith, e)))
      (record { idle_flags = refl; idle_msg = refl; idle_recvfrom = refl; idle_sendto = refl })
      (record {
        parked_flags = refl;
        parked_recvfrom = refl;
        parked_msg = λ e. absurd (omega (arith, e));
      })
      refl (inr (refl, refl, refl)) va2la_receiver va2la_sender

receive_waits_example :
    (k' : Kernel) × (msg_recevie queued 3 1 0x300 blank_message ≡ done k')
    × IpcInv k' one
    × ((k'.proc_table 3).p_flags ≡ receiving)
    × ((k'.proc_table 3).p_recvfrom ≡ 1)
    × ((k'.proc_table 3).p_msg ≡ 0x300)
    × Chosen k'
    × (k'.p_proc_ready ≢ 3)
receive_waits_example =
    receive_waits queued one 3 1 0x300 2 blank_message queued_IpcInv (omega arith)
      (λ e. absurd (omega (arith, e))) (λ e. absurd (omega (arith, e)))
      (record { idle_flags = refl; idle_msg = refl; idle_recvfrom = refl; idle_sendto = refl }) refl
      (inr (inl (omega arith, inr (λ e. absurd (omega (arith, e))))))
      (λ e. absurd (omega (arith, e))) (omega arith, refl, omega arith)

interrupt_kept_example :
    (k1 : Kernel) × (k2 : Kernel) × (inform_int booted 1 ≡ done k1)
    × (msg_recevie k1 1 interrupt 0x200 blank_message ≡ done k2)
    × ((k2.memory 0x200).source ≡ interrupt)
    × ((k2.memory 0x200).type ≡ hard_int)
    × (k2.proc_table 1 ≡ booted.proc_table 1)
interrupt_kept_example =
    interrupt_kept booted 1 interrupt 0x200 0x200 blank_message
      (record { idle_flags = refl; idle_msg = refl; idle_recvfrom = refl; idle_sendto = refl }) refl
      (omega arith) (λ e. absurd (omega (arith, e))) (inr refl) va2la-booted

va2la_first : va2la booted 1 0x200 ≡ done 0x200
unfolding va2la seg_linear
va2la_first = refl

va2la_second : va2la booted 2 0x100 ≡ done 0x100
unfolding va2la seg_linear
va2la_second = refl

message_passes_example :
    ((k1 k2 : Kernel) × (msg_recevie booted 1 2 0x200 blank_message ≡ done k1)
      × (msg_send k1 2 1 0x100 ≡ done k2)
      × Passed booted k2 nobody 1 2 0x200 0x100)
    × ((k1 k2 : Kernel) × (msg_send booted 2 1 0x100 ≡ done k1)
        × (msg_recevie k1 1 2 0x200 blank_message ≡ done k2)
        × Passed booted k2 nobody 1 2 0x200 0x100)
message_passes_example =
    message_passes booted nobody 1 2 0x200 0x100 0x200 0x100 booted-IpcInv (omega arith)
      (omega arith) (λ e. absurd (omega (arith, e))) (λ e. absurd (omega (arith, e)))
      (λ e. absurd (omega (arith, e)))
      (record { idle_flags = refl; idle_msg = refl; idle_recvfrom = refl; idle_sendto = refl })
      (record { idle_flags = refl; idle_msg = refl; idle_recvfrom = refl; idle_sendto = refl })
      va2la_first va2la_second 0 blank_message refl (λ e. absurd (omega (arith, e)))
      (λ e. absurd (omega (arith, e))) (omega arith, refl, omega arith)
