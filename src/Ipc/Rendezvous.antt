-- ===== src/Ipc/Rendezvous.antt =====
-- src/kernel/sched.c: a message gets from `msg_send` to `msg_recevie`, whichever comes first.
use mathlib.Core.Path.{fun_ext}
use mathlib.Core.List.{append-nil}
use aneasyos.Base.{
  ℕ, ◌<◌, ◌≡◌, refl, sym, subst, ◌∙◌, ap, ◌≢◌, inl, inr, List, [], ◌∷◌, ◌++◌, arith, ℕ_discrete,
  update_self, update_ne,
}
use aneasyos.Kernel.{Kernel, Proc, Message, done, nr_all}
use aneasyos.Sched.{schedule}
use aneasyos.Sched.Pick.{schedule-table, schedule-SameGlobals}
use aneasyos.Ipc.{va2la, msg_send}
use aneasyos.Ipc.Invariant.{IpcInv, schedule-SameIpc}
use aneasyos.Ipc.Send.{IsIdle, CanRun, send_parks}
use aneasyos.Ipc.Receive.{begin_wait, msg_recevie}
use aneasyos.Ipc.Parked.{Parked, parked}
use aneasyos.Ipc.Order.{appended}
use aneasyos.Ipc.Receive.Take.{removed}
use aneasyos.Ipc.Receive.Meet.{IsParked, receive_takes}
use aneasyos.Ipc.Receive.Block.{receive_parks, waited}
use aneasyos.Ipc.Deliver.{Awaits, delivered, send_delivers}

-- `schedule` leaves a process that is ready and idle so.
schedule-IsIdle :
    (k : Kernel) {k' : Kernel} (j : ℕ)
    → schedule k ≡ done k'
    → j < nr_all
    → IsIdle (k.proc_table j)
    → IsIdle (k'.proc_table j)
schedule-IsIdle k {k'} j s h idle =
    let same = schedule-SameIpc k j s h in
    record {
      idle_flags = ground (arith, schedule-table k j s h, idle.idle_flags);
      idle_msg = same.msg_same ∙ idle.idle_msg;
      idle_recvfrom = same.recvfrom_same ∙ idle.idle_recvfrom;
      idle_sendto = same.sendto_same ∙ idle.idle_sendto;
    }

va2la-same :
    (k k' : Kernel) (j va : ℕ)
    → (k'.proc_table j).ldt_rw ≡ (k.proc_table j).ldt_rw
    → va2la k' j va ≡ va2la k j va
unfolding va2la
va2la-same k k' j va e = rw e

queue_at-dest :
    (q : ℕ → List ℕ) (who sender : ℕ) → appended q who sender who ≡ q who ++ (sender ∷ [])
unfolding appended
queue_at-dest q who sender = update_self q who (q who ++ (sender ∷ []))

-- Who is queued last and taken out leaves the queues as they were.
removed-appended :
    (q : ℕ → List ℕ) (who sender : ℕ) → removed (appended q who sender) who (q who) [] ≡ q
unfolding removed appended
removed-appended q who sender = fun_ext (λ d. elim (ℕ_discrete d who) [
  | yes e ↦ rw (e, update_self (appended q who sender) who (q who ++ [])) (append-nil (q who))
  | no ne ↦
      update_ne (appended q who sender) who (q who ++ []) d ne
      ∙ update_ne q who (q who ++ (sender ∷ [])) d ne
])

-- The message has come: the bytes are copied, and both processes can run.
pub record Passed (k k' : Kernel) (q : ℕ → List ℕ) (who sender to from : ℕ) : Type 0 where
  pub copied : k'.memory to ≡ k.memory from
  pub receiver_idle : IsIdle (k'.proc_table who)
  pub sender_idle : IsIdle (k'.proc_table sender)
  pub in_order : IpcInv k' q

module _ (k : Kernel) (q : ℕ → List ℕ) (who sender m n to from : ℕ) (v : IpcInv k q)
    (who_in : who < nr_all) (sender_in : sender < nr_all) (differ : who ≢ sender) (buffer : m ≢ 0)
    (given : n ≢ 0) (who_idle : IsIdle (k.proc_table who))
    (sender_idle : IsIdle (k.proc_table sender)) (to_at : va2la k who m ≡ done to)
    (from_at : va2la k sender n ≡ done from) where
  -- The receiver after its `msg_recevie` has blocked.
  begun : Kernel
  begun = begin_wait k who sender m

  begun_other : begun.proc_table sender ≡ k.proc_table sender
  unfolding begun begin_wait
  begun_other = update_ne k.proc_table who _ sender (λ e. differ (sym e))

  begun_who : (begun.proc_table who).ldt_rw ≡ (k.proc_table who).ldt_rw
  unfolding begun begin_wait
  begun_who = ground arith

  begun_memory : begun.memory ≡ k.memory
  unfolding begun begin_wait
  begun_memory = refl

  receive_first :
      (i : ℕ) (stack : Message)
      → (k.proc_table who).has_int_msg ≡ 0
      → i ≢ who
      → CanRun k i
      → (k1 k2 : Kernel) × (msg_recevie k who sender m stack ≡ done k1)
        × (msg_send k1 sender who n ≡ done k2)
        × Passed k k2 q who sender to from
  unfolding begun
  receive_first i stack calm other run =
      let quiet = inr (inl (sender_in, inl (ground (arith, sender_idle.idle_flags)))) in
      let (k1, e1, s, c) =
        receive_parks k q who sender m i stack v who_in differ buffer who_idle calm quiet other
          run in
      let (order, now) = waited k q who sender m v who_in who_idle quiet s in
      let same_w = schedule-SameIpc begun who s who_in in
      let same_s = schedule-SameIpc begun sender s sender_in in
      let idle : IsIdle (k1.proc_table sender) =
        schedule-IsIdle begun sender s sender_in (rw begun_other sender_idle) in
      let waits : Awaits (k1.proc_table who) sender = rw now (record {
        awaits_flags = refl;
        awaits_from = inl refl;
        awaits_msg = buffer;
        awaits_sendto = who_idle.idle_sendto;
      }) in
      let told : (k1.proc_table who).p_msg ≡ m = rw now in
      let to1 : va2la k1 who (k1.proc_table who).p_msg ≡ done to =
        rw told (va2la-same k k1 who m (same_w.ldt_same ∙ begun_who) ∙ to_at) in
      let from1 : va2la k1 sender n ≡ done from =
        va2la-same k k1 sender n (same_s.ldt_same ∙ ap (λ (p : Proc). p.ldt_rw) begun_other)
        ∙ from_at in
      let (e2, copied, ready, order2) =
        send_delivers k1 q sender who n to from order who_in (λ e. differ (sym e)) given idle waits
          to1 from1 in
      let memory = (schedule-SameGlobals begun s).memory_same ∙ begun_memory in
      (
        k1,
        delivered k1 who to from,
        e1,
        e2,
        record {
          copied = copied ∙ ap (λ (h : ℕ → Message). h from) memory;
          receiver_idle = ready;
          sender_idle = rw (update_ne k1.proc_table who _ sender (λ e. differ (sym e))) idle;
          in_order = order2;
        },
      )

  sent-IsIdle : (sent : Kernel) → Parked k sent sender who n → IsIdle (sent.proc_table who)
  sent-IsIdle sent facts = record {
    idle_flags = ground (arith, facts.flags_at who, who_idle.idle_flags);
    idle_msg = ground (arith, facts.msg_at who, who_idle.idle_msg);
    idle_recvfrom = facts.recvfrom_at who ∙ who_idle.idle_recvfrom;
    idle_sendto = ground (arith, facts.sendto_at who, who_idle.idle_sendto);
  }

  -- The receive that finds the sender blocked.
  take_sent :
      (k1 : Kernel) (stack : Message)
      → IpcInv k1 (appended q who sender)
      → IsIdle (k1.proc_table who)
      → IsParked (k1.proc_table sender)
      → (k1.proc_table sender).p_msg ≡ n
      → (k1.proc_table who).ldt_rw ≡ (k.proc_table who).ldt_rw
      → (k1.proc_table sender).ldt_rw ≡ (k.proc_table sender).ldt_rw
      → k1.memory ≡ k.memory
      → (k2 : Kernel) × (msg_recevie k1 who sender m stack ≡ done k2)
        × Passed k k2 q who sender to from
  take_sent k1 stack order idle blocked told ldt_w ldt_s memory =
      let to1 : va2la k1 who m ≡ done to = va2la-same k k1 who m ldt_w ∙ to_at in
      let from1 : va2la k1 sender (k1.proc_table sender).p_msg ≡ done from =
        rw told (va2la-same k k1 sender n ldt_s ∙ from_at) in
      let (k2, e2, copied, free, ready, order2) =
        receive_takes k1 (appended q who sender) who sender sender m to from (q who) [] stack order
          who_in differ buffer idle blocked (queue_at-dest q who sender) (inl refl) to1 from1 in
      (
        k2,
        e2,
        record {
          copied = copied ∙ ap (λ (h : ℕ → Message). h from) memory;
          receiver_idle = ready;
          sender_idle = free;
          in_order = subst (IpcInv k2) (removed-appended q who sender) order2;
        },
      )

  sender_first :
      (i : ℕ) (stack : Message)
      → i ≢ sender
      → CanRun k i
      → (k1 k2 : Kernel) × (msg_send k sender who n ≡ done k1)
        × (msg_recevie k1 who sender m stack ≡ done k2)
        × Passed k k2 q who sender to from
  sender_first i stack other run =
      let sent = parked k sender who n (q who) in
      let (k1, e1, s, c, facts, stays, order) =
        send_parks k q sender who n i who [] v sender_in who_in (λ e. differ (sym e)) given
          sender_idle (ground (arith, who_idle.idle_flags)) refl
          (who_in, ground (arith, who_idle.idle_flags)) differ other run in
      let idle : IsIdle (k1.proc_table who) =
        schedule-IsIdle sent who s who_in (sent-IsIdle sent facts) in
      let told : (k1.proc_table sender).p_msg ≡ n =
        rw stays (ground (arith, facts.msg_at sender)) in
      let blocked : IsParked (k1.proc_table sender) = record {
        parked_flags = rw stays (ground (arith, facts.flags_at sender));
        parked_recvfrom = rw stays (facts.recvfrom_at sender ∙ sender_idle.idle_recvfrom);
        parked_msg = rw told given;
      } in
      let (k2, e2, passed) =
        take_sent k1 stack order idle blocked told
          ((schedule-SameIpc sent who s who_in).ldt_same ∙ facts.ldt_at who)
          (rw stays (facts.ldt_at sender))
          ((schedule-SameGlobals sent s).memory_same ∙ facts.memory_same) in
      (k1, k2, e1, e2, passed)

  -- Where the messages are in order, two processes of the table neither send nor receive, the first
  -- has a buffer and no interrupt pending and the second has a message, their addresses can be
  -- translated, and a third process can run, a receive of the first from the second and a send of
  -- the second to the first both return, in either order: the one that comes first blocks, and the
  -- other finds it. In both orders the message is then in the buffer, the two processes neither send
  -- nor receive and are ready, and the messages are in order, with the queues that there were before.
  pub message_passes :
      (i : ℕ) (stack : Message)
      → (k.proc_table who).has_int_msg ≡ 0
      → i ≢ who
      → i ≢ sender
      → CanRun k i
      → ((k1 k2 : Kernel) × (msg_recevie k who sender m stack ≡ done k1)
          × (msg_send k1 sender who n ≡ done k2)
          × Passed k k2 q who sender to from)
        × ((k1 k2 : Kernel) × (msg_send k sender who n ≡ done k1)
            × (msg_recevie k1 who sender m stack ≡ done k2)
            × Passed k k2 q who sender to from)
  message_passes i stack calm apart other run =
      (receive_first i stack calm apart run, sender_first i stack other run)
