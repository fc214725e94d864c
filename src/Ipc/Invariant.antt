-- ===== src/Ipc/Invariant.antt =====
-- src/kernel/sched.c: when the messages between processes are in order.
use aneasyos.Base.{ℕ, ◌<◌, ◌≡◌, sym, subst, ◌∙◌, ◌≢◌, inl, inr, false, List, [], ◌∷◌, arith}
use aneasyos.Base.Indices.{IsIn, Distinct}
use aneasyos.Base.Flags.{has_flag}
use aneasyos.Kernel.{Kernel, Proc, done, nr_all, sending, receiving}
use aneasyos.Sched.{wake, refilled, schedule}
use aneasyos.Sched.Pick.{schedule-table}
use aneasyos.Ipc.{is_waiting_for}
use aneasyos.Ipc.Chain.{Chain, nexts, Chain-frame}
use aneasyos.Ipc.Deadlock.{IsSending, Trail, Ends, Trail-frame}

-- The sending queue of every process is the list `q` says, without repetition, and holds exactly the
-- processes that are blocked in a send to it.
pub record Queues (k : Kernel) (q : ℕ → List ℕ) : Type 0 where
  pub chained : (d : ℕ) → d < nr_all → Chain (nexts k) (k.proc_table d).q_sending (q d)
  pub distinct : (d : ℕ) → d < nr_all → Distinct (q d)
  pub members :
      (d x : ℕ)
      → d < nr_all
      → IsIn x (q d)
      → (x < nr_all) × IsSending k x × ((k.proc_table x).p_sendto ≡ d)
  pub queued :
      (x : ℕ)
      → x < nr_all
      → IsSending k x
      → ((k.proc_table x).p_sendto < nr_all)
        × IsIn x (q (k.proc_table x).p_sendto)
        × ((k.proc_table x).p_msg ≢ 0)

-- Besides, no processes wait for one another in a circle, and nobody waits for a message from a
-- process that is blocked in sending it to him.
pub record IpcInv (k : Kernel) (q : ℕ → List ℕ) : Type 0 where
  pub queues : Queues k q
  pub ends : (x : ℕ) → x < nr_all → Ends k x
  pub met :
      (x : ℕ)
      → x < nr_all
      → IsSending k x
      → is_waiting_for (k.proc_table (k.proc_table x).p_sendto) x ≡ false

-- Two states of a process agree in what the exchange of messages reads.
pub record SameIpc (p p' : Proc) : Type 0 where
  pub sending_same : has_flag p'.p_flags sending ≡ has_flag p.p_flags sending
  pub receiving_same : has_flag p'.p_flags receiving ≡ has_flag p.p_flags receiving
  pub msg_same : p'.p_msg ≡ p.p_msg
  pub recvfrom_same : p'.p_recvfrom ≡ p.p_recvfrom
  pub sendto_same : p'.p_sendto ≡ p.p_sendto
  pub int_same : p'.has_int_msg ≡ p.has_int_msg
  pub q_same : p'.q_sending ≡ p.q_sending
  pub next_same : p'.next_sending ≡ p.next_sending
  pub ldt_same : p'.ldt_rw ≡ p.ldt_rw

wake-SameIpc : (now : ℕ) (p : Proc) → SameIpc p (wake now p)
wake-SameIpc now p = ground arith

refilled-SameIpc : (p : Proc) → SameIpc p (refilled p)
refilled-SameIpc p = ground arith

pub SameIpc-trans : {p q r : Proc} → SameIpc p q → SameIpc q r → SameIpc p r
SameIpc-trans a b = record {
  sending_same = b.sending_same ∙ a.sending_same;
  receiving_same = b.receiving_same ∙ a.receiving_same;
  msg_same = b.msg_same ∙ a.msg_same;
  recvfrom_same = b.recvfrom_same ∙ a.recvfrom_same;
  sendto_same = b.sendto_same ∙ a.sendto_same;
  int_same = b.int_same ∙ a.int_same;
  q_same = b.q_same ∙ a.q_same;
  next_same = b.next_same ∙ a.next_same;
  ldt_same = b.ldt_same ∙ a.ldt_same;
}

-- Scheduling touches nothing of that.
pub schedule-SameIpc :
    (k : Kernel) {k' : Kernel} (j : ℕ)
    → schedule k ≡ done k'
    → j < nr_all
    → SameIpc (k.proc_table j) (k'.proc_table j)
schedule-SameIpc k {k'} j e h = elim (schedule-table k j e h) [
  | inl eq ↦ subst (SameIpc (k.proc_table j)) (sym eq) (wake-SameIpc k.ticks (k.proc_table j))
  | inr eq ↦
      subst (SameIpc (k.proc_table j)) (sym eq)
        (SameIpc-trans (wake-SameIpc k.ticks (k.proc_table j)) (refilled-SameIpc _))
]

module _ (k k' : Kernel)
    (same : (j : ℕ) → j < nr_all → SameIpc (k.proc_table j) (k'.proc_table j)) where
  Queues-frame : (q : ℕ → List ℕ) → Queues k q → Queues k' q
  Queues-frame q v = record {
    chained = λ d h. rw (same d h).q_same (
        Chain-frame (nexts k) (nexts k') (k.proc_table d).q_sending (q d)
          (λ x m. (same x (v.members d x h m).0).next_same) (v.chained d h));
    distinct = v.distinct;
    members = λ d x h m.
        let (lt, snd, to) = v.members d x h m in
        (lt, (same x lt).sending_same ∙ snd, (same x lt).sendto_same ∙ to);
    queued = λ x h s.
        let (lt, i, msg) = v.queued x h (sym (same x h).sending_same ∙ s) in
        rw ((same x h).sendto_same, (same x h).msg_same) (lt, i, msg);
  }

  Trail-below : (p e x : ℕ) (xs : List ℕ) → Trail k p xs e → IsIn x xs → x < nr_all
  Trail-below p e x [] t m = absurd m
  Trail-below p e x (y ∷ ys) t (inl xy) = rw xy t.1
  Trail-below p e x (y ∷ ys) t (inr m) = Trail-below (k.proc_table y).p_sendto e x ys t.4 m

  Ends-frame : (p : ℕ) → Ends k p → Ends k' p
  Ends-frame p (xs, e, t, (lt, s)) = (
    xs,
    e,
    Trail-frame k k' p e xs
        (λ x m.
          let d = same x (Trail-below p e x xs t m) in (d.sending_same, d.msg_same, d.sendto_same))
        t,
    (lt, (same e lt).sending_same ∙ s),
  )

  pub IpcInv-frame : (q : ℕ → List ℕ) → IpcInv k q → IpcInv k' q
  IpcInv-frame q v = record {
    queues = Queues-frame q v.queues;
    ends = λ x h. Ends-frame x (v.ends x h);
    met = λ x h s.
        let s' : IsSending k x = sym (same x h).sending_same ∙ s in
        let (lt, i, msg) = v.queues.queued x h s' in
        let d = same (k.proc_table x).p_sendto lt in
        rw ((same x h).sendto_same, d.receiving_same, d.recvfrom_same) (v.met x h s');
  }
