-- ===== src/Ipc/Calm.antt =====
-- src/kernel/sched.c: changes of processes that leave the blocked senders as they are.
use aneasyos.Base.{ℕ, ◌<◌, ◌≡◌, refl, sym, ◌∙◌, true, false, List}
use aneasyos.Base.Flags.{has_flag}
use aneasyos.Kernel.{Kernel, Proc, nr_all, sending}
use aneasyos.Ipc.{is_waiting_for}
use aneasyos.Ipc.Chain.{nexts, Chain-frame}
use aneasyos.Ipc.Deadlock.{IsSending, Ends, Trail-IsSending, Trail-frame}
use aneasyos.Ipc.Invariant.{Queues, IpcInv}

abbrev pub IsSender : Proc → Type 0
IsSender p = has_flag p.p_flags sending ≡ true

-- The two states send alike, and a sender keeps its message and its destination.
pub record Calm (p p' : Proc) : Type 0 where
  pub calm_sending : has_flag p'.p_flags sending ≡ has_flag p.p_flags sending
  pub calm_msg : IsSender p → p'.p_msg ≡ p.p_msg
  pub calm_sendto : IsSender p → p'.p_sendto ≡ p.p_sendto
  pub calm_queue : p'.q_sending ≡ p.q_sending
  pub calm_next : p'.next_sending ≡ p.next_sending

pub Calm-refl : (p : Proc) → Calm p p
Calm-refl p = record {
  calm_sending = refl;
  calm_msg = λ s. refl;
  calm_sendto = λ s. refl;
  calm_queue = refl;
  calm_next = refl;
}

module _ (k k' : Kernel) (calm : (j : ℕ) → Calm (k.proc_table j) (k'.proc_table j)) where
  pub Calm-IsSending : (x : ℕ) → IsSending k' x → IsSending k x
  Calm-IsSending x s = sym (calm x).calm_sending ∙ s

  Calm-Queues : (q : ℕ → List ℕ) → Queues k q → Queues k' q
  Calm-Queues q v = record {
    chained = λ d h. rw (calm d).calm_queue (
        Chain-frame (nexts k) (nexts k') (k.proc_table d).q_sending (q d)
          (λ x m. (calm x).calm_next) (v.chained d h));
    distinct = v.distinct;
    members = λ d x h m.
        let (lt, snd, to) = v.members d x h m in
        (lt, (calm x).calm_sending ∙ snd, (calm x).calm_sendto snd ∙ to);
    queued = λ x h s.
        let s' = Calm-IsSending x s in
        let (lt, i, msg) = v.queued x h s' in
        rw ((calm x).calm_sendto s', (calm x).calm_msg s') (lt, i, msg);
  }

  Calm-Ends : (p : ℕ) → Ends k p → Ends k' p
  Calm-Ends p (xs, e, t, (lt, s)) = (
    xs,
    e,
    Trail-frame k k' p e xs
        (λ x m.
          let s' = Trail-IsSending k p e x xs t m in
          ((calm x).calm_sending, (calm x).calm_msg s', (calm x).calm_sendto s'))
        t,
    (lt, (calm e).calm_sending ∙ s),
  )

  -- The messages stay in order if nobody begins to wait for a process that is blocked in sending
  -- to him.
  pub Calm-IpcInv :
      (q : ℕ → List ℕ)
      → IpcInv k q
      → ((x : ℕ)
          → x < nr_all
          → IsSending k x
          → is_waiting_for (k'.proc_table (k.proc_table x).p_sendto) x ≡ false)
      → IpcInv k' q
  Calm-IpcInv q v apart = record {
    queues = Calm-Queues q v.queues;
    ends = λ x h. Calm-Ends x (v.ends x h);
    met = λ x h s. let s' = Calm-IsSending x s in rw ((calm x).calm_sendto s') (apart x h s');
  }
