-- ===== src/Ipc/Receive/Take.antt =====
-- src/kernel/sched.c: `msg_recevie`, where a process is blocked in sending to the receiver.
use aneasyos.Base.{
  ℕ, ◌<◌, ◌≡◌, refl, sym, subst, ◌∙◌, ◌≢◌, inl, inr, false, List, [], ◌∷◌, ◌++◌, arith, update_self,
  update_ne, update, ℕ_discrete,
}
use aneasyos.Base.Indices.{IsIn, Distinct, append-IsIn_right}
use aneasyos.Base.Flags.{has_flag}
use aneasyos.Kernel.{Kernel, nr_all, sending}
use aneasyos.Ipc.Chain.{Chain, nexts}
use aneasyos.Ipc.Deadlock.{IsSending, Trail, IsEnd, Ends}
use aneasyos.Ipc.Invariant.{Queues, IpcInv}
use aneasyos.Ipc.Receive.Taken.{Taken, taken, before, taken-Taken, taken-Chain, taken-Chain_ne}

middle-IsIn : (a f : ℕ) (xs ys : List ℕ) → IsIn a (xs ++ ys) → IsIn a (xs ++ (f ∷ ys))
middle-IsIn a f [] ys m = inr m
middle-IsIn a f (x ∷ xs) ys (inl e) = inl e
middle-IsIn a f (x ∷ xs) ys (inr m) = inr (middle-IsIn a f xs ys m)

middle-absent : (f : ℕ) (xs ys : List ℕ) → Distinct (xs ++ (f ∷ ys)) → ¬ IsIn f (xs ++ ys)
middle-absent f [] ys d m = d.0 m
middle-absent f (x ∷ xs) ys d (inl e) =
    d.0 (subst (λ z. IsIn z (xs ++ (f ∷ ys))) e (append-IsIn_right f xs (f ∷ ys) (inl refl)))
middle-absent f (x ∷ xs) ys d (inr m) = middle-absent f xs ys d.1 m

middle-Distinct : (f : ℕ) (xs ys : List ℕ) → Distinct (xs ++ (f ∷ ys)) → Distinct (xs ++ ys)
middle-Distinct f [] ys d = d.1
middle-Distinct f (x ∷ xs) ys d =
    ((λ m. d.0 (middle-IsIn x f xs ys m)), middle-Distinct f xs ys d.1)

middle_other : (a f : ℕ) (xs ys : List ℕ) → a ≢ f → IsIn a (xs ++ (f ∷ ys)) → IsIn a (xs ++ ys)
middle_other a f [] ys ne (inl e) = absurd (ne e)
middle_other a f [] ys ne (inr m) = m
middle_other a f (x ∷ xs) ys ne (inl e) = inl e
middle_other a f (x ∷ xs) ys ne (inr m) = inr (middle_other a f xs ys ne m)

snoc-IsIn : (a f : ℕ) (xs ys : List ℕ) → IsIn a (xs ++ (f ∷ [])) → IsIn a (xs ++ (f ∷ ys))
snoc-IsIn a f [] ys (inl e) = inl e
snoc-IsIn a f [] ys (inr m) = absurd m
snoc-IsIn a f (x ∷ xs) ys (inl e) = inl e
snoc-IsIn a f (x ∷ xs) ys (inr m) = inr (snoc-IsIn a f xs ys m)

-- The queues without the process that has been taken from the queue of `who`.
unfoldable pub removed : (ℕ → List ℕ) → ℕ → List ℕ → List ℕ → ℕ → List ℕ
removed q who xs ys = update q who (xs ++ ys)

module _ (k : Kernel) (q : ℕ → List ℕ) (v : IpcInv k q) (who from to source : ℕ) (xs ys : List ℕ)
    (who_in : who < nr_all) (queue : q who ≡ xs ++ (from ∷ ys)) where
  after : Kernel
  after = taken k who (before xs) from to source

  facts : Taken k after who from to source
  unfolding after
  facts = taken-Taken k who from to source (before xs)

  from_queued : IsIn from (q who)
  from_queued = rw queue (append-IsIn_right from xs (from ∷ ys) (inl refl))

  pub from_sends : (from < nr_all) × IsSending k from × ((k.proc_table from).p_sendto ≡ who)
  from_sends = v.queues.members who from who_in from_queued

  pub queue-Distinct : Distinct (xs ++ (from ∷ ys))
  queue-Distinct = subst Distinct queue (v.queues.distinct who who_in)

  pub queue-Chain : Chain (nexts k) (k.proc_table who).q_sending (xs ++ (from ∷ ys))
  queue-Chain =
      subst (Chain (nexts k) (k.proc_table who).q_sending) queue (v.queues.chained who who_in)

  queue_at-who : removed q who xs ys who ≡ xs ++ ys
  unfolding removed
  queue_at-who = update_self q who (xs ++ ys)

  queue_at-ne : (d : ℕ) → d ≢ who → removed q who xs ys d ≡ q d
  unfolding removed
  queue_at-ne d ne = update_ne q who (xs ++ ys) d ne

  removed-IsIn : (d x : ℕ) → IsIn x (removed q who xs ys d) → IsIn x (q d)
  removed-IsIn d x m = elim (ℕ_discrete d who) [
    | yes e ↦
        subst (λ z. IsIn x (q z)) (sym e)
          (rw queue (
            middle-IsIn x from xs ys
              (subst (IsIn x) queue_at-who (subst (λ z. IsIn x (removed q who xs ys z)) e m))))
    | no ne ↦ subst (IsIn x) (queue_at-ne d ne) m
  ]

  after-IsSending : (x : ℕ) → IsSending after x → (x ≢ from) × IsSending k x
  after-IsSending x s =
      let ne : x ≢ from = λ e. ground (arith, facts.flags_at x, s, e) in
      (ne, ground (arith, facts.flags_at x, s, ne))

  kept :
      (x : ℕ)
      → x ≢ from
      → ((after.proc_table x).p_flags ≡ (k.proc_table x).p_flags)
        × ((after.proc_table x).p_msg ≡ (k.proc_table x).p_msg)
        × ((after.proc_table x).p_sendto ≡ (k.proc_table x).p_sendto)
  kept x ne = (
    ground (arith, facts.flags_at x),
    ground (arith, facts.msg_at x),
    ground (arith, facts.sendto_at x),
  )

  removed_fresh : (d : ℕ) → d < nr_all → ¬ IsIn from (removed q who xs ys d)
  removed_fresh d h m = elim (ℕ_discrete d who) [
    | yes e ↦
        middle-absent from xs ys queue-Distinct
          (subst (IsIn from) queue_at-who (subst (λ z. IsIn from (removed q who xs ys z)) e m))
    | no ne ↦ ne (sym (v.queues.members d from h (removed-IsIn d from m)).2 ∙ from_sends.2)
  ]

  after-chained :
      who ≢ from
      → (d : ℕ) → d < nr_all
      → Chain (nexts after) (after.proc_table d).q_sending (removed q who xs ys d)
  unfolding after
  after-chained differ d h = elim (ℕ_discrete d who) [
    | yes e ↦
        subst (λ z. Chain (nexts after) (after.proc_table z).q_sending (removed q who xs ys z))
          (sym e)
          (rw queue_at-who
            (taken-Chain k who from to source xs ys differ queue-Distinct queue-Chain))
    | no ne ↦ rw (queue_at-ne d ne) (
        taken-Chain_ne k who d from to source xs (q d) ne
          (λ z m i. ne (
            sym (v.queues.members d z h m).2
            ∙ (v.queues.members who z who_in (rw queue (snoc-IsIn z from xs ys i))).2))
          (v.queues.chained d h))
  ]

  after-Distinct : (d : ℕ) → d < nr_all → Distinct (removed q who xs ys d)
  after-Distinct d h = elim (ℕ_discrete d who) [
    | yes e ↦
        subst (λ z. Distinct (removed q who xs ys z)) (sym e)
          (rw queue_at-who (middle-Distinct from xs ys queue-Distinct))
    | no ne ↦ rw (queue_at-ne d ne) (v.queues.distinct d h)
  ]

  after-Queues : who ≢ from → Queues after (removed q who xs ys)
  after-Queues differ = record {
    chained = after-chained differ;
    distinct = after-Distinct;
    members = λ d x h m.
        let (lt, s, e) = v.queues.members d x h (removed-IsIn d x m) in
        let ne : x ≢ from =
          λ eq. removed_fresh d h (subst (λ z. IsIn z (removed q who xs ys d)) eq m) in
        let (f, _, to') = kept x ne in (lt, rw f s, to' ∙ e);
    queued = λ x h s.
        let (ne, s') = after-IsSending x s in
        let (lt, i, msg) = v.queues.queued x h s' in
        let (_, m, to') = kept x ne in
        rw (to', m) (lt, still_queued x (k.proc_table x).p_sendto ne i, msg);
  }
    where
      still_queued : (x d : ℕ) → x ≢ from → IsIn x (q d) → IsIn x (removed q who xs ys d)
      still_queued x d ne i = elim (ℕ_discrete d who) [
        | yes e ↦
            subst (λ z. IsIn x (removed q who xs ys z)) (sym e)
              (rw queue_at-who (
                middle_other x from xs ys ne
                  (subst (IsIn x) queue (subst (λ z. IsIn x (q z)) e i))))
        | no other ↦ rw (queue_at-ne d other) i
      ]

  -- A trail through the released process now ends there.
  after-Trail : (p e : ℕ) (zs : List ℕ) → Trail k p zs e → IsEnd k e → Ends after p
  after-Trail p e [] t (lt, s) =
      let still : has_flag (after.proc_table e).p_flags sending ≡ false =
        ground (arith, facts.flags_at e) in
      ([], e, t, (lt, still))
  after-Trail p e (z ∷ zs) (pz, lt, s, msg, t) h = elim (ℕ_discrete z from) [
    | yes eq ↦
        let free : has_flag (after.proc_table z).p_flags sending ≡ false =
          ground (arith, facts.flags_at z, eq) in
        ([], z, pz, (lt, free))
    | no ne ↦
        let (f, m, to') = kept z ne in
        let (ws, e', t', h') = after-Trail (k.proc_table z).p_sendto e zs t h in
        (z ∷ ws, e', (pz, lt, rw f s, rw m msg, rw to' t'), h')
  ]

  -- The messages are in order when the message has been taken.
  pub taken-IpcInv :
      who ≢ from → IpcInv (taken k who (before xs) from to source) (removed q who xs ys)
  unfolding after
  taken-IpcInv differ = record {
    queues = after-Queues differ;
    ends = λ x h. let (zs, e, t, he) = v.ends x h in after-Trail x e zs t he;
    met = λ x h s.
        let (ne, s') = after-IsSending x s in
        let d = (k.proc_table x).p_sendto in
        rw (kept x ne).2 (ground (arith, facts.flags_at d, facts.recvfrom_at d, v.met x h s'));
  }
