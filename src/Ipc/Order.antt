-- ===== src/Ipc/Order.antt =====
-- src/kernel/sched.c: in the state in which a sender blocks the messages are in order.
use aneasyos.Base.{
  ℕ, ◌<◌, ◌≤◌, ◌≡◌, refl, sym, subst, ◌∙◌, ◌≢◌, inl, inr, false, List, [], ◌∷◌, ◌++◌, arith,
  update_self, update_ne, update, ℕ_discrete,
}
use aneasyos.Base.Lists.{length}
use aneasyos.Base.Indices.{
  IsIn, Distinct, Distinct-snoc, IsIn-append, append-IsIn_left, append-IsIn_right, length-le-bound,
  Below,
}
use aneasyos.Kernel.{Kernel, nr_all}
use aneasyos.Ipc.{is_waiting_for}
use aneasyos.Ipc.Chain.{Chain, nexts}
use aneasyos.Ipc.Deadlock.{
  IsSending, Trail, IsEnd, Ends, Trail-frame, Trail-IsSending, Trail-append,
}
use aneasyos.Ipc.Invariant.{Queues, IpcInv}
use aneasyos.Ipc.Parked.{Parked, parked, parked-Parked, parked-Chain, parked-Chain_ne}

unfoldable pub appended : (ℕ → List ℕ) → ℕ → ℕ → ℕ → List ℕ
appended q dest sender = update q dest (q dest ++ (sender ∷ []))

module _ (k : Kernel) (q : ℕ → List ℕ) (v : IpcInv k q) (sender dest m : ℕ)
    (sender_in : sender < nr_all) (dest_in : dest < nr_all) (ne : sender ≢ dest)
    (idle : (k.proc_table sender).p_flags ≡ 0) (given : m ≢ 0) where
  after : Kernel
  after = parked k sender dest m (q dest)

  not_queued : (d : ℕ) → d < nr_all → ¬ IsIn sender (q d)
  not_queued d h i = let (lt, s, _) = v.queues.members d sender h i in ground (arith, s)

  pub queue-short : length (q dest) ≤ nr_all
  queue-short =
      length-le-bound nr_all (q dest) (v.queues.distinct dest dest_in)
        (below (q dest) (λ x i. (v.queues.members dest x dest_in i).0))
    where
      below : (xs : List ℕ) → ((x : ℕ) → IsIn x xs → x < nr_all) → Below nr_all xs
      below [] h = tt
      below (x ∷ xs) h = (h x (inl refl), below xs (λ y i. h y (inr i)))

  facts : Parked k after sender dest m
  unfolding after
  facts = parked-Parked k sender dest m (q dest) ne (not_queued dest dest_in)

  queue_at-dest : appended q dest sender dest ≡ q dest ++ (sender ∷ [])
  unfolding appended
  queue_at-dest = update_self q dest (q dest ++ (sender ∷ []))

  queue_at-ne : (d : ℕ) → d ≢ dest → appended q dest sender d ≡ q d
  unfolding appended
  queue_at-ne d other = update_ne q dest (q dest ++ (sender ∷ [])) d other

  after-chained :
      (d : ℕ)
      → d < nr_all
      → Chain (nexts after) (after.proc_table d).q_sending (appended q dest sender d)
  unfolding after
  after-chained d h = elim (ℕ_discrete d dest) [
    | yes e ↦
        subst (λ z. Chain (nexts after) (after.proc_table z).q_sending (appended q dest sender z))
          (sym e)
          (rw queue_at-dest (
            parked-Chain k sender dest m (q dest) ne (not_queued dest dest_in)
              (v.queues.distinct dest dest_in) (v.queues.chained dest dest_in)))
    | no other ↦
        rw (queue_at-ne d other, facts.queue_at d other)
          (parked-Chain_ne k sender dest m (q dest) (q d) (k.proc_table d).q_sending ne
            (not_queued dest dest_in) (not_queued d h)
            (λ y i j.
              other (sym (v.queues.members d y h i).2 ∙ (v.queues.members dest y dest_in j).2))
            (v.queues.chained d h))
  ]

  after-IsSending : (x : ℕ) → x ≢ sender → IsSending after x → IsSending k x
  after-IsSending x other s = ground (arith, facts.flags_at x)

  IsSending-after : (x : ℕ) → IsSending k x → IsSending after x
  IsSending-after x s = ground (arith, facts.flags_at x)

  sender-sends :
      IsSending after sender
      × ((after.proc_table sender).p_sendto ≡ dest)
      × ((after.proc_table sender).p_msg ≢ 0)
  sender-sends = ground (arith, facts.flags_at sender, facts.sendto_at sender, facts.msg_at sender)

  kept :
      (x : ℕ)
      → x ≢ sender
      → ((after.proc_table x).p_sendto ≡ (k.proc_table x).p_sendto)
        × ((after.proc_table x).p_msg ≡ (k.proc_table x).p_msg)
  kept x other = ground (arith, facts.sendto_at x, facts.msg_at x)

  other_of : (x : ℕ) → IsSending k x → x ≢ sender
  other_of x s e = ground (arith, s)

  after-Queues : Queues after (appended q dest sender)
  after-Queues = record {
    chained = after-chained;
    distinct = λ d h. elim (ℕ_discrete d dest) [
      | yes e ↦
          subst (λ z. Distinct (appended q dest sender z)) (sym e)
            (rw queue_at-dest (
              Distinct-snoc (q dest) sender (v.queues.distinct dest dest_in)
                (not_queued dest dest_in)))
      | no other ↦ rw (queue_at-ne d other) (v.queues.distinct d h)
    ];
    members = λ d x h i. elim (ℕ_discrete d dest) [
      | yes e ↦ member_dest d x e h i
      | no other ↦ member_old d x h (rw (queue_at-ne d other) at i)
    ];
    queued = λ x h s. elim (ℕ_discrete x sender) [
      | yes e ↦
          subst
            (λ z.
              ((after.proc_table z).p_sendto < nr_all)
              × IsIn z (appended q dest sender (after.proc_table z).p_sendto)
              × ((after.proc_table z).p_msg ≢ 0))
            (sym e)
            (rw (sender-sends.1, queue_at-dest)
              (dest_in, append-IsIn_right sender (q dest) (sender ∷ []) (inl refl), sender-sends.2))
      | no other ↦
          let (lt, i, msg) = v.queues.queued x h (after-IsSending x other s) in
          rw ((kept x other).0, (kept x other).1) (lt, still (k.proc_table x).p_sendto x i, msg)
    ];
  }
    where
      member_old :
          (d x : ℕ)
          → d < nr_all
          → IsIn x (q d)
          → (x < nr_all) × IsSending after x × ((after.proc_table x).p_sendto ≡ d)
      member_old d x h i =
          let (lt, s, to) = v.queues.members d x h i in
          (lt, IsSending-after x s, (kept x (other_of x s)).0 ∙ to)

      member_dest :
          (d x : ℕ)
          → d ≡ dest
          → d < nr_all
          → IsIn x (appended q dest sender d)
          → (x < nr_all) × IsSending after x × ((after.proc_table x).p_sendto ≡ d)
      member_dest d x e h i =
          elim (IsIn-append x (q dest) (sender ∷ [])
            (rw queue_at-dest at (subst (λ z. IsIn x (appended q dest sender z)) e i))) [
              | inl old ↦ member_old d x h (subst (λ z. IsIn x (q z)) (sym e) old)
              | inr new ↦ elim new [
                | inl xs ↦
                    subst
                      (λ z. (z < nr_all) × IsSending after z × ((after.proc_table z).p_sendto ≡ d))
                      (sym xs) (sender_in, sender-sends.0, sender-sends.1 ∙ sym e)
                | inr none' ↦ absurd none'
              ]
            ]

      still : (d x : ℕ) → IsIn x (q d) → IsIn x (appended q dest sender d)
      still d x i = elim (ℕ_discrete d dest) [
        | yes e ↦
            subst (λ z. IsIn x (appended q dest sender z)) (sym e)
              (rw queue_at-dest
                (append-IsIn_left x (q dest) (sender ∷ []) (subst (λ z. IsIn x (q z)) e i)))
        | no other ↦ rw (queue_at-ne d other) i
      ]

  module _ (ys : List ℕ) (e : ℕ) (trail : Trail k dest ys e) (end : IsEnd k e)
      (open_end : e ≢ sender) (unmet : is_waiting_for (k.proc_table dest) sender ≡ false) where
    Trail-after : (p f : ℕ) (xs : List ℕ) → Trail k p xs f → Trail after p xs f
    Trail-after p f xs t =
        Trail-frame k after p f xs
          (λ x i.
            let s = Trail-IsSending k p f x xs t i in
            let other = other_of x s in
            (IsSending-after x s ∙ sym s, (kept x other).1, (kept x other).0))
          t

    IsEnd-after : (f : ℕ) → f ≢ sender → IsEnd k f → IsEnd after f
    IsEnd-after f other h = (h.0, ground (arith, facts.flags_at f, h.1))

    after-Ends : (x : ℕ) → x < nr_all → Ends after x
    after-Ends x h =
        let (xs, f, t, hf) = v.ends x h in
        elim (ℕ_discrete f sender) [
          | no other ↦ (xs, f, Trail-after x f xs t, IsEnd-after f other hf)
          | yes eq ↦ (
            xs ++ (sender ∷ ys),
            e,
            Trail-append after x sender e xs (sender ∷ ys)
                (subst (Trail after x xs) eq (Trail-after x f xs t))
                (
                  refl,
                  sender_in,
                  sender-sends.0,
                  sender-sends.2,
                  subst (λ z. Trail after z ys e) (sym sender-sends.1)
                      (Trail-after dest e ys trail),
                ),
            IsEnd-after e open_end end,
          )
        ]

    after-met :
        (x : ℕ)
        → x < nr_all
        → IsSending after x
        → is_waiting_for (after.proc_table (after.proc_table x).p_sendto) x ≡ false
    after-met x h s = elim (ℕ_discrete x sender) [
      | yes eq ↦
          subst (λ z. is_waiting_for (after.proc_table (after.proc_table z).p_sendto) z ≡ false)
            (sym eq)
            (rw sender-sends.1 (ground (arith, facts.flags_at dest, facts.recvfrom_at dest, unmet)))
      | no other ↦
          let d = (k.proc_table x).p_sendto in
          let old = v.met x h (after-IsSending x other s) in
          rw (kept x other).0 (ground (arith, facts.flags_at d, facts.recvfrom_at d, old))
    ]

    -- The messages are in order in the state in which the sender blocks.
    pub parked-IpcInv : IpcInv (parked k sender dest m (q dest)) (appended q dest sender)
    unfolding after
    parked-IpcInv = record { queues = after-Queues; ends = after-Ends; met = after-met }
