-- ===== src/Ipc/Receive/Taken.antt =====
-- src/kernel/sched.c: the state in which `msg_recevie` has taken a message from a sending queue.
use aneasyos.Base.{
  ℕ, ◌≡◌, refl, sym, subst, fun_ext, ◌≢◌, inl, Option, none, some, List, [], ◌∷◌, ◌++◌, arith, ◌==◌,
  if◌then◌else◌, update,
}
use aneasyos.Base.Indices.{IsIn, Distinct, append-IsIn_left, append-IsIn_right}
use aneasyos.Base.Flags.{reset_flag}
use aneasyos.Kernel.{Kernel, no_task, sending, set_proc}
use aneasyos.Ipc.{copy_message}
use aneasyos.Ipc.Chain.{Chain, nexts, last_of, last_of-IsIn, Chain-update, Chain-unlink}
use aneasyos.Ipc.Receive.{clear_next, released}

-- The process before `from`, in the queue `xs ++ (from ∷ ys)`.
abbrev pub before : List ℕ → Option ℕ
before [] = none
before (x ∷ xs) = some (last_of x xs)

abbrev pub unlinked : Kernel → ℕ → Option ℕ → ℕ → Kernel
unlinked k who none from =
    clear_next from
      (set_proc who (record (k.proc_table who) { q_sending = (k.proc_table from).next_sending }) k)
unlinked k who (some p) from =
    clear_next from
      (set_proc p (record (k.proc_table p) { next_sending = (k.proc_table from).next_sending }) k)

unfoldable pub taken : Kernel → ℕ → Option ℕ → ℕ → ℕ → ℕ → Kernel
taken k who prev from to source =
    let u = unlinked k who prev from in
    set_proc from (released (u.proc_table from)) (copy_message u to source)

-- What has changed in the table, entry by entry.
pub record Taken (k k' : Kernel) (who from to source : ℕ) : Type 0 where
  pub flags_at :
      (j : ℕ)
      → (k'.proc_table j).p_flags ≡ (
          if j == from
          then reset_flag (k.proc_table j).p_flags sending
          else (k.proc_table j).p_flags)
  pub msg_at : (j : ℕ) → (k'.proc_table j).p_msg ≡ (if j == from then 0 else (k.proc_table j).p_msg)
  pub sendto_at :
      (j : ℕ)
      → (k'.proc_table j).p_sendto ≡ (if j == from then no_task else (k.proc_table j).p_sendto)
  pub recvfrom_at : (j : ℕ) → (k'.proc_table j).p_recvfrom ≡ (k.proc_table j).p_recvfrom
  pub copied : k'.memory to ≡ k.memory source

pub taken-Taken :
    (k : Kernel) (who from to source : ℕ) (prev : Option ℕ)
    → Taken k (taken k who prev from to source) who from to source
unfolding taken
taken-Taken k who from to source none = record {
  flags_at = λ j. ground arith;
  msg_at = λ j. ground arith;
  sendto_at = λ j. ground arith;
  recvfrom_at = λ j. ground arith;
  copied = ground arith;
}
taken-Taken k who from to source (some p) = record {
  flags_at = λ j. ground arith;
  msg_at = λ j. ground arith;
  sendto_at = λ j. ground arith;
  recvfrom_at = λ j. ground arith;
  copied = ground arith;
}

unlinked-nexts_head :
    (k : Kernel) (who from to source : ℕ)
    → nexts (taken k who none from to source) ≡ update (nexts k) from none
unfolding taken
unlinked-nexts_head k who from to source = fun_ext (λ j. ground arith)

unlinked-nexts_behind :
    (k : Kernel) (who p from to source : ℕ)
    → nexts (taken k who (some p) from to source)
      ≡ update (update (nexts k) p (nexts k from)) from none
unfolding taken
unlinked-nexts_behind k who p from to source = fun_ext (λ j. ground arith)

-- The queue of the receiver loses the process whose message has been taken.
pub taken-Chain :
    (k : Kernel) (who from to source : ℕ) (xs ys : List ℕ)
    → who ≢ from
    → Distinct (xs ++ (from ∷ ys))
    → Chain (nexts k) (k.proc_table who).q_sending (xs ++ (from ∷ ys))
    → let k' = taken k who (before xs) from to source in
      Chain (nexts k') (k'.proc_table who).q_sending (xs ++ ys)
taken-Chain k who from to source [] ys ne d (e, c) =
    rw (head, unlinked-nexts_head k who from to source)
      (Chain-update (nexts k) from none (nexts k from) ys d.0 c)
  where
    head : ((taken k who none from to source).proc_table who).q_sending ≡ nexts k from
    head = unfold taken in ground arith
taken-Chain k who from to source (x ∷ xs) ys ne d (e, c) = rw head (
    subst (λ n. Chain n (some x) (x ∷ (xs ++ ys)))
      (sym (unlinked-nexts_behind k who (last_of x xs) from to source))
      (Chain-unlink (nexts k) x from xs ys c d))
  where
    head : ((taken k who (some (last_of x xs)) from to source).proc_table who).q_sending ≡ some x
    head = unfold taken in ground (arith, e)

-- The other queues stay as they are.
pub taken-Chain_ne :
    (k : Kernel) (who d from to source : ℕ) (xs zs : List ℕ)
    → d ≢ who
    → ((z : ℕ) → IsIn z zs → ¬ IsIn z (xs ++ (from ∷ [])))
    → Chain (nexts k) (k.proc_table d).q_sending zs
    → let k' = taken k who (before xs) from to source in
      Chain (nexts k') (k'.proc_table d).q_sending zs
taken-Chain_ne k who d from to source [] zs other apart c =
    rw (head, unlinked-nexts_head k who from to source)
      (Chain-update (nexts k) from none (k.proc_table d).q_sending zs (λ m. apart from m (inl refl))
        c)
  where
    head : ((taken k who none from to source).proc_table d).q_sending ≡ (k.proc_table d).q_sending
    head = unfold taken in ground arith
taken-Chain_ne k who d from to source (x ∷ xs) zs other apart c =
    rw (head, unlinked-nexts_behind k who (last_of x xs) from to source)
      (Chain-update _ from none (k.proc_table d).q_sending zs
        (λ m. apart from m (append-IsIn_right from (x ∷ xs) (from ∷ []) (inl refl)))
        (Chain-update (nexts k) (last_of x xs) (nexts k from) (k.proc_table d).q_sending zs
          (λ m.
            apart (last_of x xs) m
              (append-IsIn_left (last_of x xs) (x ∷ xs) (from ∷ []) (last_of-IsIn x xs)))
          c))
  where
    head :
        ((taken k who (some (last_of x xs)) from to source).proc_table d).q_sending
        ≡ (k.proc_table d).q_sending
    head = unfold taken in ground arith
