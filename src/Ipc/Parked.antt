-- ===== src/Ipc/Parked.antt =====
-- src/kernel/sched.c: the state in which a sender blocks, and its sending queues.
use aneasyos.Base.{
  ℕ, ◌≤◌, ◌≡◌, refl, sym, subst, fun_ext, ◌≢◌, Option, none, some, List, [], ◌∷◌, ◌++◌, arith,
  update_self, ◌==◌, if◌then◌else◌, update,
}
use aneasyos.Base.Lists.{length}
use aneasyos.Base.Indices.{IsIn, Distinct}
use aneasyos.Kernel.{Kernel, Proc, done, nr_all, sending, set_proc}
use aneasyos.Ipc.{park, enqueue, walk}
use aneasyos.Ipc.Chain.{
  Chain, nexts, last_of, last_of-IsIn, find_last-last_of, Chain-snoc, Chain-update, Chain-frame,
}

-- The state that `park` leaves, for a queue of the destination that is the list `xs`.
abbrev blocked_proc : Proc → ℕ → ℕ → Proc
blocked_proc s dest m = record s { p_flags = sending; p_sendto = dest; p_msg = m }

abbrev linked : Kernel → ℕ → ℕ → List ℕ → Kernel
linked k sender dest [] = set_proc dest (record (k.proc_table dest) { q_sending = some sender }) k
linked k sender dest (x ∷ xs) =
    set_proc (last_of x xs) (record (k.proc_table (last_of x xs)) { next_sending = some sender }) k

pub parked : Kernel → ℕ → ℕ → ℕ → List ℕ → Kernel
parked k sender dest m xs =
    let l = linked (set_proc sender (blocked_proc (k.proc_table sender) dest m) k) sender dest xs in
    set_proc sender (record (l.proc_table sender) { next_sending = none }) l

enqueue-linked :
    (k : Kernel) (sender dest : ℕ) (xs : List ℕ)
    → Chain (nexts k) (k.proc_table dest).q_sending xs
    → length xs ≤ nr_all
    → enqueue k sender dest ≡ done (linked k sender dest xs)
unfolding enqueue
enqueue-linked k sender dest [] c l = rw (c, enqueue)
enqueue-linked k sender dest (x ∷ xs) (e, c) l =
    rw (e, enqueue) (rw (find_last-last_of walk k x xs c (omega arith)))

-- What has changed in the table, entry by entry.
pub record Parked (k k' : Kernel) (sender dest m : ℕ) : Type 0 where
  pub flags_at :
      (j : ℕ)
      → (k'.proc_table j).p_flags ≡ (if j == sender then sending else (k.proc_table j).p_flags)
  pub msg_at :
      (j : ℕ) → (k'.proc_table j).p_msg ≡ (if j == sender then m else (k.proc_table j).p_msg)
  pub sendto_at :
      (j : ℕ)
      → (k'.proc_table j).p_sendto ≡ (if j == sender then dest else (k.proc_table j).p_sendto)
  pub recvfrom_at : (j : ℕ) → (k'.proc_table j).p_recvfrom ≡ (k.proc_table j).p_recvfrom
  pub ticks_at : (j : ℕ) → (k'.proc_table j).ticks ≡ (k.proc_table j).ticks
  pub priority_at : (j : ℕ) → (k'.proc_table j).priority ≡ (k.proc_table j).priority
  pub wake_at : (j : ℕ) → (k'.proc_table j).wake_up_ticks ≡ (k.proc_table j).wake_up_ticks
  pub queue_at : (j : ℕ) → (j ≢ dest → (k'.proc_table j).q_sending ≡ (k.proc_table j).q_sending)
  pub now_same : k'.ticks ≡ k.ticks
  pub ldt_at : (j : ℕ) → (k'.proc_table j).ldt_rw ≡ (k.proc_table j).ldt_rw
  pub memory_same : k'.memory ≡ k.memory

pub parked-Parked :
    (k : Kernel) (sender dest m : ℕ) (xs : List ℕ)
    → sender ≢ dest
    → ¬ IsIn sender xs
    → Parked k (parked k sender dest m xs) sender dest m
unfolding parked
parked-Parked k sender dest m [] ne out = record {
  flags_at = λ j. ground arith;
  msg_at = λ j. ground arith;
  sendto_at = λ j. ground arith;
  recvfrom_at = λ j. ground arith;
  ticks_at = λ j. ground arith;
  priority_at = λ j. ground arith;
  wake_at = λ j. ground arith;
  queue_at = λ j h. ground arith;
  now_same = refl;
  ldt_at = λ j. ground arith;
  memory_same = refl;
}
parked-Parked k sender dest m (x ∷ xs) ne out =
    let apart : sender ≢ last_of x xs =
      λ e. out (subst (λ z. IsIn z (x ∷ xs)) (sym e) (last_of-IsIn x xs)) in
    record {
      flags_at = λ j. ground arith;
      msg_at = λ j. ground arith;
      sendto_at = λ j. ground arith;
      recvfrom_at = λ j. ground arith;
      ticks_at = λ j. ground arith;
      priority_at = λ j. ground arith;
      wake_at = λ j. ground arith;
      queue_at = λ j h. ground arith;
      now_same = refl;
      ldt_at = λ j. ground arith;
      memory_same = refl;
    }

-- `park` returns that state.
pub park-parked :
    (k : Kernel) (sender dest m : ℕ) (xs : List ℕ)
    → (k.proc_table sender).p_flags ≡ 0
    → sender ≢ dest
    → ¬ IsIn sender xs
    → Chain (nexts k) (k.proc_table dest).q_sending xs
    → length xs ≤ nr_all
    → park k sender dest m ≡ done (parked k sender dest m xs)
unfolding park parked
park-parked k sender dest m xs f ne out c l =
    let s = set_proc sender (blocked_proc (k.proc_table sender) dest m) k in
    let at_dest : (s.proc_table dest).q_sending ≡ (k.proc_table dest).q_sending = ground arith in
    let chain : Chain (nexts s) (s.proc_table dest).q_sending xs =
      rw at_dest (
        Chain-frame (nexts k) (nexts s) (k.proc_table dest).q_sending xs (λ x i. ground arith) c) in
    rw f (rw (enqueue-linked s sender dest xs chain l))

nexts-parked_empty :
    (k : Kernel) (sender dest m : ℕ)
    → sender ≢ dest
    → nexts (parked k sender dest m []) ≡ update (nexts k) sender none
unfolding parked
nexts-parked_empty k sender dest m ne = fun_ext (λ j. ground arith)

nexts-parked :
    (k : Kernel) (sender dest m x : ℕ) (xs : List ℕ)
    → sender ≢ last_of x xs
    → nexts (parked k sender dest m (x ∷ xs))
      ≡ update (update (nexts k) (last_of x xs) (some sender)) sender none
unfolding parked
nexts-parked k sender dest m x xs apart = fun_ext (λ j. ground arith)

-- The queue of the destination gets the sender behind its other entries.
pub parked-Chain :
    (k : Kernel) (sender dest m : ℕ) (xs : List ℕ)
    → sender ≢ dest
    → ¬ IsIn sender xs
    → Distinct xs
    → Chain (nexts k) (k.proc_table dest).q_sending xs
    → let k' = parked k sender dest m xs in
      Chain (nexts k') (k'.proc_table dest).q_sending (xs ++ (sender ∷ []))
parked-Chain k sender dest m [] ne out d c =
    rw (nexts-parked_empty k sender dest m ne) (head, update_self (nexts k) sender none)
  where
    head : ((parked k sender dest m []).proc_table dest).q_sending ≡ some sender
    head = unfold parked in ground arith
parked-Chain k sender dest m (x ∷ xs) ne out d (e, c) = rw head (
    subst (λ n. Chain n (some x) ((x ∷ xs) ++ (sender ∷ [])))
      (sym (nexts-parked k sender dest m x xs apart)) (Chain-snoc (nexts k) x sender xs c d out))
  where
    apart : sender ≢ last_of x xs
    apart e = out (subst (λ z. IsIn z (x ∷ xs)) (sym e) (last_of-IsIn x xs))

    head : ((parked k sender dest m (x ∷ xs)).proc_table dest).q_sending ≡ some x
    head = unfold parked in ground arith

-- The other queues stay as they are.
pub parked-Chain_ne :
    (k : Kernel) (sender dest m : ℕ) (xs ys : List ℕ) (o : Option ℕ)
    → sender ≢ dest
    → ¬ IsIn sender xs
    → ¬ IsIn sender ys
    → ((y : ℕ) → IsIn y ys → ¬ IsIn y xs)
    → Chain (nexts k) o ys
    → Chain (nexts (parked k sender dest m xs)) o ys
parked-Chain_ne k sender dest m [] ys o ne out out' apart c =
    rw (nexts-parked_empty k sender dest m ne) (Chain-update (nexts k) sender none o ys out' c)
parked-Chain_ne k sender dest m (x ∷ xs) ys o ne out out' apart c =
    rw (nexts-parked k sender dest m x xs differ) (
      Chain-update _ sender none o ys out' (
        Chain-update (nexts k) (last_of x xs) (some sender) o ys
          (λ i. apart (last_of x xs) i (last_of-IsIn x xs)) c))
  where
    differ : sender ≢ last_of x xs
    differ e = out (subst (λ z. IsIn z (x ∷ xs)) (sym e) (last_of-IsIn x xs))
