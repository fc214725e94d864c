-- ===== src/Ipc/Receive/Meet.antt =====
-- src/kernel/sched.c: a `msg_recevie` that finds a message returns at once.
use aneasyos.Base.{
  ℕ, zero, suc, ◌+◌, ◌<◌, ◌≡◌, refl, sym, subst, ◌∙◌, ◌≢◌, ◌⊎◌, inl, inr, true, false, Option, none,
  some, List, [], ◌∷◌, ◌++◌, arith, ◌==◌, ◌!=◌, ==_refl, ==_ne, ◌&&◌, ◌||◌, lt→ltb,
}
use aneasyos.Base.Lists.{length, length-append}
use aneasyos.Base.Indices.{IsIn, Distinct, append-IsIn_right, length-le-bound, Below}
use aneasyos.Base.Flags.{has_flag}
use aneasyos.Kernel.{Kernel, Proc, Message, done, nr_all, any, interrupt, no_task, sending}
use aneasyos.Ipc.{va2la, walk, not_null, is_some_of, assert_idle}
use aneasyos.Ipc.Chain.{Chain, nexts, last_of}
use aneasyos.Ipc.Invariant.{IpcInv}
use aneasyos.Ipc.Send.{IsIdle}
use aneasyos.Ipc.Receive.{search, choose, unlink, take, msg_recevie}
use aneasyos.Ipc.Receive.Taken.{taken, unlinked, before, taken-Taken}
use aneasyos.Ipc.Receive.Take.{removed, taken-IpcInv, from_sends, queue-Distinct, queue-Chain}

-- A process that is blocked in a send and does nothing else.
pub record IsParked (p : Proc) : Type 0 where
  pub parked_flags : p.p_flags ≡ sending
  pub parked_recvfrom : p.p_recvfrom ≡ no_task
  pub parked_msg : p.p_msg ≢ 0

abbrev before_from : Option ℕ → List ℕ → Option ℕ
before_from prev [] = prev
before_from prev (x ∷ xs) = before_from (some x) xs

before_from-last_of : (x : ℕ) (xs : List ℕ) → before_from (some x) xs ≡ some (last_of x xs)
before_from-last_of x [] = refl
before_from-last_of x (y ∷ xs) = before_from-last_of y xs

before-before_from : (xs : List ℕ) → before_from none xs ≡ before xs
before-before_from [] = refl
before-before_from (x ∷ xs) = before_from-last_of x xs

-- With fuel for the queue the search ends at `src`.
search-before_from :
    (fuel : ℕ) (k : Kernel) (src : ℕ) (prev p : Option ℕ) (xs ys : List ℕ)
    → Chain (nexts k) p (xs ++ (src ∷ ys))
    → Distinct (xs ++ (src ∷ ys))
    → has_flag (k.proc_table src).p_flags sending ≡ true
    → length xs + 1 < fuel
    → search fuel k src prev p ≡ done (before_from prev xs)
unfolding search
search-before_from zero k src prev p xs ys c d s l = absurd (omega arith)
search-before_from (suc fuel) k src prev p [] ys (e, c) d s l = rw (e, search, s, ==_refl src)
search-before_from (suc fuel) k src prev p (x ∷ xs) ys (e, c) d s l =
    let miss : (x == src) ≡ false = ==_ne x src (λ eq. d.0 (
      subst (λ z. IsIn z (xs ++ (src ∷ ys))) (sym eq)
        (append-IsIn_right src xs (src ∷ ys) (inl refl)))) in
    let rest = search-before_from fuel k src (some x) (nexts k x) xs ys c d.1 s (omega arith) in
    rw (e, search, s, miss) rest

unlink-unlinked :
    (k : Kernel) (who from : ℕ) (xs ys : List ℕ)
    → Chain (nexts k) (k.proc_table who).q_sending (xs ++ (from ∷ ys))
    → Distinct (xs ++ (from ∷ ys))
    → unlink k who (before xs) from ≡ done (unlinked k who (before xs) from)
unfolding unlink
unlink-unlinked k who from [] ys (e, c) d =
    let first : is_some_of (k.proc_table who).q_sending from ≡ true = rw e (==_refl from) in
    rw first
unlink-unlinked k who from (x ∷ xs) ys (e, c) d =
    let other : is_some_of (k.proc_table who).q_sending from ≡ false = rw e (
      ==_ne x from (λ eq. d.0 (
        subst (λ z. IsIn z (xs ++ (from ∷ ys))) (sym eq)
          (append-IsIn_right from xs (from ∷ ys) (inl refl))))) in
    rw other

unlinked_fields :
    (k : Kernel) (who from j : ℕ) (prev : Option ℕ)
    → (((unlinked k who prev from).proc_table j).ldt_rw ≡ (k.proc_table j).ldt_rw)
      × (((unlinked k who prev from).proc_table j).p_msg ≡ (k.proc_table j).p_msg)
unlinked_fields k who from j none = (ground arith, ground arith)
unlinked_fields k who from j (some p) = (ground arith, ground arith)

pub va2la_same :
    (k k' : Kernel) (pid va : ℕ)
    → (k'.proc_table pid).ldt_rw ≡ (k.proc_table pid).ldt_rw
    → va2la k' pid va ≡ va2la k pid va
unfolding va2la
va2la_same k k' pid va e = rw e

take-taken :
    (k : Kernel) (who from m to source : ℕ) (xs ys : List ℕ)
    → Chain (nexts k) (k.proc_table who).q_sending (xs ++ (from ∷ ys))
    → Distinct (xs ++ (from ∷ ys))
    → m ≢ 0
    → (k.proc_table from).p_msg ≢ 0
    → va2la k who m ≡ done to
    → va2la k from (k.proc_table from).p_msg ≡ done source
    → take k who (before xs) from m ≡ done (taken k who (before xs) from to source)
unfolding take taken
take-taken k who from m to source xs ys c d given msg a b =
    let u = unlinked k who (before xs) from in
    let is_given : (m != 0) ≡ true = ground arith in
    let same = unlinked_fields k who from from (before xs) in
    let has_message : ((k.proc_table from).p_msg != 0) ≡ true = ground arith in
    let a' : va2la u who m ≡ done to =
      va2la_same k u who m (unlinked_fields k who from who (before xs)).0 ∙ a in
    let b' : va2la u from (k.proc_table from).p_msg ≡ done source =
      va2la_same k u from (k.proc_table from).p_msg same.0 ∙ b in
    rw (unlink-unlinked k who from xs ys c d, is_given, same.1, has_message, a', b')

module _ (k : Kernel) (q : ℕ → List ℕ) (who from m to source : ℕ) (xs ys : List ℕ) (stack : Message)
    (v : IpcInv k q) (who_in : who < nr_all) (differ : who ≢ from) (given : m ≢ 0)
    (idle : IsIdle (k.proc_table who)) (parked : IsParked (k.proc_table from))
    (queue : q who ≡ xs ++ (from ∷ ys)) (a : va2la k who m ≡ done to)
    (b : va2la k from (k.proc_table from).p_msg ≡ done source) where
  chain : Chain (nexts k) (k.proc_table who).q_sending (xs ++ (from ∷ ys))
  chain = queue-Chain k q v who from to source xs ys who_in queue

  distinct : Distinct (xs ++ (from ∷ ys))
  distinct = queue-Distinct k q v who from to source xs ys who_in queue

  sends :
      (from < nr_all)
      × (has_flag (k.proc_table from).p_flags sending ≡ true)
      × ((k.proc_table from).p_sendto ≡ who)
  sends = from_sends k q v who from to source xs ys who_in queue

  has_message : ((k.proc_table from).p_msg != 0) ≡ true
  has_message = ground (arith, parked.parked_msg)

  idle_assert : assert_idle (k.proc_table who) ≡ done tt
  idle_assert = rw (idle.idle_flags, idle.idle_msg, idle.idle_recvfrom, idle.idle_sendto)

  short : length xs + 1 < walk
  short = omega (
    arith,
    length-append xs (from ∷ ys),
    length-le-bound nr_all (xs ++ (from ∷ ys)) distinct (
        below (xs ++ (from ∷ ys))
          (λ x i. (v.queues.members who x who_in (subst (IsIn x) (sym queue) i)).0)),
  )
    where
      below : (zs : List ℕ) → ((x : ℕ) → IsIn x zs → x < nr_all) → Below nr_all zs
      below [] h = tt
      below (z ∷ zs) h = (h z (inl refl), below zs (λ y i. h y (inr i)))

  queue_some : not_null (k.proc_table who).q_sending ≡ true
  queue_some = from_chain xs chain
    where
      from_chain :
          (zs : List ℕ)
          → Chain (nexts k) (k.proc_table who).q_sending (zs ++ (from ∷ ys))
          → not_null (k.proc_table who).q_sending ≡ true
      from_chain [] c = rw c.0
      from_chain (z ∷ zs) c = rw c.0

  choose_from : choose k who from ≡ done (some (before xs, from))
  unfolding choose
  choose_from =
      let not_any : (from == any) ≡ false = ground (arith, sends.0) in
      let not_int : (from == interrupt) ≡ false = ground (arith, sends.0) in
      rw (
        not_any,
        not_int,
        lt→ltb from nr_all sends.0,
        sends.1,
        sends.2,
        ==_refl who,
        queue_some,
        search-before_from walk k from none (k.proc_table who).q_sending xs ys chain distinct
            sends.1 short,
        idle_assert,
        parked.parked_flags,
        has_message,
        parked.parked_recvfrom,
        before-before_from xs,
      )

  receive_from : msg_recevie k who from m stack ≡ done (taken k who (before xs) from to source)
  unfolding msg_recevie
  receive_from =
      let differs : (who != from) ≡ true = ground arith in
      let no_int : ((k.proc_table who).has_int_msg != 0) && (from == any || from == interrupt)
          ≡ false =
        ground (arith, sends.0) in
      rw (differs, no_int, choose_from)
        (take-taken k who from m to source xs ys chain distinct given parked.parked_msg a b)

  choose-any : xs ≡ [] → choose k who any ≡ done (some (before xs, from))
  unfolding choose
  choose-any e =
      let c : Chain (nexts k) (k.proc_table who).q_sending (from ∷ ys) =
        subst (λ z. Chain (nexts k) (k.proc_table who).q_sending (z ++ (from ∷ ys))) e chain in
      rw (c.0, idle_assert, has_message, parked.parked_recvfrom, sends.2, ==_refl who, e)

  receive_any :
      xs ≡ []
      → (k.proc_table who).has_int_msg ≡ 0
      → msg_recevie k who any m stack ≡ done (taken k who (before xs) from to source)
  unfolding msg_recevie
  receive_any e calm =
      let differs : (who != any) ≡ true = ground arith in
      rw (differs, calm, choose-any e)
        (take-taken k who from m to source xs ys chain distinct given parked.parked_msg a b)

-- The receive asks for the sender itself; or for anybody, where the sender is the first of the
-- queue and no interrupt is pending.
abbrev pub Asks : Kernel → ℕ → ℕ → ℕ → List ℕ → Type 0
Asks k who src from xs =
    (src ≡ from) ⊎ ((src ≡ any) × (xs ≡ []) × ((k.proc_table who).has_int_msg ≡ 0))

-- Where the messages are in order, the receiver neither sends nor receives and has a buffer,
-- another process is blocked in sending to it, at any place of its queue, the receive asks for
-- that process, or for anybody where that process is the first and no interrupt is pending, and
-- the two addresses can be translated, `msg_recevie` returns at once. The message is copied to
-- the receiver, which still neither sends nor receives, the sender is ready and out of the queue,
-- the others are queued in the same order, and the messages are still in order.
pub receive_takes :
    (k : Kernel) (q : ℕ → List ℕ) (who src from m to source : ℕ) (xs ys : List ℕ) (stack : Message)
    → IpcInv k q
    → who < nr_all
    → who ≢ from
    → m ≢ 0
    → IsIdle (k.proc_table who)
    → IsParked (k.proc_table from)
    → q who ≡ xs ++ (from ∷ ys)
    → Asks k who src from xs
    → va2la k who m ≡ done to
    → va2la k from (k.proc_table from).p_msg ≡ done source
    → (k' : Kernel) × (msg_recevie k who src m stack ≡ done k')
      × (k'.memory to ≡ k.memory source)
      × IsIdle (k'.proc_table from)
      × IsIdle (k'.proc_table who)
      × IpcInv k' (removed q who xs ys)
receive_takes k q who src from m to source xs ys stack v h differ given idle parked queue asks a b =
    let facts = taken-Taken k who from to source (before xs) in
    (
      taken k who (before xs) from to source,
      elim asks [
        | inl e ↦
            subst (λ z. msg_recevie k who z m stack ≡ done (taken k who (before xs) from to source))
              (sym e)
              (receive_from k q who from m to source xs ys stack v h differ given idle parked queue
                a b)
        | inr (e, first, calm) ↦
            subst (λ z. msg_recevie k who z m stack ≡ done (taken k who (before xs) from to source))
              (sym e)
              (receive_any k q who from m to source xs ys stack v h differ given idle parked queue a
                b first calm)
      ],
      facts.copied,
      record {
        idle_flags = ground (arith, facts.flags_at from, parked.parked_flags);
        idle_msg = ground (arith, facts.msg_at from);
        idle_recvfrom = facts.recvfrom_at from ∙ parked.parked_recvfrom;
        idle_sendto = ground (arith, facts.sendto_at from);
      },
      record {
        idle_flags = ground (arith, facts.flags_at who, idle.idle_flags);
        idle_msg = ground (arith, facts.msg_at who, idle.idle_msg);
        idle_recvfrom = facts.recvfrom_at who ∙ idle.idle_recvfrom;
        idle_sendto = ground (arith, facts.sendto_at who, idle.idle_sendto);
      },
      taken-IpcInv k q v who from to source xs ys h queue differ,
    )
