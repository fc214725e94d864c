-- ===== src/Ipc/Receive.antt =====
-- src/kernel/sched.c: `msg_recevie`, `inform_int` and `sys_sendrec`.
pub mod Taken
pub mod Take
pub mod Meet
pub mod Block
pub mod Wait
pub mod Interrupt
use aneasyos.Base.{
  ℕ, zero, suc, Option, none, some, Bool, true, false, ◌&&◌, ◌||◌, ltb, ◌==◌, ◌!=◌, if◌then◌else◌,
  update,
}
use aneasyos.Base.Flags.{has_flag, set_flag, reset_flag}
use aneasyos.Kernel.{
  Kernel, Proc, Message, Outcome, done, assert_failed, panicked, bad_access, spinning, ◌>>=◌, ◌>>◌,
  assert, in_table, nr_all, any, no_task, interrupt, sending, receiving, set_proc,
}
use aneasyos.Ipc.{
  walk, hard_int, is_some_of, not_null, va2la, block, copy_message, assert_idle, msg_send,
}

abbrev pub function_send : ℕ
function_send = 1

abbrev pub function_receive : ℕ
function_receive = 2

-- The search for `src` along the sending queue from `p` on: the process before it, or the last of
-- the queue where it does not occur. `prev` is the process before `p`.
unfoldable pub search : ℕ → Kernel → ℕ → Option ℕ → Option ℕ → Outcome (Option ℕ)
search zero k src prev p = spinning
search (suc fuel) k src prev none = done prev
search (suc fuel) k src prev (some p) =
    let rest = search fuel k src (some p) (k.proc_table p).next_sending in
    do assert (has_flag (k.proc_table src).p_flags sending); if p == src then done prev else rest

-- The choice of the process to receive from, with the process before it in the queue; `none`:
-- `copyok` is 0. The tests of `p_flags | SENDING`, which hold of any flags, are left out.
unfoldable pub choose : Kernel → ℕ → ℕ → Outcome (Option (Option ℕ × ℕ))
choose k who src =
    let r = k.proc_table who in
    let s = k.proc_table src in
    if src == any
    then elim r.q_sending [
      | none ↦ done none
      | some first ↦ do
        assert_idle r
        assert ((k.proc_table first).p_msg != 0)
        assert ((k.proc_table first).p_recvfrom == no_task)
        assert ((k.proc_table first).p_sendto == who)
        done (some (none, first))
    ]
    else (if src == interrupt then done none else (do
      in_table (ltb src nr_all)
      if has_flag s.p_flags sending && s.p_sendto == who
          then (do
            assert (not_null r.q_sending)
            prev ← search walk k src none r.q_sending
            assert_idle r
            assert (s.p_flags == sending)
            assert (s.p_msg != 0)
            assert (s.p_recvfrom == no_task)
            assert (s.p_sendto == who)
            done (some (prev, src)))
          else done none))

abbrev pub clear_next : ℕ → Kernel → Kernel
clear_next from k = set_proc from (record (k.proc_table from) { next_sending = none }) k

-- `from` leaves the sending queue of `who`.
unfoldable pub unlink : Kernel → ℕ → Option ℕ → ℕ → Outcome Kernel
unlink k who prev from =
    let next = (k.proc_table from).next_sending in
    if is_some_of (k.proc_table who).q_sending from
    then elim prev [
      | none ↦
          done (clear_next from (set_proc who (record (k.proc_table who) { q_sending = next }) k))
      | some p ↦ assert_failed
    ]
    else elim prev [
      | none ↦ assert_failed
      | some p ↦
          done (clear_next from (set_proc p (record (k.proc_table p) { next_sending = next }) k))
    ]

-- A sender whose message has been taken.
abbrev pub released : Proc → Proc
released p = record p { p_msg = 0; p_sendto = no_task; p_flags = reset_flag p.p_flags sending }

-- `msg_recevie`, where `copyok` is 1.
unfoldable pub take : Kernel → ℕ → Option ℕ → ℕ → ℕ → Outcome Kernel
take k who prev from m = do
  unlinked ← unlink k who prev from
  assert (m != 0)
  assert ((unlinked.proc_table from).p_msg != 0)
  to ← va2la unlinked who m
  source ← va2la unlinked from (unlinked.proc_table from).p_msg
  done (set_proc from (released (unlinked.proc_table from)) (copy_message unlinked to source))

-- `msg_recevie`, where `copyok` is 0: the state in which the receiver blocks, and the rest.
unfoldable pub begin_wait : Kernel → ℕ → ℕ → ℕ → Kernel
begin_wait k who src m =
    let r = k.proc_table who in
    set_proc who (record r { p_flags = set_flag r.p_flags receiving; p_msg = m; p_recvfrom = src })
      k

unfoldable pub await : Kernel → ℕ → ℕ → ℕ → Outcome Kernel
unfolding begin_wait
await k who src m = do
  blocked ← block (begin_wait k who src m) who
  assert ((blocked.proc_table who).p_flags == receiving)
  assert ((blocked.proc_table who).p_msg != 0)
  assert ((blocked.proc_table who).p_sendto == no_task)
  assert ((blocked.proc_table who).p_recvfrom != no_task)
  assert ((blocked.proc_table who).has_int_msg == 0)
  done blocked

-- The message that tells of an interrupt is made on the stack; what `reset_msg` leaves there of
-- the stack's content is `stack`.
unfoldable pub receive_int : Kernel → ℕ → ℕ → Message → Outcome Kernel
receive_int k who m stack =
    let r = record (k.proc_table who) { has_int_msg = 0 } in
    do
      assert (m != 0)
      to ← va2la k who m
      let k' = record k {
        memory = update k.memory to (record stack { source = interrupt; type = hard_int });
      }
      assert (r.p_flags == 0)
      assert (r.p_msg == 0)
      assert (r.p_sendto == no_task)
      done (set_proc who r k')

unfoldable pub msg_recevie : Kernel → ℕ → ℕ → ℕ → Message → Outcome Kernel
msg_recevie k who src m stack = do
  assert (who != src)
  if ((k.proc_table who).has_int_msg != 0) && (src == any || src == interrupt)
      then receive_int k who m stack
      else (do
        chosen ← choose k who src
        elim chosen [ none ↦ await k who src m | some (prev, from) ↦ take k who prev from m ])

-- The address in `p_msg` is used as it is.
unfoldable pub inform_int : Kernel → ℕ → Outcome Kernel
inform_int k task_nr =
    let p = k.proc_table task_nr in
    let told = record (k.memory p.p_msg) { source = interrupt; type = hard_int } in
    let woken = record p {
      p_msg = 0;
      has_int_msg = 0;
      p_flags = reset_flag p.p_flags receiving;
      p_recvfrom = no_task;
    } in
    if has_flag p.p_flags receiving && (p.p_recvfrom == interrupt || p.p_recvfrom == any)
    then (do
      assert_idle woken
      done (set_proc task_nr woken (record k { memory = update k.memory p.p_msg told })))
    else done (set_proc task_nr (record p { has_int_msg = 1 }) k)

-- `sys_sendrec`, called for the process `caller`.
unfoldable pub sys_sendrec : Kernel → ℕ → ℕ → ℕ → ℕ → Message → Outcome Kernel
sys_sendrec k function src_dest m caller stack = do
  assert (k.k_reenter == 0)
  assert (ltb src_dest nr_all || src_dest == any || src_dest == interrupt)
  at ← va2la k caller m
  let k' = record k { memory = update k.memory at (record (k.memory at) { source = caller }) }
  assert (caller != src_dest)
  if function == function_send
      then msg_send k' caller src_dest m
      else (if function == function_receive
          then msg_recevie k' caller src_dest m stack
          else panicked)
