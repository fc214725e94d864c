-- ===== src/Ipc.antt =====
-- src/kernel/sched.c: messages between processes. A process is named by its index in
-- `proc_table`, an address is a u32; `src_dest` is an int, a process, ANY or INTERRUPT. Each
-- `assert` of the source is one of the model, in the same place.
pub mod Chain
pub mod Deadlock
pub mod Invariant
pub mod Parked
pub mod Order
pub mod Calm
pub mod Send
pub mod Deliver
pub mod Receive
pub mod Rendezvous
mod Tests
use aneasyos.Base.{
  ℕ, zero, suc, ◌+◌, Option, none, some, Bool, true, false, not, ◌&&◌, ◌||◌, ltb, ◌==◌, ◌!=◌,
  if◌then◌else◌, update,
}
use aneasyos.Base.Word.{add32}
use aneasyos.Base.Flags.{has_flag, set_flag, reset_flag}
use aneasyos.Pm.{seg_linear}
use aneasyos.Kernel.{
  Kernel, Proc, Message, Outcome, done, assert_failed, panicked, bad_access, spinning, ◌>>=◌, ◌>>◌,
  assert, in_table, nr_all, any, no_task, interrupt, sending, receiving, set_proc,
}
use aneasyos.Sched.{schedule}

-- The table is walked with this much fuel.
abbrev pub walk : ℕ
walk = 38

abbrev pub hard_int : ℕ
hard_int = 1

abbrev pub is_some_of : Option ℕ → ℕ → Bool
is_some_of none i = false
is_some_of (some j) i = j == i

abbrev pub not_null : Option ℕ → Bool
not_null none = false
not_null (some i) = true

-- Processes below NR_TASKS + NR_NATIVE_PROCS have flat segments.
unfoldable pub va2la : Kernel → ℕ → ℕ → Outcome ℕ
va2la k pid va =
    let la = add32 (seg_linear (k.proc_table pid).ldt_rw) va in
    if ltb pid 9 then (do assert (la == va); done la) else done la

-- `block(p)`
unfoldable pub block : Kernel → ℕ → Outcome Kernel
block k p = do assert ((k.proc_table p).p_flags != 0); schedule k

-- The loop of `deadlock` that prints the chain it has found.
unfoldable pub print_chain : ℕ → Kernel → ℕ → ℕ → Outcome (Unit {0})
print_chain zero k src p = spinning
print_chain (suc fuel) k src p =
    let next = (k.proc_table p).p_sendto in
    let rest = print_chain fuel k src next in
    do
      in_table (ltb p nr_all)
      assert ((k.proc_table p).p_msg != 0)
      if next == src then done tt else rest

-- The outer loop of `deadlock`, at the process `p`.
unfoldable pub deadlock_walk : ℕ → Kernel → ℕ → ℕ → Outcome Bool
deadlock_walk zero k src p = spinning
deadlock_walk (suc fuel) k src p =
    let proc = k.proc_table p in
    let rest = deadlock_walk fuel k src proc.p_sendto in
    do
      in_table (ltb p nr_all)
      if has_flag proc.p_flags sending
          then (if proc.p_sendto == src then done true else rest)
          else done false

unfoldable pub deadlock : Kernel → ℕ → ℕ → Outcome Bool
deadlock k src dest = do
  found ← deadlock_walk walk k src dest
  if found then (do print_chain walk k src dest; done true) else done false

-- The last process of a sending queue.
unfoldable pub find_last : ℕ → Kernel → ℕ → Outcome ℕ
find_last zero k p = spinning
find_last (suc fuel) k p = elim (k.proc_table p).next_sending [
  | none ↦ done p
  | some n ↦ find_last fuel k n
]

-- `sender` is put behind the sending queue of `dest`.
unfoldable pub enqueue : Kernel → ℕ → ℕ → Outcome Kernel
enqueue k sender dest = elim (k.proc_table dest).q_sending [
  | none ↦ done (set_proc dest (record (k.proc_table dest) { q_sending = some sender }) k)
  | some first ↦ do
    last ← find_last walk k first
    done (set_proc last (record (k.proc_table last) { next_sending = some sender }) k)
]

-- `phys_copy` of one message.
abbrev pub copy_message : Kernel → ℕ → ℕ → Kernel
copy_message k to from = record k { memory = update k.memory to (k.memory from) }

-- The asserts about a process that neither sends nor receives.
abbrev pub assert_idle : Proc → Outcome (Unit {0})
assert_idle p = do
  assert (p.p_flags == 0)
  assert (p.p_msg == 0)
  assert (p.p_recvfrom == no_task)
  assert (p.p_sendto == no_task)

-- `msg_send`, where the destination waits for this message.
unfoldable pub deliver : Kernel → ℕ → ℕ → ℕ → Outcome Kernel
deliver k sender dest m =
    let d = k.proc_table dest in
    do
      assert (d.p_msg != 0)
      assert (m != 0)
      to ← va2la k dest d.p_msg
      from ← va2la k sender m
      let received = record d {
        p_msg = 0;
        p_flags = reset_flag d.p_flags receiving;
        p_recvfrom = no_task;
      }
      assert_idle received
      assert_idle (k.proc_table sender)
      done (set_proc dest received (copy_message k to from))

-- `msg_send`, where it does not: the state in which the sender blocks.
unfoldable pub park : Kernel → ℕ → ℕ → ℕ → Outcome Kernel
park k sender dest m =
    let s = k.proc_table sender in
    do
      assert (set_flag s.p_flags sending == sending)
      linked ←
          enqueue
            (set_proc sender
              (record s { p_flags = set_flag s.p_flags sending; p_sendto = dest; p_msg = m }) k)
            sender dest
      done (set_proc sender (record (linked.proc_table sender) { next_sending = none }) linked)

abbrev pub is_waiting_for : Proc → ℕ → Bool
is_waiting_for d sender =
    has_flag d.p_flags receiving && (d.p_recvfrom == sender || d.p_recvfrom == any)

unfoldable pub msg_send : Kernel → ℕ → ℕ → ℕ → Outcome Kernel
msg_send k sender dest m = do
  assert (sender != dest)
  in_table (ltb dest nr_all)
  found ← deadlock k sender dest
  if found
      then panicked
      else (if is_waiting_for (k.proc_table dest) sender then deliver k sender dest m else (do
        parked ← park k sender dest m
        blocked ← block parked sender
        assert ((blocked.proc_table sender).p_flags == sending)
        assert ((blocked.proc_table sender).p_msg != 0)
        assert ((blocked.proc_table sender).p_recvfrom == no_task)
        assert ((blocked.proc_table sender).p_sendto == dest)
        done blocked))
