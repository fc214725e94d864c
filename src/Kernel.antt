-- ===== src/Kernel.antt =====
-- src/include/process.h, src/include/type.h and src/kernel/global.c: the process table and the global state of
-- the kernel, and what a kernel routine can come to.
-- A pointer to an entry of `proc_table` is its index, a null pointer `none`; `p_msg` keeps its
-- address, 0 for null. The saved registers of a process are left out.
pub mod Samples
use aneasyos.Base.{ℕ, Option, List, Bool, true, false, update}
use aneasyos.Pm.{Descriptor}

-- MESSAGE, with the member `m3` of its union, which the accessor macros use.
pub record Message : Type 0 where
  pub source : ℕ
  pub type : ℕ
  pub m3i1 : ℕ
  pub m3i2 : ℕ
  pub m3i3 : ℕ
  pub m3i4 : ℕ
  pub m3l1 : ℕ
  pub m3l2 : ℕ
  pub m3p1 : ℕ
  pub m3p2 : ℕ

-- PROCESS
pub record Proc : Type 0 where
  pub ldt_sel : ℕ
  pub ldt_c : Descriptor
  pub ldt_rw : Descriptor
  pub ticks : ℕ
  pub wake_up_ticks : ℕ
  pub priority : ℕ
  pub pid : ℕ
  pub p_name : List ℕ
  pub p_flags : ℕ
  pub p_msg : ℕ
  pub p_recvfrom : ℕ
  pub p_sendto : ℕ
  pub has_int_msg : ℕ
  pub q_sending : Option ℕ
  pub next_sending : Option ℕ
  pub p_parent : ℕ
  pub exit_status : ℕ
  pub runtime : ℕ
  pub nr_tty : ℕ

-- The globals of the kernel, and the messages that lie in memory, by their linear address.
pub record Kernel : Type 0 where
  pub proc_table : ℕ → Proc
  pub p_proc_ready : ℕ
  pub ticks : ℕ
  pub kernel_ticks : ℕ
  pub unix_time : ℕ
  pub k_reenter : ℕ
  pub memory : ℕ → Message

abbrev pub nr_tasks : ℕ
nr_tasks = 5

abbrev pub nr_native_procs : ℕ
nr_native_procs = 4

-- NR_TASKS + NR_PROCS, the length of `proc_table`
abbrev pub nr_all : ℕ
nr_all = 37

abbrev pub any : ℕ
any = 47

abbrev pub no_task : ℕ
no_task = 57

-- -10
abbrev pub interrupt : ℕ
interrupt = 0xffff_fff6

abbrev pub sending : ℕ
sending = 2

abbrev pub receiving : ℕ
receiving = 4

abbrev pub waiting : ℕ
waiting = 8

abbrev pub hanging : ℕ
hanging = 0x10

abbrev pub free_slot : ℕ
free_slot = 0x20

abbrev pub doing_fork : ℕ
doing_fork = 0x40

abbrev pub proc_sleep : ℕ
proc_sleep = 0x80

-- How a routine can end: with a value, in a failed `assert` or a `panic`, outside `proc_table`, or
-- never, in a loop whose condition nothing changes.
pub data Outcome {ℓ} (A : Type ℓ) : Type ℓ where
  done : A → Outcome A
  assert_failed : Outcome A
  panicked : Outcome A
  bad_access : Outcome A
  spinning : Outcome A

infixl 5 ◌>>=◌ ◌>>◌
abbrev pub ◌>>=◌ {ℓ κ} : {A : Type ℓ} {B : Type κ} → Outcome A → (A → Outcome B) → Outcome B
done a >>= f = f a
assert_failed >>= f = assert_failed
panicked >>= f = panicked
bad_access >>= f = bad_access
spinning >>= f = spinning

abbrev pub ◌>>◌ {ℓ} : {B : Type ℓ} → Outcome (Unit {0}) → Outcome B → Outcome B
m >> k = m >>= λ _. k

abbrev pub assert : Bool → Outcome (Unit {0})
assert true = done tt
assert false = assert_failed

-- An access through a pointer `proc_table + i`.
abbrev pub in_table : Bool → Outcome (Unit {0})
in_table true = done tt
in_table false = bad_access

abbrev pub set_proc : ℕ → Proc → Kernel → Kernel
set_proc i p k = record k { proc_table = update k.proc_table i p }
