-- ===== src/Mm.antt =====
-- src/mm/forkexit.c and src/mm/main.c: the memory manager, which forks, ends and waits for
-- processes. `mm_msg` is an argument, and a result where a routine answers in it. The texts that
-- are printed, and the image of a process that `phys_copy` copies, are left out.
pub mod Memory
pub mod Exit
pub mod Waiting
pub mod Fork
mod Tests
use aneasyos.Base.{
  ℕ, zero, suc, ◌+◌, ◌-◌, ◌*◌, ◌/◌, Option, none, some, Bool, true, false, ◌&&◌, List, ltb, leb,
  ◌==◌, ◌!=◌, if◌then◌else◌, update,
}
use aneasyos.Base.Word.{add32, sub32, mul32, slt, sle}
use aneasyos.Base.Flags.{has_flag, set_flag, reset_flag}
use aneasyos.Pm.{Descriptor, init_descriptor, fork_base, text_limit, data_limit, seg_size}
use aneasyos.Kernel.{
  Kernel, Proc, Message, Outcome, done, assert_failed, panicked, spinning, ◌>>=◌, ◌>>◌, assert,
  in_table, nr_all, nr_tasks, nr_native_procs, no_task, receiving, waiting, hanging, free_slot,
  doing_fork, set_proc,
}

abbrev pub procs_base : ℕ
procs_base = 0xa0_0000

abbrev pub proc_image_size : ℕ
proc_image_size = 0x20_0000

abbrev pub init : ℕ
init = 5

abbrev pub msg_wait : ℕ
msg_wait = 17

abbrev pub msg_fork : ℕ
msg_fork = 18

abbrev pub msg_exit : ℕ
msg_exit = 19

abbrev pub syscall_ret : ℕ
syscall_ret = 20

-- The memory sizes and addresses are ints.
unfoldable pub alloc_mem : ℕ → ℕ → ℕ → Outcome ℕ
alloc_mem memory_size pid memsize =
    let base = add32 procs_base (mul32 (sub32 pid (nr_tasks + nr_native_procs)) proc_image_size) in
    do
      assert (leb (nr_tasks + nr_native_procs) pid)
      if slt proc_image_size memsize
          then panicked
          else (if sle memory_size (add32 base memsize) then panicked else done base)

-- The first free entry from `i` on, or `nr_all`.
unfoldable pub find_free : ℕ → ℕ → Kernel → ℕ
find_free zero i k = i
find_free (suc n) i k =
    let rest = find_free n (i + 1) k in if (k.proc_table i).p_flags == free_slot then i else rest

-- The attributes of the child's code segment and of its data segment.
abbrev pub child_code : ℕ
child_code = 0xc0f8

abbrev pub child_data : ℕ
child_data = 0xc0f2

abbrev pub child_segment : ℕ → ℕ → Descriptor
child_segment base attribute = init_descriptor base ((proc_image_size - 1) / 0x1000) attribute

-- The asserts of `do_fork` on the segments of the parent.
abbrev pub one_segment : Descriptor → Descriptor → Bool
one_segment c rw_seg =
    (fork_base c == fork_base rw_seg)
    && ((text_limit c == data_limit rw_seg)
        && (seg_size (text_limit c) c == seg_size (text_limit c) rw_seg))

-- The child as `do_fork` makes it out of its parent; `name` is the text that `sprintf` writes.
unfoldable pub forked : Proc → Proc → ℕ → ℕ → ℕ → List ℕ → Proc
forked parent slot pid child_pid base name = record parent {
  ldt_sel = slot.ldt_sel;
  p_parent = pid;
  pid = child_pid;
  p_name = name;
  ldt_c = child_segment base child_code;
  ldt_rw = child_segment base child_data;
}

-- The first child of `pid` that hangs, from entry `i` on, and whether there is any child.
unfoldable pub find_child : ℕ → ℕ → ℕ → Kernel → Bool → Option ℕ × Bool
find_child zero i pid k children = (none, children)
find_child (suc n) i pid k children =
    let rest = λ (b : Bool). find_child n (i + 1) pid k b in
    if (k.proc_table i).p_parent == pid
    then (if has_flag (k.proc_table i).p_flags hanging then (some i, true) else rest true)
    else rest children

-- `send` is a whole `send_recv(SEND, dest, &m)` of MM, with what the other processes do until it
-- has returned; `stack` is what uninitialised messages hold.
module _ (send : Kernel → ℕ → Message → Outcome Kernel) (stack : Message) where
  unfoldable pub cleanup : Kernel → ℕ → Outcome Kernel
  cleanup k p = do
    sent ←
        send k (k.proc_table p).p_parent
          (record stack { type = syscall_ret; m3i2 = p; m3i1 = (k.proc_table p).exit_status })
    done (set_proc p (record (sent.proc_table p) { p_flags = free_slot }) sent)

  -- `do_fork`: the answer is the return value and the PID in `mm_msg`; -1 is the largest u32. The
  -- loop that waits for the parent to be RECEIVING does not end where nothing else runs.
  unfoldable pub do_fork : ℕ → Kernel → Message → List ℕ → Outcome (Kernel × ℕ × Message)
  do_fork memory_size k mm_msg name =
      let child_pid = find_free nr_all 0 k in
      let pid = mm_msg.source in
      let parent = k.proc_table pid in
      do
        assert (leb (nr_tasks + nr_native_procs) child_pid)
        if child_pid == nr_all
            then done (k, 0xffff_ffff, mm_msg)
            else (if has_flag parent.p_flags receiving
                then (do
                  assert (one_segment parent.ldt_c parent.ldt_rw)
                  base ←
                      alloc_mem memory_size child_pid
                        (seg_size (text_limit parent.ldt_c) parent.ldt_c)
                  let child = forked parent (k.proc_table child_pid) pid child_pid base name
                  sent ←
                      send (set_proc child_pid child k) child_pid
                        (record stack { type = syscall_ret; m3i1 = 0; m3i2 = 0 })
                  done (sent, 0, record mm_msg { m3i2 = child_pid }))
                else spinning)

  -- The last loop of `do_exit`: the children of `pid` become children of INIT.
  unfoldable pub adopt : ℕ → ℕ → ℕ → Kernel → Outcome Kernel
  adopt zero i pid k = done k
  adopt (suc n) i pid k =
      let child = record (k.proc_table i) { p_parent = init } in
      let moved = set_proc i child k in
      let i_waits = record (moved.proc_table init) {
        p_flags = reset_flag (moved.proc_table init).p_flags waiting;
      } in
      let next = λ (k' : Kernel). adopt n (i + 1) pid k' in
      if (k.proc_table i).p_parent == pid
      then (if has_flag (moved.proc_table init).p_flags waiting && has_flag child.p_flags hanging
          then (do cleaned ← cleanup (set_proc init i_waits moved) i; assert false; next cleaned)
          else next moved)
      else next k

  -- `do_exit` between storing the status and its last loop.
  unfoldable pub leave : Kernel → ℕ → Outcome Kernel
  leave k pid =
      let p = k.proc_table pid in
      let parent = k.proc_table p.p_parent in
      if has_flag parent.p_flags waiting
      then cleanup
          (set_proc p.p_parent (record parent { p_flags = reset_flag parent.p_flags waiting }) k)
          pid
      else done (set_proc pid (record p { p_flags = set_flag p.p_flags hanging }) k)

  unfoldable pub do_exit : Kernel → ℕ → ℕ → Outcome Kernel
  do_exit k pid status =
      let k' = set_proc pid (record (k.proc_table pid) { exit_status = status }) k in
      do
        in_table (ltb (k.proc_table pid).p_parent nr_all)
        left ← leave k' pid
        adopt nr_all 0 pid left

  -- `do_wait` behind its loop.
  abbrev pub answer_wait : Kernel → ℕ → Option ℕ × Bool → Outcome Kernel
  answer_wait k pid (some i, children) = cleanup k i
  answer_wait k pid (none, true) = done (
      set_proc pid
        (record (k.proc_table pid) { p_flags = set_flag (k.proc_table pid).p_flags waiting }) k)
  answer_wait k pid (none, false) = send k pid (record stack { type = syscall_ret; m3i2 = no_task })

  unfoldable pub do_wait : Kernel → ℕ → Outcome Kernel
  do_wait k pid = answer_wait k pid (find_child nr_all 0 pid k false)

  -- One message of the loop of `task_mm`.
  unfoldable pub serve : ℕ → Kernel → Message → List ℕ → Outcome (Kernel × Message)
  serve memory_size k mm_msg name =
      let src = mm_msg.source in
      if mm_msg.type == msg_fork
      then (do
        (k', ret, answer) ← do_fork memory_size k mm_msg name
        let reply = record answer { type = syscall_ret; m3i1 = ret }
        k'' ← send k' src reply
        done (k'', reply))
      else (if mm_msg.type == msg_exit
          then (do k' ← do_exit k src mm_msg.m3i1; done (k', mm_msg))
          else (if mm_msg.type == msg_wait
              then (do k' ← do_wait k src; done (k', mm_msg))
              else assert_failed))
