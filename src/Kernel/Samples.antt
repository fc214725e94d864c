-- ===== src/Kernel/Samples.antt =====
-- Small states of the kernel for the tests of the modules over it.
use aneasyos.Base.{ℕ, none, [], ltb, if◌then◌else◌}
use aneasyos.Pm.{Descriptor}
use aneasyos.Kernel.{Kernel, Proc, Message, free_slot, no_task}

abbrev pub flat : Descriptor
flat = record {
  limit_low = 0xffff;
  base_low = 0;
  base_mid = 0;
  attr1 = 0x92;
  limit_high_attr2 = 0xcf;
  base_high = 0;
}

abbrev pub blank_message : Message
blank_message = record {
  source = 0;
  type = 0;
  m3i1 = 0;
  m3i2 = 0;
  m3i3 = 0;
  m3i4 = 0;
  m3l1 = 0;
  m3l2 = 0;
  m3p1 = 0;
  m3p2 = 0;
}

-- A ready process with 15 ticks of 15.
abbrev pub ready_proc : ℕ → Proc
ready_proc i = record {
  ldt_sel = 0x28;
  ldt_c = flat;
  ldt_rw = flat;
  ticks = 15;
  wake_up_ticks = 0;
  priority = 15;
  pid = i;
  p_name = [];
  p_flags = 0;
  p_msg = 0;
  p_recvfrom = no_task;
  p_sendto = no_task;
  has_int_msg = 0;
  q_sending = none;
  next_sending = none;
  p_parent = no_task;
  exit_status = 0;
  runtime = 0;
  nr_tty = 0;
}

-- The tasks and the native processes are ready, the other entries are free.
abbrev pub booted : Kernel
booted = record {
  proc_table = λ i. if ltb i 9 then ready_proc i else record (ready_proc i) { p_flags = free_slot };
  p_proc_ready = 0;
  ticks = 199;
  kernel_ticks = 0;
  unix_time = 1000;
  k_reenter = 0;
  memory = λ a. blank_message;
}
