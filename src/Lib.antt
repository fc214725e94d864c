-- ===== src/Lib.antt =====
-- A verification of EasyOS, a small operating system for 32-bit x86: a boot loader, a scheduler,
-- messages between processes, terminals on the screen and the keyboard, a memory manager that forks
-- processes, a hard disk driver, a reader of FAT16 volumes, and formatted printing.
--
-- The parts, and the files that model them:
-- - Kernel (Kernel.antt): the process table and the other globals that the kernel shares, from
--   src/include/process.h, src/include/type.h and src/include/global.h, and `Outcome`, which says
--   how a routine can end: with a value, in a failed `assert`, in a `panic`, at an index outside the
--   process table, or never.
-- - Pm: the segment descriptors and the gates of src/include/pm.h, as src/kernel/main.c and
--   src/kernel/traps.c make them and src/kernel/sched.c and src/mm/forkexit.c read them.
-- - Sched: `schedule` of src/kernel/sched.c, `clock_handler` of src/kernel/clock.c, and sleeping and
--   the time of src/kernel/syscall.c and src/kernel/systask.c.
-- - Ipc: the messages of src/kernel/sched.c. Ipc.antt has `deadlock` and `msg_send`, Ipc/Receive.antt
--   has `msg_recevie`, `inform_int` and `sys_sendrec`. Ipc/Invariant says when the messages are in
--   order; the other children prove what each operation does to that, and Ipc/Rendezvous puts a
--   send and a receive together.
-- - Mm: src/mm/main.c and src/mm/forkexit.c, the memory manager.
-- - Console: src/kernel/console.c, the consoles in the video memory, and `tty_write`.
-- - Tty: the input buffer of a terminal and the line reader of src/kernel/tty.c.
-- - Keyboard: src/kernel/keyboard.c with src/include/keymap.h, and `in_process` of src/kernel/tty.c.
-- - Date: `mktime` of src/lib/libc.c, and the clock chip's part of src/lib/klib.c.
-- - Hd: src/kernel/hd.c with src/include/hd.h: the commands to the drive, `waitfor`,
--   `hd_read_bytes`, `hd_read_mbr`, `hd_identify` and `hd_handler`.
-- - Fs: src/fs/fat.c with src/include/fat.h: `mount` and `read_vbr_16`, the table of clusters,
--   `read_file`, the names, and the search and the listing of directories. Fs/Disk is the interface
--   to the disk.
-- - Start: `init_sched` of src/kernel/sched.c, and `cstart` and the start of `main` of
--   src/kernel/main.c.
-- - Boot: src/boot/setup_c.c: the size of the memory, the page tables, and the loading of the kernel
--   from its ELF image.
-- - Numbers: `i2a`, `u2a` and `vsprintf` of src/kernel/vsprintf.c and `itoa` of src/lib/klib.c.
-- - Text: the strings and blocks of memory of src/lib/string.c and src/lib/klib.c.
-- Base has what the parts share: Boolean tests, lists, 32-bit words, single bits, lists of distinct
-- indices. Fifo is what a bounded queue promises; Ring is the circular buffer that the terminals
-- and the keyboard have in common.
--
-- How they interact: the clock interrupt and every routine that blocks call `schedule`; the disk
-- interrupt calls `inform_int`; the system call for messages calls `sys_sendrec`; the keyboard puts
-- keys into the buffer of a terminal and prints them on its console; the memory manager answers by
-- messages. The file system reads through the interface of Fs/Disk, which the driver of Hd fills; the
-- driver reads sectors into the memory of Text. The start makes the table of processes that the
-- scheduler and the messages work on.
--
-- A function of a model has the name of the C function. A state is a record that goes in and comes
-- out; a pointer into a table is an index, and a null pointer `none`.
--
-- Numbers are natural numbers. A u32 or an int is one below 2 ^ 32, and the operations of Base/Word
-- wrap around and compare as the machine does. A single bit is set, reset and tested by arithmetic
-- (Base/Flags), which agrees with the operators of C on eight bits.
--
-- Fuel: `schedule` gets two rounds, and where they choose nobody no number of rounds does. The walks
-- along the process table and the sending queues get 38 steps; a list of distinct processes has at
-- most 37. The loop of `out_char` that scrolls gets as many rounds as the console has words.
-- The loops over a string get one step more than it has characters. Where a loop waits for an
-- interrupt of the keyboard or the clock, the result is `none`; a wait for an interrupt of the disk
-- that does not come is `hangs`. `waitfor` runs until its time is over. The loop of
-- `hd_read_bytes` gets one round more than it has bytes to read, and so does `read_cluster_chain`.
-- In `read_sub_dirs` the fuel is the depth of the directories. `i2a` gets eleven rounds, and a word
-- has at most ten digits.
--
-- Buffers: a FAT of more than 191 sectors and a short name that does not fit into its 13 bytes are a
-- failed check; a text that does not fit into the 1024 bytes of `vsprintf` has no result.
--
-- Not modelled: saved registers and the switch of processes, ports and interrupt masks, which are
-- assembly; text that is printed for debugging; the bytes of a process image. While the memory
-- manager sends, other processes run: its send is a parameter. Left out, too, are the loops in which
-- `task_sys`, `task_fs` and `task_hd` take messages, which pass a message on to a routine that is
-- modelled; `send_recv` and the calls made of it (fork, wait, exit, read), which fill in a message;
-- `sys_printx`; the set-up of the interrupt gates and of the interrupt controller; `print_dirs` and
-- `print_bpb`, which only print; and the test processes and `Init`
-- of src/kernel/main.c.
pub mod Base
pub mod Pm
pub mod Fifo
pub mod Ring
pub mod Kernel
pub mod Sched
pub mod Ipc
pub mod Mm
pub mod Console
pub mod Tty
pub mod Keyboard
pub mod Date
pub mod Text
pub mod Hd
pub mod Fs
pub mod Start
pub mod Numbers
pub mod Boot
