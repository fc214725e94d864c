-- ===== src/Mm/Memory.antt =====
-- src/mm/main.c: the memory of the processes.
use aneasyos.Base.{ℕ, ◌+◌, ◌-◌, ◌*◌, ◌<◌, ◌≤◌, ◌≡◌, arith}
use aneasyos.Base.Word.{half_word}
use aneasyos.Kernel.{done, nr_all, nr_tasks, nr_native_procs}
use aneasyos.Mm.{procs_base, proc_image_size, alloc_mem}

-- The place of the process `pid`.
abbrev pub place : ℕ → ℕ
place pid = procs_base + (pid - (nr_tasks + nr_native_procs)) * proc_image_size

-- What `alloc_mem` grants: the place of a process that is forked, of at most PROC_IMAGE_SIZE_DEFAULT
-- bytes, inside the memory.
pub alloc_mem_granted :
    (memory_size pid memsize : ℕ) {base : ℕ}
    → memory_size < half_word
    → pid < nr_all
    → memsize < half_word
    → alloc_mem memory_size pid memsize ≡ done base
    → (nr_tasks + nr_native_procs ≤ pid)
      × (base ≡ place pid)
      × (memsize ≤ proc_image_size)
      × (base + memsize < memory_size)
unfolding alloc_mem
alloc_mem_granted memory_size pid memsize hm hp hs e = ground arith

-- Two processes that are granted memory get places that do not overlap, the process with the
-- smaller number below the other, both inside the memory, for sizes and numbers that are ints.
pub alloc_mem_apart :
    (memory_size p q size_p size_q : ℕ) {base_p base_q : ℕ}
    → memory_size < half_word
    → p < q
    → q < nr_all
    → size_p < half_word
    → size_q < half_word
    → alloc_mem memory_size p size_p ≡ done base_p
    → alloc_mem memory_size q size_q ≡ done base_q
    → (procs_base ≤ base_p) × (base_p + size_p ≤ base_q) × (base_q + size_q < memory_size)
alloc_mem_apart memory_size p q size_p size_q hm hpq hq hp hs e f =
    let a = alloc_mem_granted memory_size p size_p hm (omega arith) hp e in
    let b = alloc_mem_granted memory_size q size_q hm hq hs f in omega (arith, a, b)
