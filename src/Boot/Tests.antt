-- ===== src/Boot/Tests.antt =====
-- src/boot/setup_c.c: the theorems at a small file and a small memory.
use aneasyos.Base.{
  ℕ, zero, suc, ◌+◌, ◌<◌, ◌≤◌, ◌≡◌, ◌⊎◌, refl, inr, none, some, List, [], ◌∷◌, arith, ◌==◌,
  if◌then◌else◌, false,
}
use aneasyos.Text.{Memory}
use aneasyos.Hd.{u32_at}
use aneasyos.Boot.{Range, user_page, setup_paging, init_kernel}
use aneasyos.Boot.Paging.{frame_of, setup_paging-identity}
use aneasyos.Boot.Load.{vaddr, offset, filesz, Loadable, init_kernel-Loaded}

setup_paging-identity_example :
    frame_of (setup_paging 0x4_0000 0x80_0000 (λ a. user_page false 0)) 0x4_0000 5
    ≡ (if 5 == 0 then none else some 5)
setup_paging-identity_example =
    setup_paging-identity 0x4_0000 0x80_0000 (λ a. user_page false 0) refl (omega arith)
      (omega arith) 5 (omega arith)

-- 640 KB, and 1 MB of memory from 1 MB on.
abbrev ranges : List Range
ranges =
    record { base_low = 0; base_high = 0; length_low = 0xa_0000; length_high = 0; type = 1 }
    ∷ (record {
      base_low = 0x10_0000;
      base_high = 0;
      length_low = 0x10_0000;
      length_high = 0;
      type = 1;
    }
        ∷ [])

-- A file at 0x1000 with one segment of three bytes, for 0x9000.
abbrev file : Memory
file a =
    if a == 0x101c
    then 52
    else if a == 0x102c
    then 1
    else if a == 0x1038
    then 100
    else if a == 0x103d
    then 0x90
    else if a == 0x1044
    then 3
    else 0

file-Loadable : Loadable 0x1000 0x1034 200 1 file
file-Loadable = record {
  headers = (omega arith, omega arith);
  within = within_file;
  clear = clear_of_file;
  apart = λ i j hi hj ne. absurd (omega (arith, hi, hj, ne));
}
  where
    within_file : (i : ℕ) → i < 1 → offset 0x1000 0x1034 file i + filesz 0x1000 0x1034 file i ≤ 200
    within_file zero h = omega arith
    within_file (suc i) h = absurd (omega (arith, h))

    clear_of_file :
        (i : ℕ)
        → i < 1
        → (vaddr 0x1000 0x1034 file i + filesz 0x1000 0x1034 file i ≤ 0x1000)
          ⊎ (0x1000 + 200 ≤ vaddr 0x1000 0x1034 file i)
    clear_of_file zero h = inr (omega arith)
    clear_of_file (suc i) h = absurd (omega (arith, h))

init_kernel-Loaded_example :
    let mem' = (init_kernel 0x1000 file).0 in
    ((init_kernel 0x1000 file).1 ≡ u32_at file (0x1000 + 24))
    × ((j k : ℕ)
        → j < 1
        → k < filesz 0x1000 0x1034 file j
        → mem' (vaddr 0x1000 0x1034 file j + k) ≡ file (0x1000 + offset 0x1000 0x1034 file j + k))
    × ((a : ℕ)
        → ((j : ℕ)
            → j < 1
            → (a < vaddr 0x1000 0x1034 file j)
              ⊎ (vaddr 0x1000 0x1034 file j + filesz 0x1000 0x1034 file j ≤ a))
        → mem' a ≡ file a)
init_kernel-Loaded_example = init_kernel-Loaded 0x1000 200 file file-Loadable
