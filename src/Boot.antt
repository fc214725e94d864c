-- ===== src/Boot.antt =====
-- src/boot/setup_c.c and src/boot/include/elf.h: what the loader does before it enters the kernel.
-- The memory of the loader is bytes by their address, that of the page tables entries by their
-- number. Addresses do not wrap around.
pub mod Paging
pub mod Load
pub mod Ram
mod Tests
use aneasyos.Base.{
  ℕ, zero, suc, ◌+◌, ◌*◌, ◌/◌, ◌%◌, Bool, true, false, ◌&&◌, List, [], ◌∷◌, ◌++◌, map, ltb, ◌==◌,
  ◌!=◌, if◌then◌else◌, update,
}
use aneasyos.Base.Word.{add32}
use aneasyos.Text.{Memory, memcpy}
use aneasyos.Hd.{u16_at, u32_at}
use aneasyos.Numbers.{nibbles, hex_char}

-- The video memory from 0xb8000 on, and `g_dwDispPos`.
pub record Display : Type 0 where
  pub video : ℕ → ℕ
  pub pos : ℕ

-- `(u16)(c | (color<<8))`; a char from 0x80 on is negative.
abbrev pub white_on_black : ℕ → ℕ
white_on_black c = if ltb c 0x80 then c + 0xf00 else c + 0xff00

unfoldable pub disp_str : List ℕ → Display → Display
disp_str [] d = d
disp_str (c ∷ s) d = disp_str s (
    if c == 10
    then record d { pos = (d.pos / 80 + 1) * 80 }
    else record { video = update d.video d.pos (white_on_black c); pos = d.pos + 1 })

-- `DispInt` writes the eight digits over the zeros of "00000000h ".
unfoldable pub disp_int : ℕ → Display → Display
disp_int a d = disp_str (map hex_char (nibbles a) ++ (b'h' ∷ (b' ' ∷ []))) d

-- ARDStruct
pub record Range : Type 0 where
  pub base_low : ℕ
  pub base_high : ℕ
  pub length_low : ℕ
  pub length_high : ℕ
  pub type : ℕ

-- The loop of `DispMemInfo`, without the printing.
unfoldable pub max_mem_size : List Range → ℕ → ℕ
max_mem_size [] size = size
max_mem_size (p ∷ ps) size =
    let mem_size = add32 p.base_low p.length_low in
    max_mem_size ps (if (p.type == 1) && ltb size mem_size then mem_size else size)

-- The fields of PageDirEntry and of PageTableEntry that are set.
pub record PageEntry : Type 0 where
  pub present : Bool
  pub writable : Bool
  pub user : Bool
  pub base : ℕ

abbrev pub user_page : Bool → ℕ → PageEntry
user_page present base = record { present = present; writable = true; user = true; base = base }

-- The entries of a loop of `setup_paging` from the number `at` on, with `n` of them left; the base has
-- 20 bits.
unfoldable pub fill_entries : ℕ → ℕ → PageEntry → (ℕ → PageEntry) → ℕ → PageEntry
fill_entries zero at entry pages = pages
fill_entries (suc n) at entry pages =
    fill_entries n (at + 1) (record entry { base = (entry.base + 1) % 0x10_0000 })
      (update pages at entry)

unfoldable pub page_table_cnt : ℕ → ℕ
page_table_cnt mem_size = mem_size / 0x40_0000 + (if mem_size % 0x40_0000 != 0 then 1 else 0)

-- `dir` is the number of the first entry of the directory, its address divided by 4.
unfoldable pub setup_paging : ℕ → ℕ → (ℕ → PageEntry) → ℕ → PageEntry
setup_paging dir mem_size pages =
    let table = dir + 1024 in
    let cnt = page_table_cnt mem_size in
    let pages1 = fill_entries cnt dir (user_page true (table / 1024 % 0x10_0000)) pages in
    let pages2 = fill_entries (cnt * 1024) table (user_page true 0) pages1 in
    update pages2 table (user_page false 0)

-- The loop of `init_kernel` over the program headers at `phoff`, of 32 bytes each, from the number `i`
-- on, with `n` of them left. `image` is the address of the file.
unfoldable pub load_segments : ℕ → ℕ → ℕ → ℕ → Memory → Memory
load_segments image phoff zero i mem = mem
load_segments image phoff (suc n) i mem =
    let phdr = phoff + i * 32 in
    load_segments image phoff n (suc i)
      (memcpy mem (u32_at mem (phdr + 8)) (image + u32_at mem (phdr + 4)) (u32_at mem (phdr + 16)))

-- The memory in which the kernel starts, and its entry: `e_entry`, `e_phoff` and `e_phnum` stand at
-- 24, 28 and 44.
unfoldable pub init_kernel : ℕ → Memory → Memory × ℕ
init_kernel image mem = (
  load_segments image (u32_at mem (image + 28) + image) (u16_at mem (image + 44)) 0 mem,
  u32_at mem (image + 24),
)
