-- ===== src/Boot/Paging.antt =====
-- src/boot/setup_c.c: the page tables map each address to itself.
use aneasyos.Base.{
  ℕ, zero, suc, ◌+◌, ◌-◌, ◌*◌, ◌/◌, ◌%◌, ◌<◌, ◌≤◌, ◌≡◌, ◌∙◌, ℕ_discrete, Option, none, some, true,
  false, ◌&&◌, arith, ltb, leb, ◌==◌, if◌then◌else◌, update, update_ne,
}
use aneasyos.Base.Word.{word}
use aneasyos.Boot.{user_page, PageEntry, fill_entries, page_table_cnt, setup_paging}

-- The walk of the processor: from the directory at the entry number `dir` to the table of the page
-- `n`, and to its frame.
abbrev pub frame_of : (ℕ → PageEntry) → ℕ → ℕ → Option ℕ
frame_of pages dir n =
    let pde = pages (dir + n / 1024) in
    let pte = pages (pde.base * 1024 + n % 1024) in
    if pde.present && pte.present then some pte.base else none

-- The loop fills its entries with successive bases, and no others.
fill_entries_at :
    (n at base : ℕ) (pages : ℕ → PageEntry) (a : ℕ)
    → base < 0x10_0000
    → fill_entries n at (user_page true base) pages a ≡ (
        if leb at a && ltb a (at + n)
        then user_page true ((base + (a - at)) % 0x10_0000)
        else pages a)
unfolding fill_entries
fill_entries_at zero at base pages a h = ground arith
fill_entries_at (suc n) at base pages a h =
    let next = (base + 1) % 0x10_0000 in
    let entry = user_page true base in
    fill_entries_at n (at + 1) next (update pages at entry) a (omega arith)
    ∙ elim (ℕ_discrete a at) [
      | yes e ↦
          let same : (base + (a - at)) % 0x10_0000 ≡ base = omega (arith, e, h) in
          rw same (ground (arith, e))
      | no ne ↦ ground (arith, ne)
    ]

module _ (dir mem_size : ℕ) (pages : ℕ → PageEntry) (aligned : dir % 1024 ≡ 0)
    (room : dir + 1024 + 0x10_0000 ≤ 0x4000_0000) (small : mem_size < word) where
  abbrev cnt : ℕ
  cnt = page_table_cnt mem_size

  tables_fit : cnt ≤ 1024
  unfolding page_table_cnt
  tables_fit = ground (arith, small)

  directory_entry :
      (i : ℕ)
      → i < cnt
      → setup_paging dir mem_size pages (dir + i) ≡ user_page true ((dir + 1024) / 1024 + i)
  unfolding setup_paging
  directory_entry i h =
      let base = (dir + 1024) / 1024 % 0x10_0000 in
      let pages1 = fill_entries cnt dir (user_page true base) pages in
      let fits = tables_fit in
      let at : (base + (dir + i - dir)) % 0x10_0000 ≡ (dir + 1024) / 1024 + i =
        omega (arith, room, h, fits) in
      update_ne (fill_entries (cnt * 1024) (dir + 1024) (user_page true 0) pages1) (dir + 1024)
        (user_page false 0) (dir + i) (omega (arith, h, fits))
      ∙ fill_entries_at (cnt * 1024) (dir + 1024) 0 pages1 (dir + i) (omega arith)
      ∙ ground (arith, h, fits, fill_entries_at cnt dir base pages (dir + i) (omega arith), at)

  table_entry :
      (n : ℕ)
      → n < cnt * 1024
      → setup_paging dir mem_size pages (dir + 1024 + n)
        ≡ (if n == 0 then user_page false 0 else user_page true n)
  unfolding setup_paging
  table_entry n h =
      let base = (dir + 1024) / 1024 % 0x10_0000 in
      let pages1 = fill_entries cnt dir (user_page true base) pages in
      let at : (0 + (dir + 1024 + n - (dir + 1024))) % 0x10_0000 ≡ n =
        omega (arith, h, tables_fit) in
      ground (
        arith,
        h,
        fill_entries_at (cnt * 1024) (dir + 1024) 0 pages1 (dir + 1024 + n) (omega arith),
        at,
      )

  -- After `setup_paging`, with the directory on a page boundary and the page tables in the address
  -- space, the walk of the processor takes each page of the memory to the frame of the same number,
  -- all but the first page, which is not present.
  pub setup_paging-identity :
      (n : ℕ)
      → n * 4096 < mem_size
      → frame_of (setup_paging dir mem_size pages) dir n ≡ (if n == 0 then none else some n)
  setup_paging-identity n h =
      let inside : n < cnt * 1024 = unfold page_table_cnt in ground (arith, h) in
      let number : ((dir + 1024) / 1024 + n / 1024) * 1024 + n % 1024 ≡ dir + 1024 + n =
        omega (arith, aligned) in
      rw (directory_entry (n / 1024) (omega (arith, inside)), number, table_entry n inside)
        (ground arith)
