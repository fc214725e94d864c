-- ===== src/Fs/Volume/Table.antt =====
-- src/fs/fat.c: `read_vbr_16` finds the FAT where the volume has it.
use aneasyos.Base.{
  ℕ, zero, suc, ◌+◌, ◌*◌, ◌/◌, ◌%◌, ◌<◌, ◌≤◌, ◌≡◌, refl, sym, ap, ◌∙◌, true, leb, arith,
}
use aneasyos.Base.Word.{word}
use aneasyos.Text.{Memory}
use aneasyos.Text.Buffers.{patch, patch_none, patch_join, patch_same}
use aneasyos.Hd.{returns, u16_at, part_ent_at, hd_read_mbr}
use aneasyos.Hd.Ata.{bytes_from}
use aneasyos.Fs.Disk.{HardDisk}
use aneasyos.Fs.Volume.{vbr_at, read_fat_sectors, read_fat, layout, mount}

module _ (disk : HardDisk) where
  read_fat_sectors_all :
      (n lba : ℕ) (mem : Memory) (fat : ℕ)
      → lba + n ≤ 0x1000_0000
      → read_fat_sectors disk.read_bytes n lba mem fat
        ≡ returns (patch mem fat (bytes_from disk.sector lba) (512 * n))
  unfolding read_fat_sectors
  read_fat_sectors_all zero lba mem fat h =
      ap returns (sym (patch_none mem fat (bytes_from disk.sector lba)))
  read_fat_sectors_all (suc n) lba mem fat h =
      let bytes = bytes_from disk.sector lba in
      let small : lba % 0x1000_0000 ≡ lba = omega (arith, h) in
      let mem1 = patch mem fat bytes 512 in
      let total : 512 + 512 * n ≡ 512 * suc n = omega arith in
      let others : patch mem1 (fat + 512) (bytes_from disk.sector (lba + 1)) (512 * n)
          ≡ patch mem1 (fat + 512) (λ i. bytes (512 + i)) (512 * n) =
        patch_same mem1 (fat + 512) (bytes_from disk.sector (lba + 1)) (λ i. bytes (512 + i))
          (512 * n)
          (λ i hi.
            let q : lba + (512 + i) / 512 ≡ lba + 1 + i / 512 = omega arith in
            let m : (512 + i) % 512 ≡ i % 512 = omega arith in rw (q, m) refl) in
      rw (disk.reads lba 512 mem fat (omega arith), small)
        (read_fat_sectors_all n (lba + 1) mem1 (fat + 512) (omega (arith, h))
          ∙ ap returns
              (others ∙ patch_join mem fat bytes 512 (512 * n) ∙ ap (patch mem fat bytes) total))

  -- The first sector of the first partition, by the boot record of the disk.
  abbrev pub part_start : ℕ
  part_start = (part_ent_at (disk.sector 0) 0x1be).start_sect

  first_sector :
      (lba : ℕ) (stack : Memory)
      → lba < 0x1000_0000
      → disk.read_bytes 0 lba 512 stack 0 ≡ returns (patch stack 0 (disk.sector lba) 512)
  first_sector lba stack small =
      let at : lba % 0x1000_0000 ≡ lba = omega (arith, small) in
      disk.reads lba 512 stack 0 (omega arith)
      ∙ ap returns (
          patch_same stack 0 (bytes_from disk.sector (lba % 0x1000_0000)) (disk.sector lba) 512
            (λ i h.
              let q : lba % 0x1000_0000 + i / 512 ≡ lba = omega (arith, h, at) in
              let m : i % 512 ≡ i = omega (arith, h) in rw (q, m) refl))

  boot_sector : (f stack : Memory) → vbr_at (patch stack 0 f 512) ≡ vbr_at f
  unfolding vbr_at patch
  boot_sector f stack = refl

  boot_record :
      (f stack : Memory)
      → (part_ent_at (patch stack 0 f 512) (0x1be + 0 * 16)).start_sect
        ≡ (part_ent_at f 0x1be).start_sect
  unfolding part_ent_at patch
  boot_record f stack = refl

  word_inside : (f stack : Memory) (n i : ℕ) → i + 1 < n → u16_at (patch stack 0 f n) i ≡ u16_at f i
  unfolding patch
  word_inside f stack n i h = ground arith

  -- `read_vbr_16` of a disk whose first partition begins at sector 1 returns the parameters of its boot
  -- sector, with a FAT in memory whose entries are those of the FAT of the disk, which begins at
  -- `fat_start_sector`. The FAT lies below sector 2^28 and has at most 191
  -- sectors, the room of the array.
  pub mount-fat :
      (stack : Memory)
      → part_start ≡ 1
      → 1 + (vbr_at (disk.sector 1)).reserved_sectors + (vbr_at (disk.sector 1)).fat_sector_size
        ≤ 0x1000_0000
      → (vbr_at (disk.sector 1)).fat_sector_size ≤ 191
      → (fat : ℕ → ℕ) × (mount disk.read_bytes stack
          ≡ returns (layout 1 (vbr_at (disk.sector 1)) fat))
        × ((c : ℕ)
            → c < 256 * (vbr_at (disk.sector 1)).fat_sector_size
            → fat c
              ≡ u16_at
                  (bytes_from disk.sector (layout 1 (vbr_at (disk.sector 1)) fat).fat_start_sector)
                  (2 * c))
  unfolding mount hd_read_mbr read_fat layout
  mount-fat stack first small room =
      let vbr = vbr_at (disk.sector 1) in
      let lba = 1 + vbr.reserved_sectors in
      let fits : leb vbr.fat_sector_size 191 ≡ true = ground (arith, room) in
      let mem = patch stack 0 (bytes_from disk.sector lba) (512 * vbr.fat_sector_size) in
      let start : lba % word ≡ lba = omega (arith, small) in
      (
        λ c. u16_at mem (2 * c),
        rw
            (
              first_sector 0 stack (omega arith),
              boot_record (disk.sector 0) stack,
              first,
              first_sector 1 stack (omega arith),
              boot_sector (disk.sector 1) stack,
              fits,
              read_fat_sectors_all vbr.fat_sector_size lba stack 0 small,
            )
            refl,
        λ c h. rw start (
            word_inside (bytes_from disk.sector lba) stack (512 * vbr.fat_sector_size) (2 * c)
              (omega (arith, h))),
      )
