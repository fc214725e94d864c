-- ===== src/Fs/Volume.antt =====
-- src/fs/fat.c: the areas of the volume, the FAT in memory, and the first half of `read_vbr_16`.
pub mod Table
use aneasyos.Base.{ℕ, zero, suc, ◌+◌, ◌-◌, ◌*◌, ◌/◌, ◌%◌, leb, ◌==◌, if◌then◌else◌}
use aneasyos.Base.Word.{add32}
use aneasyos.Text.{Memory}
use aneasyos.Hd.{
  Result, returns, ◌>>=◌, ◌>>◌, check, u16_at, u32_at, sector_size, PartEnt, hd_read_mbr,
}
use aneasyos.Fs.{ReadBytes, Vbr16, FsFat16}

-- The boot sector as a VBR_16
unfoldable pub vbr_at : Memory → Vbr16
vbr_at buf = record {
  sector_size = u16_at buf 11;
  cluster_size = buf 13;
  reserved_sectors = u16_at buf 14;
  nfat = buf 16;
  max_root_dir = u16_at buf 17;
  n_sectors = u16_at buf 19;
  fat_sector_size = u16_at buf 22;
  n_sectors32 = u32_at buf 32;
}

-- The loop of `read_fat`, with `n` sectors left
unfoldable pub read_fat_sectors : ReadBytes → ℕ → ℕ → Memory → ℕ → Result Memory
read_fat_sectors read_bytes zero lba mem fat = returns mem
read_fat_sectors read_bytes (suc n) lba mem fat = do
  mem' ← read_bytes 0 lba sector_size mem fat
  read_fat_sectors read_bytes n (lba + 1) mem' (fat + sector_size)

-- FAT_ENTRY_NUM entries of two bytes are 191 sectors.
abbrev pub fat_room : ℕ
fat_room = 191

-- `partition_offest_sectors` is 1. A write behind the array counts as a failed check.
unfoldable pub read_fat : ReadBytes → Memory → ℕ → Vbr16 → Result Memory
read_fat read_bytes mem fat vbr = do
  check (leb vbr.fat_sector_size fat_room)
  read_fat_sectors read_bytes vbr.fat_sector_size (1 + vbr.reserved_sectors) mem fat

unfoldable pub layout : ℕ → Vbr16 → (ℕ → ℕ) → FsFat16
layout part_start_sec vbr fat =
    let fat_start = add32 part_start_sec vbr.reserved_sectors in
    let root_start = add32 fat_start (vbr.fat_sector_size * vbr.nfat) in
    let root_dir_sectors = (vbr.max_root_dir * 32 + (sector_size - 1)) / sector_size in
    record {
      vbr = vbr;
      root_start_sector = root_start;
      root_sectors = root_dir_sectors;
      fat_start_sector = fat_start;
      data_start_sector = add32 root_start root_dir_sectors;
      fat = fat;
    }

-- `read_vbr_16` until the FAT is read; the entries of `fs_fat->fat` are 16 bit words.
unfoldable pub mount : ReadBytes → Memory → Result FsFat16
mount read_bytes stack = do
  partition_table ← hd_read_mbr read_bytes stack 0
  let part_start_sec = (partition_table 0).start_sect
  buf ← read_bytes 0 part_start_sec sector_size stack 0
  let vbr = vbr_at buf
  fat ← read_fat read_bytes stack 0 vbr
  returns (layout part_start_sec vbr (λ c. u16_at fat (2 * c)))

-- The numbers that `print_vbr` prints, of a volume that has room for its areas.
pub record VbrNumbers : Type 0 where
  pub total_sectors : ℕ
  pub fat_size : ℕ
  pub root_entry_count : ℕ
  pub root_dir_sectors : ℕ
  pub first_data_sector : ℕ
  pub first_fat_sector : ℕ
  pub data_sectors : ℕ
  pub total_clusters : ℕ

unfoldable pub print_vbr : Vbr16 → VbrNumbers
print_vbr vbr =
    let total = if vbr.n_sectors == 0 then vbr.n_sectors32 else vbr.n_sectors in
    let root = (vbr.max_root_dir * 32 + (vbr.sector_size - 1)) / vbr.sector_size in
    let fats = vbr.nfat * vbr.fat_sector_size in
    let data_sectors = total - vbr.reserved_sectors - fats - root in
    record {
      total_sectors = total;
      fat_size = vbr.fat_sector_size;
      root_entry_count = vbr.max_root_dir;
      root_dir_sectors = root;
      first_data_sector = 1 + vbr.reserved_sectors + fats + root;
      first_fat_sector = 1 + vbr.reserved_sectors;
      data_sectors = data_sectors;
      total_clusters = data_sectors / vbr.cluster_size;
    }
