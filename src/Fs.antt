-- ===== src/Fs.antt =====
-- src/fs/fat.c and src/include/fat.h: the FAT16 file system.
-- The sectors are read by `hd_read_bytes`, which the definitions take as `read_bytes`, a function of
-- the drive, the sector, the number of bytes, the memory and the address in it; Fs.Disk gives it the
-- driver of src/kernel/hd.c. Lines that only print are left out.
pub mod Disk
pub mod Chain
pub mod File
pub mod Volume
pub mod Names
pub mod Find
pub mod Dirs
mod Tests
use aneasyos.Base.{
  ℕ, zero, suc, ◌+◌, ◌-◌, ◌*◌, ◌/◌, ◌%◌, Bool, true, false, ltb, leb, ◌==◌, ◌!=◌, if◌then◌else◌,
}
use aneasyos.Base.Word.{word, add32, sub32, mul32}
use aneasyos.Text.{Memory}
use aneasyos.Text.Buffers.{copy_in}
use aneasyos.Hd.{Result, returns, no_fuel, ◌>>=◌, ◌>>◌, check, sector_size}

abbrev pub ReadBytes : Type 0
ReadBytes = ℕ → ℕ → ℕ → Memory → ℕ → Result Memory

-- The part of VBR_16 that the code uses, without the names.
pub record Vbr16 : Type 0 where
  pub sector_size : ℕ
  pub cluster_size : ℕ
  pub reserved_sectors : ℕ
  pub nfat : ℕ
  pub max_root_dir : ℕ
  pub n_sectors : ℕ
  pub fat_sector_size : ℕ
  pub n_sectors32 : ℕ

-- FS_FAT16; `pvbr` points to `vbr`. `fat` gives the 191 * 256 entries of the array and behind them what
-- the memory holds there.
pub record FsFat16 : Type 0 where
  pub vbr : Vbr16
  pub root_start_sector : ℕ
  pub root_sectors : ℕ
  pub fat_start_sector : ℕ
  pub data_start_sector : ℕ
  pub fat : ℕ → ℕ

-- DirectoryEntry, without the reserved bytes
pub record DirectoryEntry : Type 0 where
  pub short_file_name : ℕ → ℕ
  pub file_attr : ℕ
  pub mtime : ℕ
  pub mdata : ℕ
  pub start_cluster : ℕ
  pub file_size : ℕ

abbrev pub attr_directory : ℕ
attr_directory = 0x10

-- CLUSTER_SIZE and ONE_CLUSTER_BYTES
abbrev pub sectors_per_cluster : ℕ
sectors_per_cluster = 4

abbrev pub one_cluster_bytes : ℕ
one_cluster_bytes = 2048

unfoldable pub get_next_cluster : ℕ → (ℕ → ℕ) → ℕ
get_next_cluster cur_cluster fat = if leb 0xfff8 (fat cur_cluster) then 0 else fat cur_cluster

-- The loop of `get_offest_cluster`
unfoldable pub skip_clusters : ℕ → ℕ → (ℕ → ℕ) → ℕ
skip_clusters zero cur_cluster fat = cur_cluster
skip_clusters (suc n_cluster) cur_cluster fat =
    skip_clusters n_cluster (get_next_cluster cur_cluster fat) fat

unfoldable pub get_offest_cluster : ℕ → ℕ → (ℕ → ℕ) → ℕ
unfolding skip_clusters
get_offest_cluster start_cluster offest fat =
    skip_clusters (offest / one_cluster_bytes) start_cluster fat

-- The first sector of a cluster, on u32
unfoldable pub cluster_lba : FsFat16 → ℕ → ℕ
cluster_lba fs_fat cluster =
    add32 fs_fat.data_start_sector (mul32 (sub32 cluster 2) sectors_per_cluster)

module _ (read_bytes : ReadBytes) (stack : Memory) where
  -- `stack` is what the local buffer holds before. The value, which the source never returns, is left
  -- out.
  unfoldable pub read_one_cluster : Memory → ℕ → ℕ → ℕ → ℕ → FsFat16 → Result Memory
  read_one_cluster mem buf cluster start_offest size fs_fat =
      let size' = if size == 0 then one_cluster_bytes - start_offest else size in
      do
        check (leb (add32 start_offest size) one_cluster_bytes)
        hd_buf ← read_bytes 0 (cluster_lba fs_fat cluster) one_cluster_bytes stack 0
        returns (copy_in mem buf (λ i. hd_buf (start_offest + i)) size')

module _ (read_bytes : ReadBytes) where
  -- The loop `while(size)`, with `cur_cluster` in place of `lba`; the value is the memory and
  -- `has_read_bytes`.
  unfoldable pub read_clusters : ℕ → Memory → ℕ → ℕ → ℕ → ℕ → FsFat16 → Result (Memory × ℕ)
  read_clusters zero mem buf size cur_cluster has_read_bytes fs_fat = no_fuel
  read_clusters (suc fuel) mem buf size cur_cluster has_read_bytes fs_fat =
      let read_size = if ltb one_cluster_bytes size then one_cluster_bytes else size in
      let next = get_next_cluster cur_cluster fs_fat.fat in
      let has_read = has_read_bytes + read_size in
      let rest = do
        mem' ← read_bytes 0 (cluster_lba fs_fat cur_cluster) read_size mem buf
        (if next == 0
            then returns (mem', has_read)
            else read_clusters fuel mem' (buf + read_size) (size - read_size) next has_read fs_fat)
      in if size == 0 then returns (mem, has_read_bytes) else rest

  unfoldable pub read_cluster_chain : Memory → ℕ → ℕ → ℕ → FsFat16 → Result (Memory × ℕ)
  read_cluster_chain mem buf size start_cluster fs_fat = do
    check (sectors_per_cluster == fs_fat.vbr.cluster_size)
    check (sector_size == fs_fat.vbr.sector_size)
    read_clusters (suc size) mem buf size start_cluster 0 fs_fat
