-- ===== src/Fs/File.antt =====
-- src/fs/fat.c: the reading of a part of a file, the second half of `read_file`.
pub mod Reads
use aneasyos.Base.{ℕ, ◌+◌, ◌-◌, ◌%◌, leb, ltb, ◌==◌, if◌then◌else◌}
use aneasyos.Base.Word.{add32, sub32}
use aneasyos.Text.{Memory}
use aneasyos.Hd.{Result, returns, ◌>>=◌, ◌>>◌, check}
use aneasyos.Fs.{
  ReadBytes, FsFat16, DirectoryEntry, one_cluster_bytes, get_next_cluster, get_offest_cluster,
  read_one_cluster, read_cluster_chain,
}

-- The number of bytes to read: with 0 for the rest of the file.
abbrev pub wanted : DirectoryEntry → ℕ → ℕ → ℕ
wanted entry offest count = if count == 0 then sub32 entry.file_size offest else count

-- How much of it comes from the first cluster.
abbrev pub first_size : ℕ → ℕ → ℕ
first_size offest count =
    let offest_in_cluster = offest % one_cluster_bytes in
    if ltb one_cluster_bytes (add32 count offest_in_cluster)
    then one_cluster_bytes - offest_in_cluster
    else count

module _ (read_bytes : ReadBytes) (stack : Memory) where
  -- The clusters after the first one; `size` bytes are read before.
  unfoldable pub read_others : Memory → ℕ → ℕ → ℕ → ℕ → FsFat16 → Result (Memory × ℕ)
  read_others mem buf size count next_cluster fs_fat =
      if next_cluster == 0 then returns (mem, size) else do
        r ← read_cluster_chain read_bytes mem (buf + size) (count - size) next_cluster fs_fat
        returns (r.0, size + r.1)

  -- `read_file` of the entry that is found.
  unfoldable pub read_entry : DirectoryEntry → Memory → ℕ → ℕ → ℕ → FsFat16 → Result (Memory × ℕ)
  read_entry entry mem buf offest count fs_fat =
      let count' = wanted entry offest count in
      let offest_cluster = get_offest_cluster entry.start_cluster offest fs_fat.fat in
      let size = first_size offest count' in
      do
        check (leb (add32 offest count') entry.file_size)
        mem' ←
            read_one_cluster read_bytes stack mem buf offest_cluster (offest % one_cluster_bytes)
              size fs_fat
        read_others mem' buf size count' (get_next_cluster offest_cluster fs_fat.fat) fs_fat
