-- ===== src/Fs/Chain/Ends.antt =====
-- src/fs/fat.c: `read_cluster_chain` ends whatever the FAT holds.
use aneasyos.Base.{
  ℕ, zero, suc, ◌+◌, ◌-◌, ◌<◌, ◌≤◌, ◌≡◌, refl, ◌∙◌, ◌⊎◌, inl, inr, true, arith, ◌==◌, Bool-cases,
}
use aneasyos.Base.Chunks.{takes}
use aneasyos.Text.{Memory}
use aneasyos.Text.Buffers.{patch, patch_outside}
use aneasyos.Hd.{sector_size, Result, returns}
use aneasyos.Fs.{sectors_per_cluster, FsFat16, get_next_cluster, read_clusters, read_cluster_chain}
use aneasyos.Fs.Disk.{HardDisk}
use aneasyos.Fs.Chain.Read.{cluster_byte, read_clusters_step}

-- The read returned a number of bytes up to `size`, and changed nothing outside of the buffer.
abbrev pub StaysIn : Memory → ℕ → ℕ → ℕ → Result (Memory × ℕ) → Type 0
StaysIn mem buf size has r =
    (mem' : Memory) × (n : ℕ) × (r ≡ returns (mem', n))
    × (has ≤ n)
    × (n ≤ has + size)
    × ((a : ℕ) → (a < buf) ⊎ (buf + size ≤ a) → mem' a ≡ mem a)

module _ (disk : HardDisk) (fs_fat : FsFat16) where
  read_clusters_ends :
      (fuel : ℕ) (mem : Memory) (buf size c has : ℕ)
      → size < fuel
      → StaysIn mem buf size has (read_clusters disk.read_bytes fuel mem buf size c has fs_fat)
  read_clusters_ends zero mem buf size c has h = absurd (omega (arith, h))
  read_clusters_ends (suc fuel) mem buf zero c has h =
      (mem, has, unfold read_clusters in refl, omega arith, omega arith, λ a out. refl)
  read_clusters_ends (suc fuel) mem buf (suc size) c has h =
      let (s, size_s) = takes 2048 (suc size) in
      let step =
        read_clusters_step disk fs_fat fuel mem buf (suc size) c has s (omega arith) size_s in
      let mem1 = patch mem buf (cluster_byte disk fs_fat c) s in
      let first : (a : ℕ) → (a < buf) ⊎ (buf + suc size ≤ a) → mem1 a ≡ mem a = λ a out.
        patch_outside mem buf (cluster_byte disk fs_fat c) s a (ground (arith, out, size_s)) in
      let next = get_next_cluster c fs_fat.fat in
      elim (Bool-cases (next == 0)) [
        | inl e ↦ (mem1, has + s, step ∙ rw e refl, omega arith, ground (arith, size_s), first)
        | inr e ↦
            let (mem', n, run, lo, hi, same) =
              read_clusters_ends fuel mem1 (buf + s) (suc size - s) next (has + s)
                (ground (arith, size_s, h)) in
            (
              mem',
              n,
              step ∙ rw e run,
              omega (arith, lo),
              ground (arith, hi, size_s),
              λ a out. same a (ground (arith, out, size_s)) ∙ first a out,
            )
      ]

  -- Whatever the FAT holds, a chain that comes back to itself included, `read_cluster_chain` of any
  -- size returns on a volume with sectors of 512 bytes and clusters of four sectors. Its value is
  -- no more than the size, and no byte outside of the buffer of that size changes.
  pub read_cluster_chain_ends :
      (mem : Memory) (buf size start_cluster : ℕ)
      → fs_fat.vbr.cluster_size ≡ 4
      → fs_fat.vbr.sector_size ≡ 512
      → StaysIn mem buf size 0
          (read_cluster_chain disk.read_bytes mem buf size start_cluster fs_fat)
  unfolding read_cluster_chain
  read_cluster_chain_ends mem buf size start_cluster four bytes =
      let clusters : (sectors_per_cluster == fs_fat.vbr.cluster_size) ≡ true = ground arith in
      let sectors : (sector_size == fs_fat.vbr.sector_size) ≡ true = ground arith in
      rw (clusters, sectors)
        (read_clusters_ends (suc size) mem buf size start_cluster 0 (omega arith))
