-- ===== src/Fs/Chain.antt =====
-- src/fs/fat.c: the clusters of a file, and reading along them.
pub mod Read
pub mod Ends
pub mod Clusters
use aneasyos.Base.{
  ℕ, zero, suc, ◌+◌, ◌-◌, ◌*◌, ◌/◌, ◌%◌, ◌<◌, ◌≤◌, ◌≡◌, ◌≢◌, sym, List, [], ◌∷◌, arith,
}
use aneasyos.Base.Lists.{length, get_or, drop}
use aneasyos.Hd.Ata.{bytes_from}
use aneasyos.Fs.{
  FsFat16, get_next_cluster, skip_clusters, get_offest_cluster, cluster_lba, one_cluster_bytes,
}
use aneasyos.Fs.Disk.{HardDisk}

-- From a cluster on, the FAT leads through these clusters to an end mark.
abbrev pub IsChain : (ℕ → ℕ) → ℕ → List ℕ → Type 0
IsChain fat c [] = ⊥
IsChain fat c (x ∷ []) = (x ≡ c) × (get_next_cluster c fat ≡ 0)
IsChain fat c (x ∷ (y ∷ cs)) =
    (x ≡ c) × (get_next_cluster c fat ≢ 0) × IsChain fat (get_next_cluster c fat) (y ∷ cs)

-- The byte at an offset of the file that the clusters hold.
abbrev pub file_byte : HardDisk → FsFat16 → List ℕ → ℕ → ℕ
file_byte disk fs_fat cs i =
    bytes_from disk.sector (cluster_lba fs_fat (get_or cs (i / one_cluster_bytes) 0) % 0x1000_0000)
      (i % one_cluster_bytes)

-- `get_offest_cluster` finds the cluster of an offset, and the rest of the chain from it on.
pub skip_clusters-IsChain :
    (fat : ℕ → ℕ) (n c : ℕ) (cs : List ℕ)
    → IsChain fat c cs
    → n < length cs
    → (skip_clusters n c fat ≡ get_or cs n 0) × IsChain fat (skip_clusters n c fat) (drop n cs)
unfolding skip_clusters
skip_clusters-IsChain fat n c [] chain h = absurd chain
skip_clusters-IsChain fat zero c (x ∷ []) chain h = (sym chain.0, chain)
skip_clusters-IsChain fat (suc n) c (x ∷ []) chain h = absurd (omega (arith, h))
skip_clusters-IsChain fat zero c (x ∷ (y ∷ cs)) chain h = (sym chain.0, chain)
skip_clusters-IsChain fat (suc n) c (x ∷ (y ∷ cs)) (e, more, chain) h =
    skip_clusters-IsChain fat n (get_next_cluster c fat) (y ∷ cs) chain (omega (arith, h))
