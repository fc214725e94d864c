-- ===== src/Fs/Chain/Clusters.antt =====
-- src/fs/fat.c: a file on a FAT16 volume, as the format has it, and `read_cluster_chain` along it.
use aneasyos.Base.{
  ℕ, zero, suc, ◌+◌, ◌-◌, ◌*◌, ◌/◌, ◌%◌, ◌<◌, ◌≤◌, ◌≡◌, refl, sym, subst, ap, ◌∙◌, ◌≢◌, List, [],
  ◌∷◌, arith,
}
use aneasyos.Base.Lists.{length, get_or}
use aneasyos.Text.{Memory}
use aneasyos.Text.Buffers.{patch, patch_same}
use aneasyos.Hd.{returns}
use aneasyos.Fs.{FsFat16, get_next_cluster, cluster_lba, read_cluster_chain}
use aneasyos.Fs.Disk.{HardDisk}
use aneasyos.Fs.Chain.{IsChain, file_byte}
use aneasyos.Fs.Chain.Read.{readable, read_cluster_chain-IsChain}

-- The clusters are numbered from 2 on, the numbers from 0xfff8 on are end marks. A cluster has four
-- sectors, the first one begins with the data area, and the area lies below sector 2^28.
abbrev pub IsCluster : FsFat16 → ℕ → Type 0
IsCluster fs_fat c = (2 ≤ c) × (c < 0xfff8) × (fs_fat.data_start_sector + (c - 2) * 4 < 0x1000_0000)

-- A file begins at the cluster `c` and has these clusters: the entry of each one in the FAT is the
-- next one, that of the last one is an end mark.
abbrev pub FileClusters : FsFat16 → ℕ → List ℕ → Type 0
FileClusters fs_fat c [] = ⊥
FileClusters fs_fat c (x ∷ []) = (x ≡ c) × IsCluster fs_fat x × (0xfff8 ≤ fs_fat.fat x)
FileClusters fs_fat c (x ∷ (y ∷ cs)) =
    (x ≡ c) × IsCluster fs_fat x × FileClusters fs_fat (fs_fat.fat x) (y ∷ cs)

-- The byte of the file at an offset, in sectors of 512 bytes.
abbrev pub stored_byte : HardDisk → FsFat16 → List ℕ → ℕ → ℕ
stored_byte disk fs_fat cs i =
    disk.sector (fs_fat.data_start_sector + (get_or cs (i / 2048) 0 - 2) * 4 + i % 2048 / 512)
      (i % 512)

cluster_lba-IsCluster :
    (fs_fat : FsFat16) (c : ℕ)
    → IsCluster fs_fat c
    → cluster_lba fs_fat c % 0x1000_0000 ≡ fs_fat.data_start_sector + (c - 2) * 4
unfolding cluster_lba
cluster_lba-IsCluster fs_fat c (lo, hi, fits) = omega (arith, lo, hi, fits)

first_IsCluster :
    (fs_fat : FsFat16) (c x : ℕ) (cs : List ℕ)
    → FileClusters fs_fat c (x ∷ cs)
    → (x ≡ c) × IsCluster fs_fat x
first_IsCluster fs_fat c x [] (e, inside, last) = (e, inside)
first_IsCluster fs_fat c x (y ∷ cs) (e, inside, chain) = (e, inside)

next_inside :
    (fs_fat : FsFat16) (c y : ℕ) (cs : List ℕ)
    → FileClusters fs_fat (fs_fat.fat c) (y ∷ cs)
    → (get_next_cluster c fs_fat.fat ≡ fs_fat.fat c) × (get_next_cluster c fs_fat.fat ≢ 0)
unfolding get_next_cluster
next_inside fs_fat c y cs chain =
    let (e, (lo, hi, fits)) = first_IsCluster fs_fat (fs_fat.fat c) y cs chain in
    (ground (arith, e, lo, hi), ground (arith, e, lo, hi))

pub FileClusters-IsChain :
    (fs_fat : FsFat16) (c : ℕ) (cs : List ℕ) → FileClusters fs_fat c cs → IsChain fs_fat.fat c cs
FileClusters-IsChain fs_fat c [] chain = absurd chain
FileClusters-IsChain fs_fat c (x ∷ []) (e, inside, last) =
    (e, unfold get_next_cluster in rw (sym e) (ground (arith, last)))
FileClusters-IsChain fs_fat c (x ∷ (y ∷ cs)) (e, inside, chain) =
    let chain' = subst (λ (z : ℕ). FileClusters fs_fat (fs_fat.fat z) (y ∷ cs)) e chain in
    let (same, ne) = next_inside fs_fat c y cs chain' in
    (e, ne, rw same (FileClusters-IsChain fs_fat (fs_fat.fat c) (y ∷ cs) chain'))

clusters_IsCluster :
    (fs_fat : FsFat16) (c k : ℕ) (cs : List ℕ)
    → FileClusters fs_fat c cs
    → k < length cs
    → IsCluster fs_fat (get_or cs k 0)
clusters_IsCluster fs_fat c k [] chain h = absurd chain
clusters_IsCluster fs_fat c zero (x ∷ cs) chain h = (first_IsCluster fs_fat c x cs chain).1
clusters_IsCluster fs_fat c (suc k) (x ∷ []) chain h = absurd (omega (arith, h))
clusters_IsCluster fs_fat c (suc k) (x ∷ (y ∷ cs)) (e, inside, chain) h =
    clusters_IsCluster fs_fat (fs_fat.fat x) k (y ∷ cs) chain (omega (arith, h))

pub file_byte-stored :
    (disk : HardDisk) (fs_fat : FsFat16) (c i : ℕ) (cs : List ℕ)
    → FileClusters fs_fat c cs
    → i < 2048 * length cs
    → file_byte disk fs_fat cs i ≡ stored_byte disk fs_fat cs i
file_byte-stored disk fs_fat c i cs chain h =
    let inside = clusters_IsCluster fs_fat c (i / 2048) cs chain (omega (arith, h)) in
    let at = cluster_lba-IsCluster fs_fat (get_or cs (i / 2048) 0) inside in
    let byte : i % 2048 % 512 ≡ i % 512 = omega arith in rw (at, byte) refl

-- `read_cluster_chain` along the clusters of a file returns, for any size: at the buffer then stand as
-- many bytes of the file as are asked for or, when the clusters hold fewer, all that they hold, the
-- value is their number, and the rest of the memory is as it was. The volume has sectors of 512 bytes
-- and clusters of four sectors.
pub read_cluster_chain-reads :
    (disk : HardDisk) (fs_fat : FsFat16) (mem : Memory) (buf size start_cluster : ℕ) (cs : List ℕ)
    → fs_fat.vbr.cluster_size ≡ 4
    → fs_fat.vbr.sector_size ≡ 512
    → FileClusters fs_fat start_cluster cs
    → read_cluster_chain disk.read_bytes mem buf size start_cluster fs_fat
      ≡ returns (
        patch mem buf (stored_byte disk fs_fat cs) (readable size (length cs)),
        readable size (length cs),
      )
read_cluster_chain-reads disk fs_fat mem buf size start_cluster cs four bytes chain =
    read_cluster_chain-IsChain disk fs_fat mem buf size start_cluster cs four bytes
      (FileClusters-IsChain fs_fat start_cluster cs chain)
    ∙ ap (λ (m : Memory). returns (m, readable size (length cs)))
        (patch_same mem buf (file_byte disk fs_fat cs) (stored_byte disk fs_fat cs)
          (readable size (length cs))
          (λ i h. file_byte-stored disk fs_fat start_cluster i cs chain (ground (arith, h))))
