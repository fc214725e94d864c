-- ===== src/Fs/Chain/Read.antt =====
-- src/fs/fat.c: `read_cluster_chain` along the clusters that `get_next_cluster` leads through.
use aneasyos.Base.{
  ℕ, zero, suc, ◌+◌, ◌-◌, ◌*◌, ◌/◌, ◌%◌, ◌<◌, ◌≤◌, ◌≡◌, refl, sym, ap, ◌∙◌, List, [], ◌∷◌, arith,
  true, false, ltb, ◌==◌, if◌then◌else◌,
}
use aneasyos.Base.Chunks.{Takes, takes}
use aneasyos.Base.Lists.{length}
use aneasyos.Text.{Memory}
use aneasyos.Text.Buffers.{patch, patch_none, patch_join, patch_same}
use aneasyos.Hd.{sector_size, Result, returns}
use aneasyos.Hd.Ata.{bytes_from}
use aneasyos.Fs.{
  sectors_per_cluster, FsFat16, get_next_cluster, cluster_lba, read_clusters, read_cluster_chain,
}
use aneasyos.Fs.Disk.{HardDisk}
use aneasyos.Fs.Chain.{IsChain, file_byte}

-- The number of bytes that can be read: what is asked for, but no more than the clusters hold.
abbrev pub readable : ℕ → ℕ → ℕ
readable size n = if ltb size (2048 * n) then size else 2048 * n

module _ (disk : HardDisk) (fs_fat : FsFat16) where
  abbrev pub cluster_byte : ℕ → ℕ → ℕ
  cluster_byte c = bytes_from disk.sector (cluster_lba fs_fat c % 0x1000_0000)

  pub read_clusters_step :
      (fuel : ℕ) (mem : Memory) (buf size c has s : ℕ)
      → 0 < size
      → Takes 2048 size s
      → read_clusters disk.read_bytes (suc fuel) mem buf size c has fs_fat ≡ (
          if get_next_cluster c fs_fat.fat == 0
          then returns (patch mem buf (cluster_byte c) s, has + s)
          else read_clusters disk.read_bytes fuel
              (patch mem buf (cluster_byte c) s)
              (buf + s)
              (size - s)
              (get_next_cluster c fs_fat.fat)
              (has + s)
              fs_fat)
  unfolding read_clusters
  read_clusters_step fuel mem buf size c has s pos size_s =
      ground (arith, size_s, disk.reads (cluster_lba fs_fat c) s mem buf)

  -- The bytes of the first cluster of a file, and the others.
  first_cluster :
      (mem : Memory) (buf s x : ℕ) (cs : List ℕ)
      → s ≤ 2048
      → patch mem buf (cluster_byte x) s ≡ patch mem buf (file_byte disk fs_fat (x ∷ cs)) s
  first_cluster mem buf s x cs few =
      patch_same mem buf (cluster_byte x) (file_byte disk fs_fat (x ∷ cs)) s (λ i h.
        let q : i / 2048 ≡ 0 = omega (arith, h, few) in
        let r : i % 2048 ≡ i = omega (arith, h, few) in rw (q, r) refl)

  other_clusters :
      (mem : Memory) (buf size s n x : ℕ) (cs : List ℕ)
      → Takes 2048 size s
      → n ≤ size - s
      → patch mem buf (file_byte disk fs_fat cs) n
        ≡ patch mem buf (λ i. file_byte disk fs_fat (x ∷ cs) (s + i)) n
  other_clusters mem buf size s n x cs size_s few =
      patch_same mem buf (file_byte disk fs_fat cs) (λ i. file_byte disk fs_fat (x ∷ cs) (s + i)) n
        (λ i h.
          let whole : s ≡ 2048 = ground (arith, size_s) in
          let q : (2048 + i) / 2048 ≡ suc (i / 2048) = omega arith in
          let r : (2048 + i) % 2048 ≡ i % 2048 = omega arith in rw (whole, q, r) refl)

  join_clusters :
      (mem : Memory) (buf size has s x : ℕ) (cs : List ℕ)
      → Takes 2048 size s
      → ◌≡◌ {A = Result (Memory × ℕ)}
          (returns (
            patch
                (patch mem buf (cluster_byte x) s)
                (buf + s)
                (file_byte disk fs_fat cs)
                (readable (size - s) (length cs)),
            has + s + readable (size - s) (length cs),
          ))
          (returns (
            patch mem buf (file_byte disk fs_fat (x ∷ cs)) (readable size (suc (length cs))),
            has + readable size (suc (length cs)),
          ))
  join_clusters mem buf size has s x cs size_s =
      let n = readable (size - s) (length cs) in
      let total : s + n ≡ readable size (suc (length cs)) = ground (arith, size_s) in
      let sum : has + s + n ≡ has + (s + n) = omega arith in
      ap (λ (m : Memory). returns (patch m (buf + s) (file_byte disk fs_fat cs) n, has + s + n))
        (first_cluster mem buf s x cs (ground (arith, size_s)))
      ∙ ap (λ (m : Memory). returns (m, has + s + n))
          (other_clusters (patch mem buf (file_byte disk fs_fat (x ∷ cs)) s) (buf + s) size s n x cs
              size_s (ground arith)
            ∙ patch_join mem buf (file_byte disk fs_fat (x ∷ cs)) s n)
      ∙ ap (λ (k : ℕ). returns (patch mem buf (file_byte disk fs_fat (x ∷ cs)) (s + n), k)) sum
      ∙ ap (λ (k : ℕ). returns (patch mem buf (file_byte disk fs_fat (x ∷ cs)) k, has + k)) total

  read_clusters_nothing :
      (fuel : ℕ) (mem : Memory) (buf c has n : ℕ) (cs : List ℕ)
      → read_clusters disk.read_bytes (suc fuel) mem buf 0 c has fs_fat
        ≡ returns (patch mem buf (file_byte disk fs_fat cs) (readable 0 n), has + readable 0 n)
  unfolding read_clusters
  read_clusters_nothing fuel mem buf c has n cs =
      let none_left : readable 0 n ≡ 0 = ground arith in
      let same : has + 0 ≡ has = omega arith in
      rw (none_left, same, patch_none mem buf (file_byte disk fs_fat cs)) refl

  pub read_clusters-IsChain :
      (fuel : ℕ) (mem : Memory) (buf size c has : ℕ) (cs : List ℕ)
      → size < fuel
      → IsChain fs_fat.fat c cs
      → read_clusters disk.read_bytes fuel mem buf size c has fs_fat
        ≡ returns (
          patch mem buf (file_byte disk fs_fat cs) (readable size (length cs)),
          has + readable size (length cs),
        )
  read_clusters-IsChain zero mem buf size c has cs h chain = absurd (omega (arith, h))
  read_clusters-IsChain (suc fuel) mem buf zero c has cs h chain =
      read_clusters_nothing fuel mem buf c has (length cs) cs
  read_clusters-IsChain (suc fuel) mem buf (suc size) c has [] h chain = absurd chain
  read_clusters-IsChain (suc fuel) mem buf (suc size) c has (x ∷ []) h (e, last) =
      let (s, size_s) = takes 2048 (suc size) in
      let s_is : s ≡ readable (suc size) 1 = ground (arith, size_s) in
      read_clusters_step fuel mem buf (suc size) c has s (omega arith) size_s
      ∙ rw (last, sym e, sym s_is)
          (ap (λ (m : Memory). returns (m, has + s))
            (first_cluster mem buf s x [] (ground (arith, size_s))))
  read_clusters-IsChain (suc fuel) mem buf (suc size) c has (x ∷ (y ∷ cs)) h (e, more, chain) =
      let here : (get_next_cluster c fs_fat.fat == 0) ≡ false = ground arith in
      let (s, size_s) = takes 2048 (suc size) in
      read_clusters_step fuel mem buf (suc size) c has s (omega arith) size_s
      ∙ rw here (
          read_clusters-IsChain fuel (patch mem buf (cluster_byte c) s) (buf + s) (suc size - s)
            (get_next_cluster c fs_fat.fat) (has + s) (y ∷ cs) (ground (arith, size_s, h)) chain
          ∙ rw (sym e) (join_clusters mem buf (suc size) has s x (y ∷ cs) size_s))

  pub read_cluster_chain-IsChain :
      (mem : Memory) (buf size start_cluster : ℕ) (cs : List ℕ)
      → fs_fat.vbr.cluster_size ≡ 4
      → fs_fat.vbr.sector_size ≡ 512
      → IsChain fs_fat.fat start_cluster cs
      → read_cluster_chain disk.read_bytes mem buf size start_cluster fs_fat
        ≡ returns (
          patch mem buf (file_byte disk fs_fat cs) (readable size (length cs)),
          readable size (length cs),
        )
  unfolding read_cluster_chain
  read_cluster_chain-IsChain mem buf size start_cluster cs four bytes chain =
      let same : 0 + readable size (length cs) ≡ readable size (length cs) = omega arith in
      let clusters : (sectors_per_cluster == fs_fat.vbr.cluster_size) ≡ true = ground arith in
      let sectors : (sector_size == fs_fat.vbr.sector_size) ≡ true = ground arith in
      rw (clusters, sectors)
        (read_clusters-IsChain (suc size) mem buf size start_cluster 0 cs (omega arith) chain
          ∙ rw same refl)
