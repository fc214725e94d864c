-- ===== src/Fs/File/Reads.antt =====
-- src/fs/fat.c: what the reading of a part of a file gives.
use aneasyos.Base.{
  ℕ, suc, ◌+◌, ◌-◌, ◌*◌, ◌/◌, ◌%◌, ◌<◌, ◌≤◌, ◌≡◌, refl, ap, ◌∙◌, ◌⊎◌, List, [], ◌∷◌, true, false,
  arith, leb, ◌==◌,
}
use aneasyos.Base.Lists.{length, get_or, drop, get_or-drop, length-drop, drop_one}
use aneasyos.Base.Word.{word, add32}
use aneasyos.Text.{Memory}
use aneasyos.Text.Buffers.{patch, copy_in-patch, patch_none, patch_join, patch_same, patch_inside}
use aneasyos.Hd.{returns}
use aneasyos.Fs.{
  FsFat16, DirectoryEntry, get_next_cluster, skip_clusters, get_offest_cluster, cluster_lba,
  read_one_cluster,
}
use aneasyos.Fs.Disk.{HardDisk}
use aneasyos.Fs.Chain.{IsChain, file_byte, skip_clusters-IsChain}
use aneasyos.Fs.Chain.Read.{readable, cluster_byte, read_cluster_chain-IsChain}
use aneasyos.Fs.File.{first_size, read_others, read_entry}

module _ (disk : HardDisk) (stack : Memory) (fs_fat : FsFat16) where
  -- `read_one_cluster` copies a part of a cluster that lies within it.
  pub read_one_cluster-reads :
      (mem : Memory) (buf c start size : ℕ)
      → 0 < size
      → start + size ≤ 2048
      → read_one_cluster disk.read_bytes stack mem buf c start size fs_fat
        ≡ returns (patch mem buf (λ i. cluster_byte disk fs_fat c (start + i)) size)
  unfolding read_one_cluster
  read_one_cluster-reads mem buf c start size pos fits =
      let inside : leb (add32 start size) 2048 ≡ true = ground arith in
      let some_bytes : (size == 0) ≡ false = ground arith in
      let hd_buf = patch stack 0 (cluster_byte disk fs_fat c) 2048 in
      rw (inside, some_bytes, disk.reads (cluster_lba fs_fat c) 2048 stack 0 (omega arith))
        (ap returns (
          copy_in-patch mem buf (λ i. hd_buf (start + i)) size
          ∙ patch_same mem buf (λ i. hd_buf (start + i))
              (λ i. cluster_byte disk fs_fat c (start + i)) size
              (λ i h.
                let at : start + i ≡ 0 + (start + i) = omega arith in
                ap hd_buf at
                ∙ patch_inside stack 0 (cluster_byte disk fs_fat c) 2048 (start + i)
                    (omega (arith, h, fits)))))

  -- A cluster of the chain holds the bytes of the file from its place on.
  file_from :
      (cs : List ℕ) (k : ℕ) (mem : Memory) (buf r n : ℕ)
      → r + n ≤ 2048
      → patch mem buf (λ i. cluster_byte disk fs_fat (get_or cs k 0) (r + i)) n
        ≡ patch mem buf (λ i. file_byte disk fs_fat cs (2048 * k + r + i)) n
  file_from cs k mem buf r n fits =
      patch_same mem buf (λ i. cluster_byte disk fs_fat (get_or cs k 0) (r + i))
        (λ i. file_byte disk fs_fat cs (2048 * k + r + i)) n
        (λ i h.
          let q : (2048 * k + r + i) / 2048 ≡ k = omega (arith, h, fits) in
          let m : (2048 * k + r + i) % 2048 ≡ r + i = omega (arith, h, fits) in rw (q, m) refl)

  -- The clusters after it hold those from the next place on.
  file_others :
      (cs : List ℕ) (k : ℕ) (mem : Memory) (buf n : ℕ)
      → patch mem buf (file_byte disk fs_fat (drop k cs)) n
        ≡ patch mem buf (λ i. file_byte disk fs_fat cs (2048 * k + i)) n
  file_others cs k mem buf n =
      patch_same mem buf (file_byte disk fs_fat (drop k cs))
        (λ i. file_byte disk fs_fat cs (2048 * k + i)) n
        (λ i h.
          let q : (2048 * k + i) / 2048 ≡ k + i / 2048 = omega arith in
          let m : (2048 * k + i) % 2048 ≡ i % 2048 = omega arith in
          rw (q, m, get_or-drop k (i / 2048) cs 0) refl)

  -- The first part and the others are the bytes of the file from the offset on.
  parts_join :
      (cs : List ℕ) (k r size count : ℕ) (mem : Memory) (buf : ℕ)
      → r + size ≤ 2048
      → size ≤ count
      → (size ≡ count) ⊎ (r + size ≡ 2048)
      → patch
          (patch mem buf (λ i. cluster_byte disk fs_fat (get_or cs k 0) (r + i)) size)
          (buf + size)
          (file_byte disk fs_fat (drop 1 (drop k cs)))
          (count - size)
        ≡ patch mem buf (λ i. file_byte disk fs_fat cs (2048 * k + r + i)) count
  parts_join cs k r size count mem buf fits le split =
      let bytes = λ (i : ℕ). file_byte disk fs_fat cs (2048 * k + r + i) in
      let mem1 = patch mem buf bytes size in
      let others : patch mem1 (buf + size) (file_byte disk fs_fat (drop (suc k) cs)) (count - size)
          ≡ patch mem1 (buf + size) (λ i. bytes (size + i)) (count - size) =
        file_others cs (suc k) mem1 (buf + size) (count - size)
        ∙ patch_same mem1 (buf + size) (λ i. file_byte disk fs_fat cs (2048 * suc k + i))
            (λ i. bytes (size + i)) (count - size)
            (λ i h. ap (file_byte disk fs_fat cs) (ground (arith, split, h))) in
      let total : size + (count - size) ≡ count = omega (arith, le) in
      rw (file_from cs k mem buf r size fits, drop_one k cs)
        (others ∙ patch_join mem buf bytes size (count - size) ∙ ap (patch mem buf bytes) total)

  module _ (four : fs_fat.vbr.cluster_size ≡ 4) (bytes : fs_fat.vbr.sector_size ≡ 512) where
    read_others-IsChain :
        (mem : Memory) (buf size count c : ℕ) (ds : List ℕ)
        → IsChain fs_fat.fat c ds
        → size ≤ count
        → count - size + 2048 ≤ 2048 * length ds
        → read_others disk.read_bytes stack mem buf size count
            (get_next_cluster c fs_fat.fat)
            fs_fat
          ≡ returns
              (patch mem (buf + size) (file_byte disk fs_fat (drop 1 ds)) (count - size), count)
    unfolding read_others
    read_others-IsChain mem buf size count c [] chain le fits = absurd chain
    read_others-IsChain mem buf size count c (x ∷ []) (e, last) le fits =
        let same : count ≡ size = omega (arith, le, fits) in
        let left : count - size ≡ 0 = omega (arith, same) in
        rw (last, left, patch_none mem (buf + size) (file_byte disk fs_fat [])) (rw same refl)
    read_others-IsChain mem buf size count c (x ∷ (y ∷ ds)) (e, more, chain) le fits =
        let others : (get_next_cluster c fs_fat.fat == 0) ≡ false = ground arith in
        let all : readable (count - size) (length (y ∷ ds)) ≡ count - size = ground (arith, fits) in
        let sum : size + (count - size) ≡ count = omega (arith, le) in
        rw
          (
            others,
            read_cluster_chain-IsChain disk fs_fat mem (buf + size) (count - size)
                (get_next_cluster c fs_fat.fat) (y ∷ ds) four bytes chain,
            all,
            sum,
          )
          refl

    -- The reading of `count` bytes from `offest` on of a file whose clusters hold it, at least one
    -- and within the size of the file, returns: at the buffer then stand these bytes of the file, the
    -- value is their number, and the rest of the memory is as it was. The volume has sectors of 512
    -- bytes and clusters of four sectors.
    pub read_entry-reads :
        (entry : DirectoryEntry) (mem : Memory) (buf offest count : ℕ) (cs : List ℕ)
        → IsChain fs_fat.fat entry.start_cluster cs
        → entry.file_size ≤ 2048 * length cs
        → entry.file_size < word
        → 0 < count
        → offest + count ≤ entry.file_size
        → read_entry disk.read_bytes stack entry mem buf offest count fs_fat
          ≡ returns (patch mem buf (λ i. file_byte disk fs_fat cs (offest + i)) count, count)
    unfolding read_entry get_offest_cluster
    read_entry-reads entry mem buf offest count cs chain holds small pos within =
        let k = offest / 2048 in
        let r = offest % 2048 in
        let place : 2048 * k + r ≡ offest = omega arith in
        let asked : (count == 0) ≡ false = ground arith in
        let inside : leb (add32 offest count) entry.file_size ≡ true = ground arith in
        let size = first_size offest count in
        let some_bytes : 0 < size = ground arith in
        let fits : r + size ≤ 2048 = ground arith in
        let le : size ≤ count = ground arith in
        let split : (size ≡ count) ⊎ (r + size ≡ 2048) = ground arith in
        let (here, rest) =
          skip_clusters-IsChain fs_fat.fat k entry.start_cluster cs chain
            (omega (arith, holds, within, pos)) in
        let c = skip_clusters k entry.start_cluster fs_fat.fat in
        let mem1 = patch mem buf (λ i. cluster_byte disk fs_fat c (r + i)) size in
        let long : count - size + 2048 ≤ 2048 * length (drop k cs) =
          ground (arith, length-drop k cs, split, holds, within, pos) in
        let joined : patch mem1 (buf + size) (file_byte disk fs_fat (drop 1 (drop k cs)))
              (count - size)
            ≡ patch mem buf (λ i. file_byte disk fs_fat cs (offest + i)) count =
          rw here (
            parts_join cs k r size count mem buf fits le split
            ∙ ap (λ (o : ℕ). patch mem buf (λ i. file_byte disk fs_fat cs (o + i)) count) place) in
        rw (asked, inside, read_one_cluster-reads mem buf c r size some_bytes fits)
          (read_others-IsChain mem1 buf size count c (drop k cs) rest le long
            ∙ ap (λ (m : Memory). returns (m, count)) joined)
