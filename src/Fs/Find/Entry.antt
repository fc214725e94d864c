-- ===== src/Fs/Find/Entry.antt =====
-- src/fs/fat.c: a file of the root directory is found by its name and read.
use aneasyos.Base.{
  ℕ, zero, suc, ◌+◌, ◌*◌, ◌<◌, ◌≤◌, ◌≡◌, ◌≢◌, refl, ap, ◌∙◌, ◌⊎◌, inl, inr, none, List, [], ◌∷◌,
  true, false, arith, ◌==◌, ◌!=◌, Bool-cases,
}
use aneasyos.Base.Lists.{length, All, same_text, same_text_exact}
use aneasyos.Base.Word.{word}
use aneasyos.Text.{Memory}
use aneasyos.Text.Buffers.{patch, patch_same}
use aneasyos.Hd.{returns}
use aneasyos.Fs.{FsFat16}
use aneasyos.Fs.Disk.{HardDisk}
use aneasyos.Fs.Chain.{file_byte}
use aneasyos.Fs.Chain.Clusters.{FileClusters, stored_byte, FileClusters-IsChain, file_byte-stored}
use aneasyos.Fs.File.Reads.{read_entry-reads}
use aneasyos.Fs.Find.{
  Store, short_text, find_from, find_entry, split_path, find_dir_entry, get_file_dir, read_file,
}

-- From `p` the pointers `next` lead through these entries to null.
abbrev pub Linked : Store → ℕ → List ℕ → Type 0
Linked store p [] = p ≡ 0
Linked store p (q ∷ qs) = (p ≡ q) × (q ≢ 0) × Linked store (store q).next qs

-- What a search among the entries finds: null when none has the name, else the first that has it.
abbrev pub Found : Store → List ℕ → List ℕ → ℕ → Type 0
Found store name [] q = q ≡ 0
Found store name (p ∷ ps) q =
    ((short_text (store p) ≡ name) × (q ≡ p))
    ⊎ ((short_text (store p) ≢ name) × Found store name ps q)

find_from-Found :
    (store : Store) (p q fuel : ℕ) (name : List ℕ) (ps : List ℕ)
    → length ps < fuel
    → Linked store p ps
    → Found store name ps q
    → find_from fuel store p name ≡ returns q
unfolding find_from
find_from-Found store p q zero name ps h linked found = absurd (omega (arith, h))
find_from-Found store p q (suc fuel) name [] h e found = ground (arith, e, found)
find_from-Found store p q (suc fuel) name (p' ∷ ps) h (e, ne, linked) (inl (same, here)) =
    ground (arith, e, ne, here, same_text_exact (short_text (store p')) name, same)
find_from-Found store p q (suc fuel) name (p' ∷ ps) h (e, ne, linked) (inr (other, found)) =
    let ih = find_from-Found store (store p').next q fuel name ps (omega (arith, h)) linked found in
    ground (arith, e, ne, ih, same_text_exact (short_text (store p')) name, other)

-- There is always an answer.
pub search-Found : (store : Store) (name : List ℕ) (ps : List ℕ) → (q : ℕ) × Found store name ps q
search-Found store name [] = (0, refl)
search-Found store name (p ∷ ps) =
    let (q, found) = search-Found store name ps in
    elim (Bool-cases (same_text (short_text (store p)) name)) [
      | inl e ↦ (p, inl (ground (arith, e, same_text_exact (short_text (store p)) name), refl))
      | inr e ↦ (q, inr (ground (arith, e, same_text_exact (short_text (store p)) name), found))
    ]

abbrev pub NoSlash : List ℕ → Type 0
NoSlash = All (λ c. c ≢ b'/')

split_path-none : (s : List ℕ) → NoSlash s → split_path s ≡ none
unfolding split_path
split_path-none [] n = refl
split_path-none (c ∷ s) (ne, n) = ground (arith, split_path-none s n)

-- `get_file_dir` of a path "/name" returns: the first entry of the root directory that has the name,
-- null when none has it.
pub get_file_dir-Found :
    (store : Store) (root q : ℕ) (name : List ℕ) (ps : List ℕ)
    → NoSlash name
    → (store root).next ≢ 0
    → Linked store (store root).next ps
    → Found store name ps q
    → get_file_dir (suc (length ps)) store root (b'/' ∷ name) ≡ returns q
unfolding get_file_dir find_dir_entry find_entry
get_file_dir-Found store root q name ps flat ne linked found =
    let some_entry : ((store root).next != 0) ≡ true = ground arith in
    rw (some_entry, split_path-none name flat)
      (rw some_entry (
        find_from-Found store (store root).next q (suc (length ps)) name ps (omega arith) linked
          found))

module _ (disk : HardDisk) (stack : Memory) (fs_fat : FsFat16) where
  -- `read_file` of a path "/name" returns, for an offset and a count of at least one byte within the
  -- file: at the buffer then stand the bytes from the offset on of the file of the first entry of the
  -- root directory that has the name, the value is the count, and the rest of the memory is as it
  -- was. The root directory has such an entry, the FAT leads from the cluster of the entry through the
  -- clusters that hold the file, and the volume has sectors of 512 bytes and clusters of four sectors.
  pub read_file-reads :
      (store : Store) (root q : ℕ) (name ps cs : List ℕ) (mem : Memory) (buf offest count : ℕ)
      → fs_fat.vbr.cluster_size ≡ 4
      → fs_fat.vbr.sector_size ≡ 512
      → NoSlash name
      → (store root).next ≢ 0
      → Linked store (store root).next ps
      → Found store name ps q
      → q ≢ 0
      → FileClusters fs_fat (store q).dir_ent.start_cluster cs
      → (store q).dir_ent.file_size ≤ 2048 * length cs
      → (store q).dir_ent.file_size < word
      → 0 < count
      → offest + count ≤ (store q).dir_ent.file_size
      → read_file disk.read_bytes stack
          (suc (length ps))
          store
          root
          (b'/' ∷ name)
          mem
          buf
          offest
          count
          fs_fat
        ≡ returns (patch mem buf (λ i. stored_byte disk fs_fat cs (offest + i)) count, count)
  unfolding read_file
  read_file-reads store root q name ps cs mem buf offest count four bytes flat ne linked found there
        chain holds small pos within =
      let found_one : (q == 0) ≡ false = ground arith in
      let entry = (store q).dir_ent in
      rw (get_file_dir-Found store root q name ps flat ne linked found, found_one)
        (read_entry-reads disk stack fs_fat four bytes entry mem buf offest count cs
            (FileClusters-IsChain fs_fat entry.start_cluster cs chain) holds small pos within
          ∙ ap (λ (m : Memory). returns (m, count))
              (patch_same mem buf (λ i. file_byte disk fs_fat cs (offest + i))
                (λ i. stored_byte disk fs_fat cs (offest + i)) count
                (λ i h.
                  file_byte-stored disk fs_fat entry.start_cluster (offest + i) cs chain
                    (omega (arith, h, within, holds)))))

  pub read_file_missing :
      (store : Store) (root : ℕ) (name ps : List ℕ) (mem : Memory) (buf offest count : ℕ)
      → NoSlash name
      → (store root).next ≢ 0
      → Linked store (store root).next ps
      → Found store name ps 0
      → read_file disk.read_bytes stack
          (suc (length ps))
          store
          root
          (b'/' ∷ name)
          mem
          buf
          offest
          count
          fs_fat
        ≡ returns (mem, 0)
  unfolding read_file
  read_file_missing store root name ps mem buf offest count flat ne linked found =
      rw (get_file_dir-Found store root 0 name ps flat ne linked found) refl
