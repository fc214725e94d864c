-- ===== src/Fs/Dirs/Root/Sectors.antt =====
-- src/fs/fat.c: `read_root_dirs` keeps the valid entries of the root directory.
use mathlib.Core.List.{append-nil, append_assoc}
use aneasyos.Base.{
  ℕ, zero, suc, ◌%◌, ◌≤◌, ◌≡◌, refl, sym, ap, subst, ◌∙◌, ◌⊎◌, inl, inr, List, [], ◌∷◌, ◌++◌, false,
  Bool-cases, arith, if◌then◌else◌,
}
use aneasyos.Base.Lists.{length, length-append, All}
use aneasyos.Base.Indices.{Distinct}
use aneasyos.Base.Word.{add32}
use aneasyos.Text.{Memory}
use aneasyos.Text.Buffers.{patch}
use aneasyos.Hd.{returns}
use aneasyos.Hd.Ata.{bytes_from}
use aneasyos.Fs.{FsFat16, DirectoryEntry}
use aneasyos.Fs.Disk.{HardDisk}
use aneasyos.Fs.Names.InBuffer.{IsShort}
use aneasyos.Fs.Find.Entry.{Linked}
use aneasyos.Fs.Dirs.{Dirs, change, root_sectors_from, read_root_dirs}
use aneasyos.Fs.Dirs.Root.{Entries, last, Entries-alike}
use aneasyos.Fs.Dirs.Root.Built.{Built}
use aneasyos.Fs.Dirs.Root.Loop.{entries_of, has_end, kept, root_entries-Built}

module _ (disk : HardDisk) (stack : Memory) (fs_fat : FsFat16) (four : fs_fat.vbr.cluster_size ≡ 4)
    (bytes : fs_fat.vbr.sector_size ≡ 512) (root : ℕ) where
  -- The entries of the sector `i` of the root directory, and what is kept of `n` sectors from `i` on.
  abbrev pub sector_entries : ℕ → List DirectoryEntry
  sector_entries i =
      entries_of 16 0 (
        patch stack 0 (bytes_from disk.sector (add32 fs_fat.root_start_sector i % 0x1000_0000)) 512)

  unfoldable pub kept_in : ℕ → ℕ → List DirectoryEntry
  kept_in zero i = []
  kept_in (suc n) i =
      let rest = kept_in n (suc i) in
      if has_end (sector_entries i)
      then kept (sector_entries i)
      else kept (sector_entries i) ++ rest

  All-append :
      (es fs : List DirectoryEntry) → All IsShort (es ++ fs) → All IsShort es × All IsShort fs
  All-append [] fs h = (tt, h)
  All-append (e ∷ es) fs (h, hs) = let (a, b) = All-append es fs hs in ((h, a), b)

  kept_in-IsShort :
      (n i : ℕ)
      → All IsShort (kept_in (suc n) i)
      → All IsShort (kept (sector_entries i))
        × (has_end (sector_entries i) ≡ false → All IsShort (kept_in n (suc i)))
  unfolding kept_in
  kept_in-IsShort n i short = elim (Bool-cases (has_end (sector_entries i))) [
    | inl stop ↦ (rw stop at short, λ go. absurd (ground (arith, stop, go)))
    | inr go ↦
        let (a, b) = All-append (kept (sector_entries i)) (kept_in n (suc i)) (rw go at short) in
        (a, λ _. b)
  ]

  root_sectors-Built :
      (fuel n i : ℕ) (d : Dirs) (ks : List DirectoryEntry) (ps free : List ℕ)
      → Built root ks ps free d
      → length (kept_in n i) ≤ length free
      → All IsShort (kept_in n i)
      → (ps' : List ℕ) × (free' : List ℕ) × (d' : Dirs) × (root_sectors_from disk.read_bytes stack
            fs_fat
            (suc fuel)
            n
            i
            root
            (last root ps)
            (length ks)
            d
          ≡ returns (length (ks ++ kept_in n i), d'))
        × Built root (ks ++ kept_in n i) ps' free' d'
  unfolding root_sectors_from kept_in
  root_sectors-Built fuel zero i d ks ps free built enough short = (
    ps,
    free,
    d,
    ap (λ (l : List DirectoryEntry). returns (length l, d)) (sym (append-nil ks)),
    subst (λ (l : List DirectoryEntry). Built root l ps free d) (sym (append-nil ks)) built,
  )
  root_sectors-Built fuel (suc n) i d ks ps free built enough short =
      let lba = add32 fs_fat.root_start_sector i in
      let buf = patch stack 0 (bytes_from disk.sector (lba % 0x1000_0000)) 512 in
      let es = entries_of 16 0 buf in
      let rest = kept_in n (suc i) in
      let first : length (kept es) ≤ length free =
        ground (arith, enough, length-append (kept es) rest) in
      let (here, later) = kept_in-IsShort n i short in
      let (ps1, free1, d1, run, built1, count) =
        root_entries-Built disk.read_bytes stack fs_fat four bytes root fuel 16 0 buf d ks ps free
          built first here in
      elim (Bool-cases (has_end es)) [
        | inl stop ↦
            rw (disk.reads lba 512 stack 0 (omega arith), run, stop) (ps1, free1, d1, refl, built1)
        | inr go ↦
            let others : length rest ≤ length free1 =
              ground (arith, go, enough, length-append (kept es) rest, count) in
            let (ps2, free2, d2, run2, built2) =
              root_sectors-Built fuel n (suc i) d1 (ks ++ kept es) ps1 free1 built1 others
                (later go) in
            let join = append_assoc ks (kept es) rest in
            rw (disk.reads lba 512 stack 0 (omega arith), run, go)
              (
                ps2,
                free2,
                d2,
                run2 ∙ ap (λ (l : List DirectoryEntry). returns (length l, d2)) join,
                subst (λ (l : List DirectoryEntry). Built root l ps2 free2 d2) join built2,
              )
      ]

  -- `read_root_dirs` returns when there are as many free entries as the root directory has ones that
  -- are not deleted before its end mark, and the names of these are short: less than eight characters,
  -- and for a file an extension of less than three or a name of less than four. From the root entry on, `next` then leads through new entries that hold
  -- these, in their order and with the root as parent, and ends in null if there are any; `dir_cnt`
  -- of the root is their number. The free entries are linked and
  -- distinct, and the volume has sectors of 512 bytes and clusters of four sectors.
  pub read_root_dirs-Entries :
      (fuel : ℕ) (d : Dirs) (free : List ℕ)
      → Linked d.store d.free free
      → Distinct (root ∷ free)
      → length (kept_in fs_fat.root_sectors 0) ≤ length free
      → All IsShort (kept_in fs_fat.root_sectors 0)
      → (ps : List ℕ) × (d' : Dirs) × (read_root_dirs disk.read_bytes stack fs_fat (suc fuel) root d
          ≡ returns d')
        × Entries d'.store root root (kept_in fs_fat.root_sectors 0) ps
        × ((ps ≡ []) ⊎ ((d'.store (last root ps)).next ≡ 0))
        × ((d'.store root).dir_cnt ≡ length (kept_in fs_fat.root_sectors 0))
  unfolding read_root_dirs
  read_root_dirs-Entries fuel d free linked apart enough short =
      let ks = kept_in fs_fat.root_sectors 0 in
      let start : Built root [] [] free d = record {
        listed = tt;
        count = refl;
        spare = linked;
        apart = apart;
        ended = inl refl;
      } in
      let (ps, free', d1, run, built) =
        root_sectors-Built fuel fs_fat.root_sectors 0 d [] [] free start enough short in
      let d' = change d1 root (record (d1.store root) { dir_cnt = length ks }) in
      (
        ps,
        d',
        rw run refl,
        Entries-alike d1.store d'.store root root ks ps (λ a. ground arith) built.listed,
        ground (arith, built.ended),
        ground arith,
      )
