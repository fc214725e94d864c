-- ===== src/Fs/Dirs.antt =====
-- src/fs/fat.c: reading the directories into a list of FS_DIR_ENTRY.
-- The entries stand at pointers in a store, the unused ones in the list `p_free_entrys`. A write
-- through a null pointer, and one of `get_83_name` behind the buffer of the entry, count as a failed
-- `assert`. `read_sub_dirs` calls itself, so it runs
-- on fuel for the depth.
pub mod Sub
pub mod Root
use aneasyos.Base.{
  ℕ, zero, suc, ◌+◌, ◌*◌, ◌/◌, Option, none, some, Bool, true, false, not, ◌&&◌, ◌==◌, ◌!=◌,
  if◌then◌else◌, update,
}
use aneasyos.Base.Word.{add32}
use aneasyos.Base.Flags.{has_flag}
use aneasyos.Text.{Memory}
use aneasyos.Hd.{Result, returns, fails, no_fuel, ◌>>=◌, ◌>>◌, check, u16_at, u32_at, sector_size}
use aneasyos.Fs.{ReadBytes, FsFat16, DirectoryEntry, attr_directory, read_cluster_chain}
use aneasyos.Fs.Names.{Mark, end_mark, not_valid, file, directory, check_dir_valid, short_name}
use aneasyos.Fs.Find.{FsDirEntry, Store}

abbrev pub entry_size : ℕ
entry_size = 32

unfoldable pub dir_entry_at : Memory → ℕ → DirectoryEntry
dir_entry_at buf i = record {
  short_file_name = λ k. buf (i + k);
  file_attr = buf (i + 11);
  mtime = u16_at buf (i + 22);
  mdata = u16_at buf (i + 24);
  start_cluster = u16_at buf (i + 26);
  file_size = u32_at buf (i + 28);
}

-- The store and the first free entry.
pub record Dirs : Type 0 where
  pub store : Store
  pub free : ℕ

abbrev pub change : Dirs → ℕ → FsDirEntry → Dirs
change d p e = record d { store = update d.store p e }

-- The pointer, null when there is no free entry, and the list without it.
unfoldable pub get_free_fs_entry : Dirs → ℕ × Dirs
get_free_fs_entry d =
    let p = d.free in
    if p == 0 then (0, d) else (
      p,
      record d {
        store = update d.store p (record (d.store p) { next = 0 });
        free = (d.store p).next;
      },
    )

-- The entry is a directory other than "." and "..".
unfoldable pub has_sub_dirs : DirectoryEntry → Bool
has_sub_dirs e = not (e.short_file_name 0 == 0x2e) && has_flag e.file_attr attr_directory

-- The end mark, and the entries that are left out.
unfoldable pub is_end : DirectoryEntry → Bool
unfolding check_dir_valid
is_end e = elim (check_dir_valid e) [
  | end_mark ↦ true
  | not_valid ↦ false
  | file ↦ false
  | directory ↦ false
]

unfoldable pub is_valid : DirectoryEntry → Bool
unfolding check_dir_valid
is_valid e = elim (check_dir_valid e) [
  | end_mark ↦ false
  | not_valid ↦ false
  | file ↦ true
  | directory ↦ true
]

abbrev pub or_fails : Option (ℕ → ℕ) → Result (ℕ → ℕ)
or_fails none = fails
or_fails (some name) = returns name

-- A free entry is filled with an entry of the disk, and its sub directories are read by `sub`.
unfoldable pub new_entry : (ℕ → Dirs → Result Dirs) → DirectoryEntry → Dirs → Result (ℕ × Dirs)
new_entry sub e d =
    let r = get_free_fs_entry d in
    let old = r.1.store r.0 in
    do
      check (r.0 != 0)
      name ← or_fails (short_name old.short_filename e)
      let d1 = change r.1 r.0 (record old { dir_ent = e; short_filename = name })
      d2 ← if has_sub_dirs e then sub r.0 d1 else returns d1
      returns (r.0, d2)

-- The loop of `read_sub_dirs` at the entry `i` of the buffer, with `n` entries left; the value is the
-- number of entries that are kept.
unfoldable pub sub_entries :
    (ℕ → Dirs → Result Dirs) → ℕ → ℕ → Memory → ℕ → ℕ → ℕ → Dirs → Result (ℕ × Dirs)
sub_entries sub zero i buf p_entry cur num d = returns (num, d)
sub_entries sub (suc n) i buf p_entry cur num d =
    let e = dir_entry_at buf (i * entry_size) in
    let skip = sub_entries sub n (suc i) buf p_entry cur num d in
    let keep = do
      r ← new_entry sub e d
      let old = r.1.store cur
      let d1 =
          change r.1 cur
            (if num == 0 then record old { child_dir = r.0 } else record old { next = r.0 })
      let d2 = change d1 r.0 (record (d1.store r.0) { parent_dir = p_entry })
      sub_entries sub n (suc i) buf p_entry r.0 (suc num) d2
    in if is_end e then returns (num, d) else if is_valid e then keep else skip

module _ (read_bytes : ReadBytes) (stack : Memory) (fs_fat : FsFat16) where
  unfoldable pub read_sub_dirs : ℕ → ℕ → Dirs → Result Dirs
  read_sub_dirs zero p_entry d = no_fuel
  read_sub_dirs (suc fuel) p_entry d = do
    r ← read_cluster_chain read_bytes stack 0 0 (d.store p_entry).dir_ent.start_cluster fs_fat
    s ← sub_entries (read_sub_dirs fuel) (r.1 / entry_size) 0 r.0 p_entry p_entry 0 d
    returns (change s.1 p_entry (record (s.1.store p_entry) { dir_cnt = s.0 }))

  -- The two loops of `read_root_dirs` as one: `n` entries of the sector in `buf` are left.
  unfoldable pub root_entries : ℕ → ℕ → ℕ → Memory → ℕ → ℕ → ℕ → Dirs → Result (Bool × ℕ × ℕ × Dirs)
  root_entries fuel zero j buf root cur num d = returns (false, cur, num, d)
  root_entries fuel (suc n) j buf root cur num d =
      let e = dir_entry_at buf (j * entry_size) in
      let skip = root_entries fuel n (suc j) buf root cur num d in
      let keep = do
        r ← new_entry (read_sub_dirs fuel) e d
        let d1 = change r.1 r.0 (record (r.1.store r.0) { parent_dir = root })
        let d2 = change d1 cur (record (d1.store cur) { next = r.0 })
        root_entries fuel n (suc j) buf root r.0 (suc num) d2
      in if is_end e then returns (true, cur, num, d) else if is_valid e then keep else skip

  -- `n` sectors are left.
  unfoldable pub root_sectors_from : ℕ → ℕ → ℕ → ℕ → ℕ → ℕ → Dirs → Result (ℕ × Dirs)
  root_sectors_from fuel zero i root cur num d = returns (num, d)
  root_sectors_from fuel (suc n) i root cur num d = do
    hd_buf ← read_bytes 0 (add32 fs_fat.root_start_sector i) sector_size stack 0
    r ← root_entries fuel 16 0 hd_buf root cur num d
    (if r.0 then returns (r.2, r.3) else root_sectors_from fuel n (suc i) root r.1 r.2 r.3)

  unfoldable pub read_root_dirs : ℕ → ℕ → Dirs → Result Dirs
  read_root_dirs fuel root d = do
    r ← root_sectors_from fuel fs_fat.root_sectors 0 root root 0 d
    returns (change r.1 root (record (r.1.store root) { dir_cnt = r.0 }))
