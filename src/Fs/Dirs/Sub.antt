-- ===== src/Fs/Dirs/Sub.antt =====
-- src/fs/fat.c: `read_sub_dirs` asks for no bytes.
use aneasyos.Base.{
  ℕ, suc, ◌≡◌, refl, true, false, arith, inl, inr, ◌≢◌, ap, fun_ext, Bool-cases, update,
  update_self, if◌then◌else◌, ◌==◌, ◌!=◌,
}
use aneasyos.Text.{Memory}
use aneasyos.Hd.{returns, sector_size}
use aneasyos.Fs.{
  ReadBytes, FsFat16, DirectoryEntry, sectors_per_cluster, read_clusters, read_cluster_chain,
}
use aneasyos.Fs.Find.{FsDirEntry}
use aneasyos.Fs.Names.InBuffer.{IsShort, written, short_name-written}
use aneasyos.Fs.Dirs.{
  Dirs, change, get_free_fs_entry, has_sub_dirs, new_entry, sub_entries, read_sub_dirs,
}

module _ (read_bytes : ReadBytes) (stack : Memory) (fs_fat : FsFat16)
    (four : fs_fat.vbr.cluster_size ≡ 4) (bytes : fs_fat.vbr.sector_size ≡ 512) where
  -- The entries of a directory other than the root are never read: it counts as empty.
  pub read_sub_dirs_empty :
      (fuel p_entry : ℕ) (d : Dirs)
      → read_sub_dirs read_bytes stack fs_fat (suc fuel) p_entry d
        ≡ returns (change d p_entry (record (d.store p_entry) { dir_cnt = 0 }))
  unfolding read_sub_dirs read_cluster_chain read_clusters sub_entries
  read_sub_dirs_empty fuel p_entry d =
      let clusters : (sectors_per_cluster == fs_fat.vbr.cluster_size) ≡ true = ground arith in
      let sectors : (sector_size == fs_fat.vbr.sector_size) ≡ true = ground arith in
      rw (clusters, sectors) refl

  -- What an entry looks like that is filled with `e`.
  unfoldable pub filled : FsDirEntry → DirectoryEntry → FsDirEntry
  filled old e = record old {
    dir_ent = e;
    short_filename = written old.short_filename e;
    next = 0;
    dir_cnt = if has_sub_dirs e then 0 else old.dir_cnt;
  }

  -- The first free entry, taken from the list.
  abbrev taken : Dirs → Dirs
  taken d = record {
    store = update d.store d.free (record (d.store d.free) { next = 0 });
    free = (d.store d.free).next;
  }

  free_taken : (d : Dirs) → d.free ≢ 0 → get_free_fs_entry d ≡ (d.free, taken d)
  unfolding get_free_fs_entry
  free_taken d ne = let there : (d.free == 0) ≡ false = ground arith in rw there refl

  abbrev with_entry : Dirs → FsDirEntry → Dirs
  with_entry d x = record { store = update d.store d.free x; free = (d.store d.free).next }

  with_entry_twice :
      (d : Dirs) (x y : FsDirEntry) → change (with_entry d x) d.free y ≡ with_entry d y
  with_entry_twice d x y =
      ap (λ (s : ℕ → FsDirEntry). record { store = s; free = (d.store d.free).next })
        {x = update (update d.store d.free x) d.free y} {y = update d.store d.free y}
        (fun_ext (λ a. ground arith))

  pub new_entry-fills :
      (fuel : ℕ) (e : DirectoryEntry) (d : Dirs)
      → d.free ≢ 0
      → IsShort e
      → new_entry (read_sub_dirs read_bytes stack fs_fat (suc fuel)) e d
        ≡ returns (d.free, with_entry d (filled (d.store d.free) e))
  unfolding new_entry filled
  new_entry-fills fuel e d ne short =
      let there : (d.free != 0) ≡ true = ground arith in
      let at = update_self d.store d.free (record (d.store d.free) { next = 0 }) in
      let named = short_name-written (d.store d.free).short_filename e short in
      let old : FsDirEntry = record (d.store d.free) { next = 0 } in
      let y : FsDirEntry = record old {
        dir_ent = e;
        short_filename = written old.short_filename e;
      } in
      elim (Bool-cases (has_sub_dirs e)) [
        | inl h ↦
            rw
              (
                free_taken d ne,
                there,
                at,
                named,
                h,
                with_entry_twice d old y,
                read_sub_dirs_empty fuel d.free (with_entry d y),
                update_self d.store d.free y,
              )
              (ap (λ (x : Dirs). returns (d.free, x))
                (with_entry_twice d y (record y { dir_cnt = 0 })))
        | inr h ↦
            rw (free_taken d ne, there, at, named, h)
              (ap (λ (x : Dirs). returns (d.free, x)) (with_entry_twice d old y))
      ]
