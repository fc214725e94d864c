-- ===== src/Fs/Dirs/Root/Loop.antt =====
-- src/fs/fat.c: the loop of `read_root_dirs` over the entries of a sector.
use aneasyos.Base.{
  ℕ, zero, suc, ◌+◌, ◌*◌, ◌<◌, ◌≤◌, ◌≡◌, ◌≢◌, refl, sym, ap, subst, ◌∙◌, inl, inr, List, [], ◌∷◌,
  ◌++◌, Bool, true, false, not, ◌||◌, ◌==◌, Bool-cases, arith, if◌then◌else◌,
}
use mathlib.Core.List.{append-nil, append_assoc}
use aneasyos.Base.Lists.{length, length-append, All}
use aneasyos.Text.{Memory}
use aneasyos.Hd.{Result, returns}
use aneasyos.Fs.{ReadBytes, FsFat16, DirectoryEntry}
use aneasyos.Fs.Names.{check_dir_valid}
use aneasyos.Fs.Names.InBuffer.{IsShort}
use aneasyos.Fs.Dirs.{Dirs, entry_size, dir_entry_at, is_end, is_valid, root_entries}
use aneasyos.Fs.Dirs.Sub.{filled, new_entry-fills}
use aneasyos.Fs.Dirs.Root.{last, last-snoc}
use aneasyos.Fs.Dirs.Root.Built.{Built, hang_behind, Built-step}

-- The `n` entries of a sector from `j` on; whether an end mark is among them; those that are kept.
unfoldable pub entries_of : ℕ → ℕ → Memory → List DirectoryEntry
entries_of zero j buf = []
entries_of (suc n) j buf = dir_entry_at buf (j * entry_size) ∷ entries_of n (suc j) buf

-- The first byte of an entry says that the directory ends here, or that the file is deleted.
abbrev pub ends : DirectoryEntry → Bool
ends e = e.short_file_name 0 == 0

abbrev pub deleted : DirectoryEntry → Bool
deleted e = e.short_file_name 0 == 0xe5

abbrev pub has_end : List DirectoryEntry → Bool
has_end [] = false
has_end (e ∷ es) = ends e || has_end es

abbrev pub kept : List DirectoryEntry → List DirectoryEntry
kept [] = []
kept (e ∷ es) = if ends e then [] else if deleted e then kept es else e ∷ kept es

is_end-ends : (e : DirectoryEntry) → is_end e ≡ ends e
unfolding is_end check_dir_valid
is_end-ends e = ground arith

is_valid-deleted : (e : DirectoryEntry) → ends e ≡ false → is_valid e ≡ not (deleted e)
unfolding is_valid check_dir_valid
is_valid-deleted e go = ground (arith, go)

module _ (read_bytes : ReadBytes) (stack : Memory) (fs_fat : FsFat16)
    (four : fs_fat.vbr.cluster_size ≡ 4) (bytes : fs_fat.vbr.sector_size ≡ 512) (root : ℕ) where
  -- A part of the loop over the entries returns with these entries more.
  abbrev pub Grows :
      List DirectoryEntry
      → List ℕ
      → List DirectoryEntry
      → Bool
      → Result (Bool × ℕ × ℕ × Dirs)
      → Type 0
  Grows ks free new stopped r =
      (ps' : List ℕ) × (free' : List ℕ) × (d' : Dirs) × (r
        ≡ returns (stopped, last root ps', length (ks ++ new), d'))
      × Built root (ks ++ new) ps' free' d'
      × (length free' + length new ≡ length free)

  Grows-none :
      (d : Dirs) (ks : List DirectoryEntry) (ps free : List ℕ) (stopped : Bool)
      → Built root ks ps free d
      → Grows ks free [] stopped (returns (stopped, last root ps, length ks, d))
  Grows-none d ks ps free stopped built =
      let same = sym (append-nil ks) in
      (
        ps,
        free,
        d,
        ap (λ (l : List DirectoryEntry). returns (stopped, last root ps, length l, d)) same,
        subst (λ (l : List DirectoryEntry). Built root l ps free d) same built,
        omega arith,
      )

  Grows-more :
      (ks new : List DirectoryEntry) (e : DirectoryEntry) (free rest : List ℕ) (p : ℕ)
      (stopped : Bool) (r : Result (Bool × ℕ × ℕ × Dirs))
      → free ≡ p ∷ rest
      → Grows (ks ++ (e ∷ [])) rest new stopped r
      → Grows ks free (e ∷ new) stopped r
  Grows-more ks new e free rest p stopped r split (ps', free', d', run, built, count) =
      let same = append_assoc ks (e ∷ []) new in
      (
        ps',
        free',
        d',
        run ∙ ap (λ (l : List DirectoryEntry). returns (stopped, last root ps', length l, d')) same,
        subst (λ (l : List DirectoryEntry). Built root l ps' free' d') same built,
        omega (arith, ap length split, count),
      )

  first_free :
      (d : Dirs) (ks : List DirectoryEntry) (ps free : List ℕ)
      → Built root ks ps free d
      → 0 < length free
      → (rest : List ℕ) × (free ≡ d.free ∷ rest) × (d.free ≢ 0)
  first_free d ks ps [] built h = absurd (omega (arith, h))
  first_free d ks ps (p ∷ rest) built h =
      let (is_p, not_null, linked) = built.spare in
      (rest, ap (λ (q : ℕ). q ∷ rest) (sym is_p), λ e. not_null (sym is_p ∙ e))

  -- One round of the loop at an entry that is kept.
  abbrev round : Dirs → ℕ → DirectoryEntry → Dirs
  round d cur e =
      hang_behind d root cur d.free (filled read_bytes stack fs_fat four bytes (d.store d.free) e)

  abbrev pub loop : ℕ → ℕ → ℕ → Memory → ℕ → ℕ → Dirs → Result (Bool × ℕ × ℕ × Dirs)
  loop fuel n j buf cur num d =
      root_entries read_bytes stack fs_fat (suc fuel) n j buf root cur num d

  loop-round :
      (fuel n j : ℕ) (buf : Memory) (cur num : ℕ) (d : Dirs)
      → is_end (dir_entry_at buf (j * entry_size)) ≡ false
      → is_valid (dir_entry_at buf (j * entry_size)) ≡ true
      → d.free ≢ 0
      → IsShort (dir_entry_at buf (j * entry_size))
      → loop fuel (suc n) j buf cur num d
        ≡ loop fuel n (suc j) buf d.free (suc num) (round d cur (dir_entry_at buf (j * entry_size)))
  unfolding root_entries
  loop-round fuel n j buf cur num d go valid ne short =
      rw
        (
          go,
          valid,
          new_entry-fills read_bytes stack fs_fat four bytes fuel
              (dir_entry_at buf (j * entry_size)) d ne short,
        )
        refl

  loop_skip :
      (fuel n j : ℕ) (buf : Memory) (cur num : ℕ) (d : Dirs)
      → is_end (dir_entry_at buf (j * entry_size)) ≡ false
      → is_valid (dir_entry_at buf (j * entry_size)) ≡ false
      → loop fuel (suc n) j buf cur num d ≡ loop fuel n (suc j) buf cur num d
  unfolding root_entries
  loop_skip fuel n j buf cur num d go skip = rw (go, skip) refl

  loop_stop :
      (fuel n j : ℕ) (buf : Memory) (cur num : ℕ) (d : Dirs)
      → is_end (dir_entry_at buf (j * entry_size)) ≡ true
      → loop fuel (suc n) j buf cur num d ≡ returns (true, cur, num, d)
  unfolding root_entries
  loop_stop fuel n j buf cur num d stop = rw stop refl

  Built-round :
      (d : Dirs) (ks : List DirectoryEntry) (ps free rest : List ℕ) (e : DirectoryEntry)
      → Built root ks ps free d
      → free ≡ d.free ∷ rest
      → Built root (ks ++ (e ∷ [])) (ps ++ (d.free ∷ [])) rest (round d (last root ps) e)
  unfolding filled
  Built-round d ks ps free rest e built split =
      Built-step d root d.free (filled read_bytes stack fs_fat four bytes (d.store d.free) e) ks ps
        rest (subst (λ (l : List ℕ). Built root ks ps l d) split built) refl

  -- The same run, with the last entry and the count as they are after the round.
  Grows-round :
      (fuel n j p : ℕ) (buf : Memory) (d : Dirs) (ks new : List DirectoryEntry) (e : DirectoryEntry)
      (ps free rest : List ℕ) (stopped : Bool)
      → free ≡ p ∷ rest
      → Grows
          (ks ++ (e ∷ []))
          rest
          new
          stopped
          (loop fuel n j buf (last root (ps ++ (p ∷ []))) (length (ks ++ (e ∷ []))) d)
      → Grows ks free (e ∷ new) stopped (loop fuel n j buf p (suc (length ks)) d)
  Grows-round fuel n j p buf d ks new e ps free rest stopped split grows =
      let count : length (ks ++ (e ∷ [])) ≡ suc (length ks) =
        omega (arith, length-append ks (e ∷ [])) in
      Grows-more ks new e free rest p stopped (loop fuel n j buf p (suc (length ks)) d) split (
        subst (λ (k : ℕ). Grows (ks ++ (e ∷ [])) rest new stopped (loop fuel n j buf p k d)) count
          (subst
            (λ (c : ℕ).
              Grows (ks ++ (e ∷ [])) rest new stopped
                (loop fuel n j buf c (length (ks ++ (e ∷ []))) d))
            (last-snoc root p ps) grows))

  pub root_entries-Built :
      (fuel n j : ℕ) (buf : Memory) (d : Dirs) (ks : List DirectoryEntry) (ps free : List ℕ)
      → Built root ks ps free d
      → length (kept (entries_of n j buf)) ≤ length free
      → All IsShort (kept (entries_of n j buf))
      → Grows ks free
          (kept (entries_of n j buf))
          (has_end (entries_of n j buf))
          (loop fuel n j buf (last root ps) (length ks) d)
  unfolding entries_of
  root_entries-Built fuel zero j buf d ks ps free built enough short =
      unfold root_entries in Grows-none d ks ps free false built
  root_entries-Built fuel (suc n) j buf d ks ps free built enough short =
      let e = dir_entry_at buf (j * entry_size) in
      let new = kept (entries_of n (suc j) buf) in
      let stopped = has_end (entries_of n (suc j) buf) in
      elim (Bool-cases (ends e)) [
        | inl stop ↦
            rw (stop, loop_stop fuel n j buf (last root ps) (length ks) d (is_end-ends e ∙ stop))
              (Grows-none d ks ps free true built)
        | inr go ↦
            let running = is_end-ends e ∙ go in
            elim (Bool-cases (deleted e)) [
              | inl skip ↦
                  let invalid = is_valid-deleted e go ∙ ap not skip in
                  rw (go, skip, loop_skip fuel n j buf (last root ps) (length ks) d running invalid)
                    (root_entries-Built fuel n (suc j) buf d ks ps free built
                      (ground (arith, go, skip, enough)) (rw (go, skip) at short))
              | inr keep ↦
                  let valid = is_valid-deleted e go ∙ ap not keep in
                  let all : All IsShort (e ∷ new) = rw (go, keep) at short in
                  let more : suc (length new) ≤ length free = ground (arith, go, keep, enough) in
                  let (rest, split, ne) = first_free d ks ps free built (omega (arith, more)) in
                  let ih =
                    root_entries-Built fuel n (suc j) buf (round d (last root ps) e)
                      (ks ++ (e ∷ [])) (ps ++ (d.free ∷ [])) rest
                      (Built-round d ks ps free rest e built split)
                      (omega (arith, more, ap length split)) all.1 in
                  rw
                    (
                      go,
                      keep,
                      loop-round fuel n j buf (last root ps) (length ks) d running valid ne all.0,
                    )
                    (Grows-round fuel n (suc j) d.free buf (round d (last root ps) e) ks new e ps
                      free rest stopped split ih)
            ]
      ]
