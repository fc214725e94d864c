-- ===== src/Fs/Names/InBuffer.antt =====
-- src/fs/fat.c: the short names that fit into the buffer of an entry.
use aneasyos.Base.{
  ℕ, ◌+◌, ◌<◌, ◌≤◌, ◌≡◌, refl, ◌∙◌, ◌⊎◌, inl, inr, Option, none, some, Bool-cases, ltb,
  if◌then◌else◌, true, arith, update, update_ne,
}
use aneasyos.Text.{Memory}
use aneasyos.Text.Buffers.{patch, patch_outside}
use aneasyos.Base.Flags.{has_flag}
use aneasyos.Fs.{DirectoryEntry, attr_directory}
use aneasyos.Fs.Names.{get_83_name, outside, short_name}
use aneasyos.Fs.Names.Short.{Padded, named, extended, get_83_name_file, get_83_name_directory}

-- The names that `get_83_name` can put into the buffer of an entry: shorter than eight characters, and
-- that of a file shorter than four or with an extension shorter than three.
abbrev pub IsShort : DirectoryEntry → Type 0
IsShort pde =
    (n : ℕ) × (e : ℕ) × Padded pde.short_file_name n e
    × (e ≤ 3)
    × (n < 8)
    × ((has_flag pde.file_attr attr_directory ≡ true) ⊎ (e < 3) ⊎ (n < 4))

abbrev or_else : Option (ℕ → ℕ) → (ℕ → ℕ) → (ℕ → ℕ)
or_else none old = old
or_else (some mem) old = mem

some-or_else : (o : Option (ℕ → ℕ)) (mem old : ℕ → ℕ) → o ≡ some mem → o ≡ some (or_else o old)
some-or_else none mem old e = absurd (ground (arith, e))
some-or_else (some m) mem old e = refl

-- The buffer afterwards.
abbrev pub written : (ℕ → ℕ) → DirectoryEntry → (ℕ → ℕ)
written old pde = or_else (short_name old pde) old

module _ (old : ℕ → ℕ) (pde : DirectoryEntry) (n e : ℕ) (padded : Padded pde.short_file_name n e)
    (three : e ≤ 3) (h : n < 8) where
  abbrev room : Memory
  room i = if ltb i 13 then old i else outside

  room_file :
      (a : ℕ)
      → 13 ≤ a
      → update (extended room 0 n e pde.short_file_name padded) (0 + n + 1 + e) 0 a ≡ outside
  room_file a behind =
      let f = pde.short_file_name in
      let named' = patch room 0 f 8 in
      update_ne (extended room 0 n e f padded) (0 + n + 1 + e) 0 a
        (ground (arith, behind, h, three))
      ∙ patch_outside (update named' (0 + n) b'.') (0 + n + 1) (λ j. f (8 + j)) 3 a
          (inr (omega (arith, behind, h)))
      ∙ update_ne named' (0 + n) b'.' a (ground (arith, behind, h))
      ∙ patch_outside room 0 f 8 a (inr (omega (arith, behind)))
      ∙ ground (arith, behind)

  room_directory :
      (a : ℕ) → 13 ≤ a → update (named room 0 n e pde.short_file_name padded) (0 + n) 0 a ≡ outside
  room_directory a behind =
      let f = pde.short_file_name in
      update_ne (named room 0 n e f padded) (0 + n) 0 a (ground (arith, behind, h))
      ∙ patch_outside room 0 f 8 a (inr (omega (arith, behind)))
      ∙ ground (arith, behind)

  short_name_in_room :
      (mem : Memory)
      → get_83_name 13 room 0 pde ≡ some mem
      → ((a : ℕ) → 13 ≤ a → mem a ≡ outside)
      → short_name old pde ≡ some mem
  unfolding short_name
  short_name_in_room mem e same =
      rw (e, same 13 (omega arith), same 14 (omega arith), same 15 (omega arith)) refl

  short_name-some :
      ((has_flag pde.file_attr attr_directory ≡ true) ⊎ (e < 3) ⊎ (n < 4))
      → (mem : Memory) × (short_name old pde ≡ some mem)
  short_name-some short = elim (Bool-cases (has_flag pde.file_attr attr_directory)) [
    | inl is_dir ↦
        let mem = update (named room 0 n e pde.short_file_name padded) (0 + n) 0 in
        (
          mem,
          short_name_in_room mem
              (get_83_name_directory room 0 n e 13 pde is_dir padded h (omega arith))
              room_directory,
        )
    | inr is_file ↦
        let mem = update (extended room 0 n e pde.short_file_name padded) (0 + n + 1 + e) 0 in
        let ends : (e < 3) × (n < 8) ⊎ (e ≡ 3) × (n < 4) =
          ground (arith, short, is_file, three, h) in
        (
          mem,
          short_name_in_room mem
              (get_83_name_file room 0 n e 13 pde is_file padded three ends (omega arith))
              room_file,
        )
  ]

pub short_name-written :
    (old : ℕ → ℕ) (pde : DirectoryEntry) → IsShort pde → short_name old pde ≡ some (written old pde)
short_name-written old pde (n, e, padded, three, h, short) =
    let (mem, eq) = short_name-some old pde n e padded three h short in
    some-or_else (short_name old pde) mem old eq
