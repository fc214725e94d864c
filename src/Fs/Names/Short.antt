-- ===== src/Fs/Names/Short.antt =====
-- src/fs/fat.c: the short name of a file.
use aneasyos.Base.{
  ℕ, zero, suc, ◌+◌, ◌<◌, ◌≤◌, ◌≡◌, ◌≢◌, refl, ap, ◌∙◌, ◌⊎◌, sym, inl, inr, some, true, false,
  arith, ◌==◌, update, update_self, update_ne,
}
use aneasyos.Text.{Memory}
use aneasyos.Text.Buffers.{patch, copy_in-patch, patch_inside, patch_outside}
use aneasyos.Base.Flags.{has_flag}
use aneasyos.Fs.{DirectoryEntry, attr_directory}
use aneasyos.Fs.Names.{find_space, get_83_name}

find_space_at :
    (n fuel : ℕ) (mem : Memory) (buf : ℕ)
    → n < fuel
    → ((i : ℕ) → i < n → mem (buf + i) ≢ b' ')
    → mem (buf + n) ≡ b' '
    → find_space fuel mem buf ≡ some (buf + n)
unfolding find_space
find_space_at n zero mem buf h letters space = absurd (omega (arith, h))
find_space_at zero (suc fuel) mem buf h letters space =
    let same : buf + 0 ≡ buf = omega arith in
    let here : (mem buf == b' ') ≡ true = ground (arith, space, ap mem same) in
    rw here (ap some (sym same))
find_space_at (suc n) (suc fuel) mem buf h letters space =
    let same : buf + 0 ≡ buf = omega arith in
    let here : (mem buf == b' ') ≡ false = ground (arith, ap mem same, letters 0 (omega arith)) in
    let move : (i : ℕ) → mem (buf + 1 + i) ≡ mem (buf + suc i) = λ i. ap mem (omega arith) in
    rw here (
      find_space_at n fuel mem (buf + 1) (omega (arith, h))
        (λ i hi e. letters (suc i) (omega (arith, hi)) (sym (move i) ∙ e)) (move n ∙ space)
      ∙ ap some (omega arith))

-- The name has `n` letters and is filled up to eight by spaces, the extension has `e` of three.
pub record Padded (f : ℕ → ℕ) (n e : ℕ) : Type 0 where
  pub letters : (i : ℕ) → i < n → f i ≢ b' '
  pub spaces : (i : ℕ) → n ≤ i → i < 8 → f i ≡ b' '
  pub ext : (i : ℕ) → i < e → f (8 + i) ≢ b' '
  pub ext_spaces : (i : ℕ) → e ≤ i → i < 3 → f (8 + i) ≡ b' '

-- At `buf` stands the name, a dot, the extension and NUL.
pub record Joined (mem : Memory) (buf : ℕ) (f : ℕ → ℕ) (n e : ℕ) : Type 0 where
  pub name : (i : ℕ) → i < n → mem (buf + i) ≡ f i
  pub dot : mem (buf + n) ≡ b'.'
  pub ext : (i : ℕ) → i < e → mem (buf + n + 1 + i) ≡ f (8 + i)
  pub stop : mem (buf + n + 1 + e) ≡ 0

module _ (mem : Memory) (buf n e : ℕ) (f : ℕ → ℕ) (padded : Padded f n e) where
  abbrev pub named : Memory
  named = patch mem buf f 8

  abbrev pub extended : Memory
  extended = patch (update named (buf + n) b'.') (buf + n + 1) (λ i. f (8 + i)) 3

  named_at : (i : ℕ) → i < 8 → named (buf + i) ≡ f i
  named_at i h = patch_inside mem buf f 8 i h

  extended_at : (i : ℕ) → i < 3 → extended (buf + n + 1 + i) ≡ f (8 + i)
  extended_at i h = patch_inside (update named (buf + n) b'.') (buf + n + 1) (λ j. f (8 + j)) 3 i h

  extended_dot : extended (buf + n) ≡ b'.'
  extended_dot =
      patch_outside (update named (buf + n) b'.') (buf + n + 1) (λ j. f (8 + j)) 3 (buf + n)
        (inl (omega arith))
      ∙ update_self named (buf + n) b'.'

  extended_name : (i : ℕ) → i < 8 → (i < n) ⊎ (n + 4 ≤ i) → extended (buf + i) ≡ f i
  extended_name i h out =
      patch_outside (update named (buf + n) b'.') (buf + n + 1) (λ j. f (8 + j)) 3 (buf + i)
        (ground (arith, out))
      ∙ update_ne named (buf + n) b'.' (buf + i) (ground (arith, out))
      ∙ named_at i h

  dot_found : (fuel : ℕ) → n < 8 → 8 ≤ fuel → find_space fuel named buf ≡ some (buf + n)
  dot_found fuel h enough =
      find_space_at n fuel named buf (omega (arith, h, enough))
        (λ i hi eq. padded.letters i hi (sym (named_at i (omega (arith, hi, h))) ∙ eq))
        (named_at n h ∙ padded.spaces n (omega arith) h)

  -- The space that ends the extension: its own filling, or that of the name.
  space_after : (e < 3) × (n < 8) ⊎ (e ≡ 3) × (n < 4) → extended (buf + n + 1 + e) ≡ b' '
  space_after (inl (short, h)) = extended_at e short ∙ padded.ext_spaces e (omega arith) short
  space_after (inr (full, h)) =
      let at : buf + n + 1 + e ≡ buf + (n + 4) = omega (arith, full) in
      ap extended at
      ∙ extended_name (n + 4) (omega (arith, h)) (inr (omega arith))
      ∙ padded.spaces (n + 4) (omega arith) (omega (arith, h))

  stop_found :
      (fuel : ℕ)
      → e ≤ 3
      → (e < 3) × (n < 8) ⊎ (e ≡ 3) × (n < 4)
      → 8 ≤ fuel
      → find_space fuel extended (buf + n + 1) ≡ some (buf + n + 1 + e)
  stop_found fuel three short enough =
      find_space_at e fuel extended (buf + n + 1) (omega (arith, three, enough))
        (λ i hi eq. padded.ext i hi (sym (extended_at i (omega (arith, hi, three))) ∙ eq))
        (space_after short)

pub get_83_name_file :
    (mem : Memory) (buf n e fuel : ℕ) (pde : DirectoryEntry)
    → has_flag pde.file_attr attr_directory ≡ false
    → (padded : Padded pde.short_file_name n e) → e ≤ 3
    → (e < 3) × (n < 8) ⊎ (e ≡ 3) × (n < 4)
    → 8 ≤ fuel
    → get_83_name fuel mem buf pde
      ≡ some (update (extended mem buf n e pde.short_file_name padded) (buf + n + 1 + e) 0)
unfolding get_83_name
get_83_name_file mem buf n e fuel pde is_file padded three short enough =
    let f = pde.short_file_name in
    let h : n < 8 = ground (arith, short) in
    rw
      (
        copy_in-patch mem buf f 8,
        dot_found mem buf n e f padded fuel h enough,
        is_file,
        copy_in-patch (update (named mem buf n e f padded) (buf + n) b'.') (buf + n + 1)
            (λ i. f (8 + i)) 3,
        stop_found mem buf n e f padded fuel three short enough,
      )
      refl

pub get_83_name_directory :
    (mem : Memory) (buf n e fuel : ℕ) (pde : DirectoryEntry)
    → has_flag pde.file_attr attr_directory ≡ true
    → (padded : Padded pde.short_file_name n e) → n < 8
    → 8 ≤ fuel
    → get_83_name fuel mem buf pde
      ≡ some (update (named mem buf n e pde.short_file_name padded) (buf + n) 0)
unfolding get_83_name
get_83_name_directory mem buf n e fuel pde is_dir padded h enough =
    let f = pde.short_file_name in
    rw (copy_in-patch mem buf f 8, dot_found mem buf n e f padded fuel h enough, is_dir) refl

-- `get_83_name` of a file returns its name, a dot, its extension and NUL, when the extension is
-- shorter than three characters and the name shorter than eight, or the extension has three
-- characters and the name is shorter than four.
pub get_83_name-Joined :
    (mem : Memory) (buf n e fuel : ℕ) (pde : DirectoryEntry)
    → has_flag pde.file_attr attr_directory ≡ false
    → Padded pde.short_file_name n e
    → e ≤ 3
    → (e < 3) × (n < 8) ⊎ (e ≡ 3) × (n < 4)
    → 8 ≤ fuel
    → (mem' : Memory) × (get_83_name fuel mem buf pde ≡ some mem')
      × Joined mem' buf pde.short_file_name n e
get_83_name-Joined mem buf n e fuel pde is_file padded three short enough =
    let f = pde.short_file_name in
    let end = extended mem buf n e f padded in
    let h : n < 8 = ground (arith, short) in
    let at = buf + n + 1 + e in
    (
      update end at 0,
      get_83_name_file mem buf n e fuel pde is_file padded three short enough,
      record {
        name = λ i hi.
            update_ne end at 0 (buf + i) (omega (arith, hi))
            ∙ extended_name mem buf n e f padded i (omega (arith, hi, h)) (inl hi);
        dot = update_ne end at 0 (buf + n) (omega arith) ∙ extended_dot mem buf n e f padded;
        ext = λ i hi.
            update_ne end at 0 (buf + n + 1 + i) (omega (arith, hi))
            ∙ extended_at mem buf n e f padded i (omega (arith, hi, three));
        stop = update_self end at 0;
      },
    )
