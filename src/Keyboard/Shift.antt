-- ===== src/Keyboard/Shift.antt =====
-- src/kernel/keyboard.c: the state of a shift key follows its scan codes.
use aneasyos.Base.{
  ℕ, ◌+◌, ◌*◌, ◌%◌, ◌<◌, ◌≡◌, refl, sym, subst, ◌∙◌, inl, inr, Bool, true, false, not, ◌||◌, List,
  [], ◌∷◌, arith, ◌==◌, if◌then◌else◌, Bool-cases, holds_below, holds_at,
}
use aneasyos.Base.Lists.{get_or, All}
use aneasyos.Base.Flags.{has_flag}
use aneasyos.Keyboard.{Modifiers, Code, track, decode, keymap_column, map_cols, flag_break}
use aneasyos.Keyboard.Keymap.{keymap}

-- A byte that stands for itself.
abbrev plain : ℕ → Code
plain b = record { key = 0; scan_code = b; code_with_E0 = false }

-- The modifiers after the bytes, one decoded after another.
pub decoded : List ℕ → Modifiers → Modifiers
decoded [] mods = mods
decoded (b ∷ bs) mods = decoded bs (decode (plain b) mods).0

-- Whether the left shift key is down after the bytes: 0x2A presses it and 0xAA releases it.
pub left_down : List ℕ → Bool → Bool
left_down [] down = down
left_down (b ∷ bs) down =
    left_down bs (if b == 0x2a then true else if b == 0xaa then false else down)

is_left : ℕ → ℕ → Bool
is_left column b =
    (if get_or keymap (b % 0x80 * map_cols + column) 0 == 0x108 then 1 else 0)
    == (if (b == 0x2a) || (b == 0xaa) then 1 else 0)

left_table : (holds_below (is_left 0) 256 ≡ true) × (holds_below (is_left 1) 256 ≡ true)
unfolding holds_below is_left
left_table = (refl, refl)

track-shift_l :
    (key : ℕ) (make : Bool) (mods : Modifiers)
    → (track key make mods).shift_l ≡ (if key == 0x108 then make else mods.shift_l)
unfolding track
track-shift_l key make mods = ground arith

left_key :
    (column b : ℕ)
    → is_left column b ≡ true
    → (get_or keymap (b % 0x80 * map_cols + column) 0 == 0x108) ≡ ((b == 0x2a) || (b == 0xaa))
unfolding is_left
left_key column b e =
    from (get_or keymap (b % 0x80 * map_cols + column) 0 == 0x108) ((b == 0x2a) || (b == 0xaa)) e
  where
    from : (x y : Bool) → ((if x then 1 else 0) == (if y then 1 else 0)) ≡ true → x ≡ y
    from x y e = ground arith

column_key :
    (b : ℕ) (mods : Modifiers)
    → b < 256
    → (get_or keymap (b % 0x80 * map_cols + keymap_column mods false) 0 == 0x108)
      ≡ ((b == 0x2a) || (b == 0xaa))
unfolding keymap_column
column_key b mods h = elim (Bool-cases (mods.shift_l || mods.shift_r)) [
  | inl e ↦ rw e (left_key 1 b (holds_at (is_left 1) h left_table.1))
  | inr e ↦ rw e (left_key 0 b (holds_at (is_left 0) h left_table.0))
]

make_left :
    (b : ℕ) (down : Bool)
    → (if (b == 0x2a) || (b == 0xaa) then not (has_flag b flag_break) else down)
      ≡ (if b == 0x2a then true else if b == 0xaa then false else down)
make_left b down = ground arith

-- One byte moves the state of the left shift key as it should.
decode_step :
    (b : ℕ) (mods : Modifiers)
    → b < 256
    → ((decode (plain b) mods).0).shift_l
      ≡ (if b == 0x2a then true else if b == 0xaa then false else mods.shift_l)
unfolding decode
decode_step b mods h =
    let key = get_or keymap (b % 0x80 * map_cols + keymap_column mods false) 0 in
    track-shift_l key (not (has_flag b flag_break)) mods
    ∙ subst
        (λ z.
          (if z then not (has_flag b flag_break) else mods.shift_l)
          ≡ (if b == 0x2a then true else if b == 0xaa then false else mods.shift_l))
        (sym (column_key b mods h)) (make_left b mods.shift_l)

-- Over any bytes other than the prefixes, each decoded by itself, the left shift key counts as
-- pressed exactly when the last of its two scan codes was the pressing one.
pub shift_tracked :
    (bs : List ℕ) (mods : Modifiers)
    → All (λ b. b < 256) bs
    → (decoded bs mods).shift_l ≡ left_down bs mods.shift_l
unfolding decoded left_down
shift_tracked [] mods h = refl
shift_tracked (b ∷ bs) mods (h, hs) =
    rw (← decode_step b mods h) (shift_tracked bs (decode (plain b) mods).0 hs)
