-- ===== src/Keyboard.antt =====
-- src/kernel/keyboard.c, src/include/keyboard.h, and `in_process` of src/kernel/tty.c: the input
-- buffer of the keyboard, the decoding of scan codes, and what a key does to a terminal.
-- A scan code is a byte, a key a u32. `code_with_E0` and `column`, which are set before they are
-- read, are local; the lock keys are never read.
pub mod Keymap
pub mod Queue
pub mod Process
pub mod Shift
mod Tests
use mathlib.Core.Option
use aneasyos.Base.{
  ℕ, zero, suc, ◌+◌, ◌-◌, ◌*◌, ◌%◌, Option, none, some, Bool, true, false, ◌&&◌, ◌||◌, not, List,
  [], ◌∷◌, ltb, leb, ◌==◌, ◌!=◌, if◌then◌else◌, update,
}
use aneasyos.Base.Lists.{get_or}
use aneasyos.Base.Word.{sub32}
use aneasyos.Base.Flags.{has_flag, set_flag}
use aneasyos.Base.Options.{◌>>=◌}
use aneasyos.Ring.{next_slot}
use aneasyos.Console.{Screen, scr_up, scr_dn, out_char, scroll_screen, select_console}
use aneasyos.Tty.{Tty, put_key}
use aneasyos.Keyboard.Keymap.{keymap}

abbrev pub kb_in_bytes : ℕ
kb_in_bytes = 32

abbrev pub map_cols : ℕ
map_cols = 3

abbrev pub flag_break : ℕ
flag_break = 0x80

abbrev pub flag_ext : ℕ
flag_ext = 0x100

abbrev pub key_enter : ℕ
key_enter = 0x103

abbrev pub key_backspace : ℕ
key_backspace = 0x104

abbrev pub key_up : ℕ
key_up = 0x125

abbrev pub key_down : ℕ
key_down = 0x126

abbrev pub key_f1 : ℕ
key_f1 = 0x111

abbrev pub key_f12 : ℕ
key_f12 = 0x11c

abbrev pub pausebreak : ℕ
pausebreak = 0x11e

abbrev pub printscreen : ℕ
printscreen = 0x11d

-- KB_INPUT, with the pointers as indices of `buf`
pub record KbInput : Type 0 where
  pub buf : ℕ → ℕ
  pub p_head : ℕ
  pub p_tail : ℕ
  pub count : ℕ

-- The states of the modifier keys.
pub record Modifiers : Type 0 where
  pub shift_l : Bool
  pub shift_r : Bool
  pub alt_l : Bool
  pub alt_r : Bool
  pub ctrl_l : Bool
  pub ctrl_r : Bool

unfoldable pub init_keyboard : KbInput → KbInput × Modifiers
init_keyboard kb = (
  record kb { count = 0; p_head = 0; p_tail = 0 },
  record {
    shift_l = false;
    shift_r = false;
    alt_l = false;
    alt_r = false;
    ctrl_l = false;
    ctrl_r = false;
  },
)

-- `scan_code` is the byte that the port has.
unfoldable pub keyboard_handler : KbInput → ℕ → KbInput
keyboard_handler kb scan_code =
    if ltb kb.count kb_in_bytes
    then record kb {
      buf = update kb.buf kb.p_head scan_code;
      p_head = next_slot kb_in_bytes kb.p_head;
      count = kb.count + 1;
    }
    else kb

-- `none`: the buffer is empty, and the loop goes on waiting.
unfoldable pub get_byte_from_kbuf : KbInput → Option (ℕ × KbInput)
get_byte_from_kbuf kb =
    if ltb 0 kb.count
    then some (
      kb.buf kb.p_tail,
      record kb { p_tail = next_slot kb_in_bytes kb.p_tail; count = kb.count - 1 },
    )
    else none

-- The bytes after the first of a Pause key: the key, or 0 after the first other byte.
unfoldable pub match_pause : List ℕ → KbInput → Option (ℕ × KbInput)
match_pause [] kb = some (pausebreak, kb)
match_pause (code ∷ codes) kb = do
  (b, kb') ← get_byte_from_kbuf kb
  if b == code then match_pause codes kb' else some (0, kb')

-- The two bytes after 0xE0 and the first byte of a PrintScreen key.
unfoldable pub match_print : ℕ → KbInput → Option (ℕ × KbInput)
match_print last kb = do
  (b, kb') ← get_byte_from_kbuf kb
  if b == 0xe0
      then (do
        (c, kb'') ← get_byte_from_kbuf kb'
        some ((if c == last then printscreen else 0), kb''))
      else some (0, kb')

-- What has been read so far: the special key or 0, the scan code, and whether it came after 0xE0.
pub record Code : Type 0 where
  pub key : ℕ
  pub scan_code : ℕ
  pub code_with_E0 : Bool

-- The first part of `keyboard_read`, for a first byte `b`.
unfoldable pub read_code : ℕ → KbInput → Option (Code × KbInput)
read_code b kb =
    if b == 0xe1
    then (do
      (key, kb') ← match_pause (0x1d ∷ 0x45 ∷ 0xe1 ∷ 0x9d ∷ 0xc5 ∷ []) kb
      some (record { key = key; scan_code = b; code_with_E0 = false }, kb'))
    else (if b == 0xe0
        then (do
          (c, kb') ← get_byte_from_kbuf kb
          (key, kb'') ←
              if c == 0x2a
              then match_print 0x37 kb'
              else (if c == 0xb7 then match_print 0xaa kb' else some (0, kb'))
          some (record { key = key; scan_code = c; code_with_E0 = key == 0 }, kb''))
        else some (record { key = 0; scan_code = b; code_with_E0 = false }, kb))

unfoldable pub keymap_column : Modifiers → Bool → ℕ
keymap_column mods after_E0 = if after_E0 then 2 else if mods.shift_l || mods.shift_r then 1 else 0

-- The `switch` over the modifier keys.
unfoldable pub track : ℕ → Bool → Modifiers → Modifiers
track key make mods =
    if key == 0x108
    then record mods { shift_l = make }
    else if key == 0x109
    then record mods { shift_r = make }
    else if key == 0x10a
    then record mods { ctrl_l = make }
    else if key == 0x10b
    then record mods { ctrl_r = make }
    else if key == 0x10d
    then record mods { alt_r = make }
    else if key == 0x10c
    then record mods { alt_l = make }
    else mods

abbrev pub mark : Bool → ℕ → ℕ → ℕ
mark true flag key = set_flag key flag
mark false flag key = key

-- `key |= shift_l? FLAG_SHIFT_L : 0;` and so on
unfoldable pub add_modifiers : Modifiers → ℕ → ℕ
add_modifiers mods key = mark mods.alt_r 0x4000 (
    mark mods.alt_l 0x2000 (
      mark mods.ctrl_r 0x1000
        (mark mods.ctrl_l 0x800 (mark mods.shift_r 0x400 (mark mods.shift_l 0x200 key)))))

-- The second part of `keyboard_read`: the key for `in_process`, if there is one.
unfoldable pub decode : Code → Modifiers → Modifiers × Option ℕ
decode code mods =
    let make = not (has_flag code.scan_code flag_break) in
    let key =
      get_or keymap (code.scan_code % 0x80 * map_cols + keymap_column mods code.code_with_E0) 0 in
    let mods' = track key make mods in
    if code.key == pausebreak || code.key == printscreen
    then (mods, none)
    else (mods', if make then some (add_modifiers mods' key) else none)

-- `in_process`. `none`: `out_char` has not returned.
abbrev pub print_key : Tty → Screen → ℕ → ℕ → Option (Tty × Screen)
print_key t s key ch = do s' ← out_char t.p_console ch s; some (put_key t key, s')

unfoldable pub in_process : Tty → Screen → ℕ → Option (Tty × Screen)
in_process t s key =
    let raw_code = key % 0x200 in
    let with_shift = has_flag key 0x200 || has_flag key 0x400 in
    let with_alt = has_flag key 0x2000 || has_flag key 0x4000 in
    if not (has_flag key flag_ext)
    then print_key t s key (key % 0x100)
    else if raw_code == key_enter
    then print_key t s b'\n' b'\n'
    else if raw_code == key_backspace
    then print_key t s 8 8
    else if raw_code == key_up
    then some (t, if with_shift then scroll_screen t.p_console scr_up s else s)
    else if raw_code == key_down
    then some (t, if with_shift then scroll_screen t.p_console scr_dn s else s)
    else if leb key_f1 raw_code && leb raw_code key_f12
    then some (t, if with_alt then select_console (raw_code - key_f1) s else s)
    else some (t, s)

-- `keyboard_read`. `none`: it waits for another byte of a sequence.
unfoldable pub keyboard_read :
    KbInput × Modifiers → Tty × Screen → Option ((KbInput × Modifiers) × Tty × Screen)
keyboard_read (kb, mods) (t, s) =
    if ltb 0 kb.count
    then (do
      (b, kb') ← get_byte_from_kbuf kb
      (code, kb'') ← read_code b kb'
      let (mods', pressed) = decode code mods
      elim pressed [
        | none ↦ some ((kb'', mods'), t, s)
        | some key ↦ Option.map (λ r. ((kb'', mods'), r.0, r.1)) (in_process t s key)
      ])
    else some ((kb, mods), t, s)
