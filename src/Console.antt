-- ===== src/Console.antt =====
-- src/kernel/console.c and src/include/console.h: the consoles, their part of the video memory, and the
-- registers of the CRT controller. Addresses are u32 and count words of the video memory; `vmem`
-- has its bytes by their offset from V_MEM_BASE. `disable_int` and `enable_int` are left out.
pub mod Placed
pub mod Scroll
pub mod OutChar
pub mod Select
mod Tests
use aneasyos.Base.{
  ℕ, zero, suc, ◌+◌, ◌-◌, ◌*◌, ◌/◌, ◌%◌, Option, none, some, List, [], ◌∷◌, Bool, true, false, ◌||◌,
  ltb, leb, ◌==◌, if◌then◌else◌, update,
}
use aneasyos.Base.Word.{add32, sub32, mul32, slt, sle}

abbrev pub screen_width : ℕ
screen_width = 80

abbrev pub screen_size : ℕ
screen_size = 2000

abbrev pub nr_consoles : ℕ
nr_consoles = 3

abbrev pub default_char_color : ℕ
default_char_color = 7

-- V_MEM_SIZE >> 1
abbrev pub v_mem_words : ℕ
v_mem_words = 0x4000

-- CONSOLE
pub record Console : Type 0 where
  pub current_start_addr : ℕ
  pub original_addr : ℕ
  pub v_mem_limit : ℕ
  pub cursor : ℕ

pub record Screen : Type 0 where
  pub console_table : ℕ → Console
  pub nr_current_console : ℕ
  pub vmem : ℕ → ℕ
  pub crtc : ℕ → ℕ
  pub disp_pos : ℕ

pub data Direction : Type 0 where
  scr_up scr_dn : Direction

unfoldable pub is_current_console : Screen → ℕ → Bool
is_current_console s c = c == s.nr_current_console

-- `out_byte(CRTC_ADDR_REG, reg); out_byte(CRTC_DATA_REG, v);`
abbrev pub crtc_write : ℕ → ℕ → Screen → Screen
crtc_write reg v s = record s { crtc = update s.crtc reg v }

unfoldable pub set_cursor : ℕ → Screen → Screen
set_cursor position s =
    crtc_write 0xf (position % 0x100) (crtc_write 0xe (position / 0x100 % 0x100) s)

unfoldable pub set_video_start_addr : ℕ → Screen → Screen
set_video_start_addr addr s =
    crtc_write 0xd (addr % 0x100) (crtc_write 0xc (addr / 0x100 % 0x100) s)

-- The new start of the visible part.
unfoldable pub scrolled_start : Console → Direction → ℕ
scrolled_start con scr_up =
    if ltb con.original_addr con.current_start_addr
    then sub32 con.current_start_addr screen_width
    else con.current_start_addr
scrolled_start con scr_dn =
    if ltb (add32 con.current_start_addr screen_size) (add32 con.original_addr con.v_mem_limit)
    then add32 con.current_start_addr screen_width
    else con.current_start_addr

abbrev pub set_console : ℕ → Console → Screen → Screen
set_console c con s = record s { console_table = update s.console_table c con }

unfoldable pub scroll_screen : ℕ → Direction → Screen → Screen
unfolding scrolled_start is_current_console set_cursor set_video_start_addr
scroll_screen c direction s =
    let con = record (s.console_table c) {
      current_start_addr = scrolled_start (s.console_table c) direction;
    } in
    let moved = set_console c con s in
    if is_current_console s c
    then set_cursor con.cursor (set_video_start_addr con.current_start_addr moved)
    else moved

unfoldable pub flush : ℕ → Screen → Screen
unfolding is_current_console set_cursor set_video_start_addr
flush c s =
    let con = s.console_table c in
    if is_current_console s c
    then set_video_start_addr con.current_start_addr (set_cursor con.cursor s)
    else s

-- `while (cursor >= current_start_addr + SCREEN_SIZE) scroll_screen(p_con, SCR_DN);` on fuel.
unfoldable pub scroll_to_cursor : ℕ → ℕ → Screen → Option Screen
scroll_to_cursor zero c s = none
scroll_to_cursor (suc fuel) c s =
    let more = scroll_to_cursor fuel c (scroll_screen c scr_dn s) in
    if leb (add32 (s.console_table c).current_start_addr screen_size) (s.console_table c).cursor
    then more
    else some s

-- The `switch` of `out_char`.
unfoldable pub put_glyph : ℕ → ℕ → Screen → Screen
put_glyph c ch s =
    if ch == b'\n'
    then (if ltb con.cursor (sub32 (add32 con.original_addr con.v_mem_limit) screen_width)
        then set_console c (record con { cursor = next_line }) s
        else s)
    else (if ch == 8
        then (if ltb con.original_addr con.cursor
            then (let s' = set_console c (record con { cursor = con.cursor - 1 }) s in
                record s' {
                  vmem =
                      update (update s.vmem (con.cursor * 2 - 2) b' ') (con.cursor * 2 - 1)
                        default_char_color;
                })
            else s)
        else (if ltb con.cursor (sub32 (add32 con.original_addr con.v_mem_limit) 1)
            then (let s' = set_console c (record con { cursor = add32 con.cursor 1 }) s in
                record s' {
                  vmem =
                      update (update s.vmem (con.cursor * 2) ch) (con.cursor * 2 + 1)
                        default_char_color;
                })
            else s))
  where
    con : Console
    con = s.console_table c

    next_line : ℕ
    next_line =
        add32 con.original_addr
          (mul32 screen_width (add32 (sub32 con.cursor con.original_addr / screen_width) 1))

-- `none`: the loop that scrolls to the cursor has not ended after as many rounds as the console
-- has words.
unfoldable pub out_char : ℕ → ℕ → Screen → Option Screen
out_char c ch s =
    let s' = put_glyph c ch s in
    elim (scroll_to_cursor (suc (s.console_table c).v_mem_limit) c s') [
      | none ↦ none
      | some t ↦ some (flush c t)
    ]

-- `tty_write`: `while(i) { out_char(p_console, *p++); i--; }` over the `len` characters of `buf`.
unfoldable pub tty_write : ℕ → List ℕ → Screen → Option Screen
tty_write c [] s = some s
tty_write c (ch ∷ chars) s = elim (out_char c ch s) [ none ↦ none | some t ↦ tty_write c chars t ]

-- The argument is an int.
unfoldable pub select_console : ℕ → Screen → Screen
unfolding set_cursor set_video_start_addr
select_console nr s =
    if slt nr 0 || sle nr_consoles nr
    then s
    else set_video_start_addr (s.console_table nr).current_start_addr
        (set_cursor (s.console_table nr).cursor (record s { nr_current_console = nr }))

-- The console of terminal `nr`, before anything is written to it.
abbrev pub blank_console : ℕ → Console
blank_console nr = record {
  current_start_addr = nr * (v_mem_words / nr_consoles);
  original_addr = nr * (v_mem_words / nr_consoles);
  v_mem_limit = v_mem_words / nr_consoles;
  cursor = nr * (v_mem_words / nr_consoles);
}

-- Terminal 0 goes on where the boot text ends.
unfoldable pub init_first : ℕ → Screen → Screen
unfolding set_cursor
init_first nr s = set_cursor (s.disp_pos / 2) (record s {
  console_table = update s.console_table nr (record (blank_console nr) { cursor = s.disp_pos / 2 });
  disp_pos = 0;
})

-- `init_screen` for the terminal `nr`, whose console is `console_table + nr`.
unfoldable pub init_screen : ℕ → Screen → Option Screen
unfolding init_first set_cursor
init_screen nr s =
    if nr == 0
    then some (init_first nr s)
    else elim (out_char nr (nr + b'0') (set_console nr (blank_console nr) s)) [
      | none ↦ none
      | some t ↦ elim (out_char nr b'#' t) [
        | none ↦ none
        | some u ↦ some (set_cursor (u.console_table nr).cursor u)
      ]
    ]
