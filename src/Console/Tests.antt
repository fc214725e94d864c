-- ===== src/Console/Tests.antt =====
-- src/kernel/console.c: runs on small screens, and the theorems at such screens.
use aneasyos.Base.{◌≡◌, refl, inr, some, [], ◌∷◌, arith, update}
use aneasyos.Console.{Console, Screen, scr_dn, blank_console, out_char, tty_write, scroll_screen}
use aneasyos.Console.Placed.{IsPlaced, scroll_screen-IsPlaced}
use aneasyos.Console.OutChar.{moved_cursor, moved_along, out_char_confined, tty_write_ends}

-- The second console, with the cursor on the last line of its visible part.
abbrev low_cursor : Console
low_cursor = record {
  current_start_addr = 5461;
  original_addr = 5461;
  v_mem_limit = 5461;
  cursor = 7460;
}

abbrev screen : Screen
screen = record {
  console_table = update blank_console 1 low_cursor;
  nr_current_console = 1;
  vmem = λ i. 0;
  crtc = λ i. 0;
  disp_pos = 160;
}

low_cursor-IsPlaced : IsPlaced (screen.console_table 1)
low_cursor-IsPlaced = omega arith

-- A newline there scrolls by one line.
newline_scrolls :
    (moved_cursor (screen.console_table 1) b'\n' ≡ 7461)
    × (moved_cursor (screen.console_table 1) 8 ≡ 7459)
    × (moved_cursor (screen.console_table 1) b'A' ≡ 7461)
unfolding moved_cursor
newline_scrolls = (refl, refl, refl)

scroll_screen-IsPlaced_example : IsPlaced ((scroll_screen 1 scr_dn screen).console_table 1)
scroll_screen-IsPlaced_example = scroll_screen-IsPlaced 1 scr_dn screen low_cursor-IsPlaced

-- The first byte behind the second console's part.
out_char_confined_example :
    (t : Screen) × (out_char 1 b'A' screen ≡ some t)
    × (t.vmem 21844 ≡ screen.vmem 21844)
    × (t.console_table 2 ≡ screen.console_table 2)
out_char_confined_example =
    out_char_confined 1 b'A' 21844 2 screen low_cursor-IsPlaced (inr (omega arith)) (omega arith)

tty_write_ends_example :
    (t : Screen) × (tty_write 1 (b'O' ∷ b'K' ∷ b'\n' ∷ []) screen ≡ some t)
    × IsPlaced (t.console_table 1)
    × ((t.console_table 1).cursor
        ≡ (moved_along (screen.console_table 1) (b'O' ∷ b'K' ∷ b'\n' ∷ [])).cursor)
    × (t.console_table 0 ≡ screen.console_table 0)
tty_write_ends_example =
    tty_write_ends 1 0 (b'O' ∷ b'K' ∷ b'\n' ∷ []) screen low_cursor-IsPlaced (omega arith)
