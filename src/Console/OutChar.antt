-- ===== src/Console/OutChar.antt =====
-- src/kernel/console.c: `out_char` as a whole, and `tty_write` over it.
use Prim.Native.Nat.{min, max}
use aneasyos.Base.{
  ℕ, suc, ◌+◌, ◌-◌, ◌*◌, ◌/◌, ◌<◌, ◌≤◌, ◌≡◌, refl, ◌∙◌, ◌≢◌, ◌⊎◌, some, List, [], ◌∷◌, arith, ltb,
  ◌==◌, if◌then◌else◌,
}
use aneasyos.Console.{
  Console, Screen, screen_width, screen_size, default_char_color, put_glyph, flush, out_char,
  tty_write,
}
use aneasyos.Console.Placed.{IsPlaced, flush-Untouched, console-flush}
use aneasyos.Console.Scroll.{scroll_to_cursor_ends}

-- Where the cursor goes: to the start of the next line if there is one, one back but not before the
-- console's part of the memory, or one on but not past its end.
unfoldable pub moved_cursor : Console → ℕ → ℕ
moved_cursor con ch =
    if ch == b'\n'
    then (if ltb (con.cursor + screen_width) (con.original_addr + con.v_mem_limit)
        then con.original_addr
          + screen_width * ((con.cursor - con.original_addr) / screen_width + 1)
        else con.cursor)
    else (if ch == 8
        then max con.original_addr (con.cursor - 1)
        else min (con.cursor + 1) (con.original_addr + con.v_mem_limit - 1))

-- The bytes of the video memory that belong to a console.
abbrev pub IsOutside : Console → ℕ → Type 0
IsOutside con i = (i < con.original_addr * 2) ⊎ ((con.original_addr + con.v_mem_limit) * 2 ≤ i)

put_glyph-cursor :
    (c ch : ℕ) (s : Screen)
    → IsPlaced (s.console_table c)
    → (put_glyph c ch s).console_table c
      ≡ record (s.console_table c) { cursor = moved_cursor (s.console_table c) ch }
unfolding put_glyph moved_cursor
put_glyph-cursor c ch s v = ground arith

moved_cursor-IsPlaced :
    (con : Console) (ch : ℕ) → IsPlaced con → IsPlaced (record con { cursor = moved_cursor con ch })
unfolding moved_cursor
moved_cursor-IsPlaced con ch v = ground arith

put_glyph-others :
    (c ch j : ℕ) (s : Screen) → j ≢ c → (put_glyph c ch s).console_table j ≡ s.console_table j
unfolding put_glyph
put_glyph-others c ch j s h = ground arith

put_glyph-current :
    (c ch : ℕ) (s : Screen) → (put_glyph c ch s).nr_current_console ≡ s.nr_current_console
unfolding put_glyph
put_glyph-current c ch s = ground arith

put_glyph-outside :
    (c ch i : ℕ) (s : Screen)
    → IsPlaced (s.console_table c)
    → IsOutside (s.console_table c) i
    → (put_glyph c ch s).vmem i ≡ s.vmem i
unfolding put_glyph
put_glyph-outside c ch i s v out = ground arith

put_glyph-cell :
    (c ch : ℕ) (s : Screen)
    → IsPlaced (s.console_table c)
    → ch ≢ b'\n'
    → ch ≢ 8
    → (s.console_table c).cursor + 1
      < (s.console_table c).original_addr + (s.console_table c).v_mem_limit
    → ((put_glyph c ch s).vmem ((s.console_table c).cursor * 2) ≡ ch)
      × ((put_glyph c ch s).vmem ((s.console_table c).cursor * 2 + 1) ≡ default_char_color)
unfolding put_glyph
put_glyph-cell c ch s v n b h = ground arith

-- The CRT controller shows the console: its cursor and start registers hold the console's.
abbrev pub Shows : Screen → ℕ → Type 0
Shows s c =
    (s.crtc 0xe * 0x100 + s.crtc 0xf ≡ (s.console_table c).cursor)
    × (s.crtc 0xc * 0x100 + s.crtc 0xd ≡ (s.console_table c).current_start_addr)

flush-Shows :
    (c : ℕ) (s : Screen)
    → IsPlaced (s.console_table c)
    → c ≡ s.nr_current_console
    → Shows (flush c s) c
unfolding flush
flush-Shows c s v e = ground arith

-- What `out_char` has done, seen from the consoles and the memory.
record Wrote (c ch : ℕ) (s t : Screen) : Type 0 where
  returned : out_char c ch s ≡ some t
  placed : IsPlaced (t.console_table c)
  visible : (t.console_table c).cursor < (t.console_table c).current_start_addr + screen_size
  cursor : (t.console_table c).cursor ≡ moved_cursor (s.console_table c) ch
  original : (t.console_table c).original_addr ≡ (s.console_table c).original_addr
  limit : (t.console_table c).v_mem_limit ≡ (s.console_table c).v_mem_limit
  memory : t.vmem ≡ (put_glyph c ch s).vmem
  others : (j : ℕ) → j ≢ c → t.console_table j ≡ s.console_table j
  current : t.nr_current_console ≡ s.nr_current_console
  shown : c ≡ s.nr_current_console → Shows t c

out_char-Wrote :
    (c ch : ℕ) (s : Screen) → IsPlaced (s.console_table c) → (t : Screen) × Wrote c ch s t
unfolding out_char
out_char-Wrote c ch s v =
    let g = put_glyph-cursor c ch s v in
    let placed : IsPlaced ((put_glyph c ch s).console_table c) =
      rw g (moved_cursor-IsPlaced (s.console_table c) ch v) in
    let (u, e, d) =
      scroll_to_cursor_ends (suc (s.console_table c).v_mem_limit) c (put_glyph c ch s) placed
        (rw g (omega (arith, v.start_low))) in
    let f = flush-Untouched c u in
    let m = d.untouched in
    let at = console-flush c c u in
    (
      flush c u,
      record {
        returned = rw (e, out_char);
        placed = rw at d.placed;
        visible = rw at d.visible;
        cursor = rw at (ground (arith, m.cursor_same, g));
        original = rw at (ground (arith, m.original_same, g));
        limit = rw at (ground (arith, m.limit_same, g));
        memory = ground (arith, f.vmem_same, m.vmem_same);
        others = λ j h.
            ground (arith, f.others_same j h, m.others_same j h, put_glyph-others c ch j s h);
        current = ground (arith, f.current_same, m.current_same, put_glyph-current c ch s);
        shown = λ e.
            flush-Shows c u d.placed (ground (arith, m.current_same, put_glyph-current c ch s));
      },
    )

-- On a console that is in its place `out_char` returns, for any character. The console is still in
-- its place, its cursor has moved as the character says and is not below the visible part.
pub out_char_ends :
    (c ch : ℕ) (s : Screen)
    → IsPlaced (s.console_table c)
    → (t : Screen) × (out_char c ch s ≡ some t)
      × IsPlaced (t.console_table c)
      × ((t.console_table c).cursor ≡ moved_cursor (s.console_table c) ch)
      × ((t.console_table c).cursor < (t.console_table c).current_start_addr + screen_size)
out_char_ends c ch s v =
    let (t, w) = out_char-Wrote c ch s v in (t, w.returned, w.placed, w.cursor, w.visible)

-- `out_char` on a console that is in its place changes no byte of the video memory outside that
-- console's part, and no other console.
pub out_char_confined :
    (c ch i j : ℕ) (s : Screen)
    → IsPlaced (s.console_table c)
    → IsOutside (s.console_table c) i
    → j ≢ c
    → (t : Screen) × (out_char c ch s ≡ some t)
      × (t.vmem i ≡ s.vmem i)
      × (t.console_table j ≡ s.console_table j)
out_char_confined c ch i j s v out h =
    let (t, w) = out_char-Wrote c ch s v in
    (t, w.returned, ground (arith, w.memory, put_glyph-outside c ch i s v out), w.others j h)

-- A character that is no newline and no backspace is stored at the cursor with the default colour,
-- unless the cursor is on the last word of the console; and where the console is the current one,
-- the registers of the CRT controller hold its new cursor and start.
pub out_char_shown :
    (c ch : ℕ) (s : Screen)
    → IsPlaced (s.console_table c)
    → ch ≢ b'\n'
    → ch ≢ 8
    → (s.console_table c).cursor + 1
      < (s.console_table c).original_addr + (s.console_table c).v_mem_limit
    → c ≡ s.nr_current_console
    → (t : Screen) × (out_char c ch s ≡ some t)
      × (t.vmem ((s.console_table c).cursor * 2) ≡ ch)
      × (t.vmem ((s.console_table c).cursor * 2 + 1) ≡ default_char_color)
      × Shows t c
out_char_shown c ch s v n b h e =
    let (t, w) = out_char-Wrote c ch s v in
    let (glyph, colour) = put_glyph-cell c ch s v n b h in
    (t, w.returned, rw w.memory glyph, rw w.memory colour, w.shown e)

-- What happens to a cursor over a whole text.
unfoldable pub moved_along : Console → List ℕ → Console
moved_along con [] = con
moved_along con (ch ∷ chars) = moved_along (record con { cursor = moved_cursor con ch }) chars

moved_cursor-cong :
    (a b : Console) (ch : ℕ)
    → a.original_addr ≡ b.original_addr
    → a.v_mem_limit ≡ b.v_mem_limit
    → a.cursor ≡ b.cursor
    → moved_cursor a ch ≡ moved_cursor b ch
unfolding moved_cursor
moved_cursor-cong a b ch p q r = ground arith

moved_along-cong :
    (a b : Console) (chars : List ℕ)
    → a.original_addr ≡ b.original_addr
    → a.v_mem_limit ≡ b.v_mem_limit
    → a.cursor ≡ b.cursor
    → (moved_along a chars).cursor ≡ (moved_along b chars).cursor
unfolding moved_along
moved_along-cong a b [] p q r = r
moved_along-cong a b (ch ∷ chars) p q r =
    moved_along-cong (record a { cursor = moved_cursor a ch })
      (record b { cursor = moved_cursor b ch }) chars p q (moved_cursor-cong a b ch p q r)

-- `tty_write` of any text on a console that is in its place returns with the console in its place,
-- the cursor where the characters one after another move it, and every other console as it was.
pub tty_write_ends :
    (c j : ℕ) (chars : List ℕ) (s : Screen)
    → IsPlaced (s.console_table c)
    → j ≢ c
    → (t : Screen) × (tty_write c chars s ≡ some t)
      × IsPlaced (t.console_table c)
      × ((t.console_table c).cursor ≡ (moved_along (s.console_table c) chars).cursor)
      × (t.console_table j ≡ s.console_table j)
unfolding tty_write moved_along
tty_write_ends c j [] s v h = (s, refl, v, refl, refl)
tty_write_ends c j (ch ∷ chars) s v h =
    let (t, w) = out_char-Wrote c ch s v in
    let (u, e, placed, cur, other) = tty_write_ends c j chars t w.placed h in
    (
      u,
      rw (w.returned, tty_write) e,
      placed,
      cur ∙ moved_along-cong _ _ chars w.original w.limit w.cursor,
      other ∙ w.others j h,
    )

-- The same with the console's part of the memory, for a caller that writes several characters.
pub out_char_kept :
    (c ch : ℕ) (s : Screen)
    → IsPlaced (s.console_table c)
    → (t : Screen) × (out_char c ch s ≡ some t)
      × IsPlaced (t.console_table c)
      × ((t.console_table c).original_addr ≡ (s.console_table c).original_addr)
      × ((t.console_table c).v_mem_limit ≡ (s.console_table c).v_mem_limit)
out_char_kept c ch s v =
    let (t, w) = out_char-Wrote c ch s v in (t, w.returned, w.placed, w.original, w.limit)
