-- ===== src/Console/Placed.antt =====
-- src/kernel/console.c: where a console may lie, and that scrolling and writing keep it there.
use aneasyos.Base.{ℕ, ◌+◌, ◌-◌, ◌%◌, ◌<◌, ◌≤◌, ◌≡◌, refl, ◌≢◌, arith}
use aneasyos.Console.{
  Console, Screen, Direction, scr_up, scr_dn, screen_width, screen_size, v_mem_words,
  scrolled_start, scroll_screen, flush,
}

-- The console is a part of the video memory, the cursor is in that part, and the visible part
-- starts a whole number of lines after its beginning and not later than its last lines.
pub record IsPlaced (con : Console) : Type 0 where
  pub in_memory : con.original_addr + con.v_mem_limit ≤ v_mem_words
  pub screenful : screen_size ≤ con.v_mem_limit
  pub start_low : con.original_addr ≤ con.current_start_addr
  pub start_high :
      con.current_start_addr + screen_size < con.original_addr + con.v_mem_limit + screen_width
  pub start_line : (con.current_start_addr - con.original_addr) % screen_width ≡ 0
  pub cursor_low : con.original_addr ≤ con.cursor
  pub cursor_high : con.cursor < con.original_addr + con.v_mem_limit

-- What scrolling one console leaves alone.
pub record Untouched (c : ℕ) (s t : Screen) : Type 0 where
  pub vmem_same : t.vmem ≡ s.vmem
  pub current_same : t.nr_current_console ≡ s.nr_current_console
  pub cursor_same : (t.console_table c).cursor ≡ (s.console_table c).cursor
  pub original_same : (t.console_table c).original_addr ≡ (s.console_table c).original_addr
  pub limit_same : (t.console_table c).v_mem_limit ≡ (s.console_table c).v_mem_limit
  pub others_same : (j : ℕ) → j ≢ c → t.console_table j ≡ s.console_table j

pub Untouched-refl : (c : ℕ) (s : Screen) → Untouched c s s
Untouched-refl c s = record {
  vmem_same = refl;
  current_same = refl;
  cursor_same = refl;
  original_same = refl;
  limit_same = refl;
  others_same = λ j h. refl;
}

pub Untouched-trans : {c : ℕ} {s t u : Screen} → Untouched c s t → Untouched c t u → Untouched c s u
Untouched-trans p q = record {
  vmem_same = ground (arith, p.vmem_same, q.vmem_same);
  current_same = ground (arith, p.current_same, q.current_same);
  cursor_same = ground (arith, p.cursor_same, q.cursor_same);
  original_same = ground (arith, p.original_same, q.original_same);
  limit_same = ground (arith, p.limit_same, q.limit_same);
  others_same = λ j h. ground (arith, p.others_same j h, q.others_same j h);
}

scrolled_start-IsPlaced :
    (con : Console) (d : Direction)
    → IsPlaced con
    → IsPlaced (record con { current_start_addr = scrolled_start con d })
unfolding scrolled_start
scrolled_start-IsPlaced con scr_up v = ground arith
scrolled_start-IsPlaced con scr_dn v = ground arith

console-scroll_screen :
    (c : ℕ) (d : Direction) (s : Screen)
    → (scroll_screen c d s).console_table c
      ≡ record (s.console_table c) { current_start_addr = scrolled_start (s.console_table c) d }
unfolding scroll_screen
console-scroll_screen c d s = ground arith

-- Scrolling a console that is in its place keeps it there, in either direction.
pub scroll_screen-IsPlaced :
    (c : ℕ) (d : Direction) (s : Screen)
    → IsPlaced (s.console_table c)
    → IsPlaced ((scroll_screen c d s).console_table c)
scroll_screen-IsPlaced c d s v =
    rw (console-scroll_screen c d s) (scrolled_start-IsPlaced (s.console_table c) d v)

pub scroll_screen-Untouched :
    (c : ℕ) (d : Direction) (s : Screen) → Untouched c s (scroll_screen c d s)
unfolding scroll_screen
scroll_screen-Untouched c d s = record {
  vmem_same = ground arith;
  current_same = ground arith;
  cursor_same = ground arith;
  original_same = ground arith;
  limit_same = ground arith;
  others_same = λ j h. ground arith;
}

-- Scrolling down moves the visible part one line on, where the console goes on below it.
pub scroll_screen_down :
    (c : ℕ) (s : Screen)
    → IsPlaced (s.console_table c)
    → (s.console_table c).current_start_addr + screen_size ≤ (s.console_table c).cursor
    → ((scroll_screen c scr_dn s).console_table c).current_start_addr
      ≡ (s.console_table c).current_start_addr + screen_width
unfolding scrolled_start
scroll_screen_down c s v h = rw (console-scroll_screen c scr_dn s) (ground arith)

pub flush-Untouched : (c : ℕ) (s : Screen) → Untouched c s (flush c s)
unfolding flush
flush-Untouched c s = record {
  vmem_same = ground arith;
  current_same = ground arith;
  cursor_same = ground arith;
  original_same = ground arith;
  limit_same = ground arith;
  others_same = λ j h. ground arith;
}

pub console-flush : (c j : ℕ) (s : Screen) → (flush c s).console_table j ≡ s.console_table j
unfolding flush
console-flush c j s = ground arith
