-- ===== src/Console/Select.antt =====
-- src/kernel/console.c: `init_screen` and `select_console`.
use aneasyos.Base.{ℕ, zero, suc, ◌+◌, ◌*◌, ◌/◌, ◌<◌, ◌≤◌, ◌≡◌, refl, ◌⊎◌, some, arith, update_self}
use aneasyos.Base.Word.{word}
use aneasyos.Console.{
  Screen, nr_consoles, v_mem_words, blank_console, set_console, set_cursor, out_char, init_first,
  init_screen, select_console,
}
use aneasyos.Console.Placed.{IsPlaced}
use aneasyos.Console.OutChar.{Shows, out_char_kept}

blank_console-IsPlaced : (nr : ℕ) → nr < nr_consoles → IsPlaced (blank_console nr)
blank_console-IsPlaced nr h = omega arith

abbrev Initialised : ℕ → Screen → Type 0
Initialised nr t =
    IsPlaced (t.console_table nr)
    × ((t.console_table nr).original_addr ≡ nr * (v_mem_words / nr_consoles))
    × ((t.console_table nr).v_mem_limit ≡ v_mem_words / nr_consoles)

init_text :
    (nr a b : ℕ) (s : Screen)
    → Initialised nr s
    → (t u : Screen) × (out_char nr a s ≡ some t) × (out_char nr b t ≡ some u) × Initialised nr u
init_text nr a b s (v, o, l) =
    let (t, et, vt, ot, lt) = out_char_kept nr a s v in
    let (u, eu, vu, ou, lu) = out_char_kept nr b t vt in
    (t, u, et, eu, (vu, omega (arith, o, ot, ou), omega (arith, l, lt, lu)))

-- `init_screen` returns for each of the three terminals, given a boot text that ends in the first
-- third of the video memory. The console is then in its place, and it is the third of the memory
-- that its number says, so that the three consoles share no word.
pub init_screen_ends :
    (nr : ℕ) (s : Screen)
    → nr < nr_consoles
    → s.disp_pos / 2 < v_mem_words / nr_consoles
    → (t : Screen) × (init_screen nr s ≡ some t)
      × IsPlaced (t.console_table nr)
      × ((t.console_table nr).original_addr ≡ nr * (v_mem_words / nr_consoles))
      × ((t.console_table nr).v_mem_limit ≡ v_mem_words / nr_consoles)
unfolding init_screen
init_screen_ends zero s h d =
    let v : Initialised 0 (init_first 0 s) = omega arith in (init_first 0 s, refl, v.0, v.1, v.2)
init_screen_ends (suc n) s h d =
    let blank = set_console (suc n) (blank_console (suc n)) s in
    let placed : Initialised (suc n) blank =
      rw (update_self s.console_table (suc n) (blank_console (suc n)))
        (blank_console-IsPlaced (suc n) h, refl, refl) in
    let (t, u, et, eu, (v, o, l)) = init_text (suc n) (suc n + b'0') b'#' blank placed in
    (set_cursor (u.console_table (suc n)).cursor u, ground (arith, et, eu), v, o, l)

-- `select_console` of the number of a console makes it the current one, and the registers of the
-- CRT controller show it; any other int changes nothing.
pub select_console_range :
    (nr : ℕ) (s : Screen)
    → nr < word
    → IsPlaced (s.console_table nr)
    → ((nr < nr_consoles)
        × ((select_console nr s).nr_current_console ≡ nr)
        × Shows (select_console nr s) nr)
      ⊎ ((nr_consoles ≤ nr) × (select_console nr s ≡ s))
unfolding select_console
select_console_range nr s h v = ground arith
