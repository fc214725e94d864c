-- ===== src/Console/Scroll.antt =====
-- src/kernel/console.c: the loop of `out_char` that scrolls until the cursor is visible.
use aneasyos.Base.{ℕ, zero, suc, ◌+◌, ◌<◌, ◌≤◌, ◌≡◌, inl, inr, some, arith, leb, Bool-cases}
use aneasyos.Base.Word.{add32}
use aneasyos.Console.{Screen, scr_dn, screen_size, scroll_screen, scroll_to_cursor}
use aneasyos.Console.Placed.{
  IsPlaced, Untouched, Untouched-refl, Untouched-trans, scroll_screen-IsPlaced,
  scroll_screen-Untouched, scroll_screen_down,
}

-- What the loop has done when it ends.
pub record Scrolled (c : ℕ) (s t : Screen) : Type 0 where
  pub placed : IsPlaced (t.console_table c)
  pub visible : (t.console_table c).cursor < (t.console_table c).current_start_addr + screen_size
  pub untouched : Untouched c s t
  pub not_back : (s.console_table c).current_start_addr ≤ (t.console_table c).current_start_addr

scroll_step :
    {c : ℕ} {s t : Screen}
    → (s.console_table c).current_start_addr
      ≤ ((scroll_screen c scr_dn s).console_table c).current_start_addr
    → Scrolled c (scroll_screen c scr_dn s) t
    → Scrolled c s t
scroll_step {c} {s} {t} le d = record {
  placed = d.placed;
  visible = d.visible;
  untouched = Untouched-trans (scroll_screen-Untouched c scr_dn s) d.untouched;
  not_back = omega (arith, d.not_back);
}

-- With as many rounds as the console has words below the start of the visible part, the loop ends.
pub scroll_to_cursor_ends :
    (fuel c : ℕ) (s : Screen)
    → IsPlaced (s.console_table c)
    → (s.console_table c).original_addr + (s.console_table c).v_mem_limit
      < fuel + (s.console_table c).current_start_addr
    → (t : Screen) × (scroll_to_cursor fuel c s ≡ some t) × Scrolled c s t
unfolding scroll_to_cursor
scroll_to_cursor_ends zero c s v h = absurd (omega arith)
scroll_to_cursor_ends (suc fuel) c s v h =
    elim (Bool-cases
      (leb (add32 (s.console_table c).current_start_addr screen_size) (s.console_table c).cursor)) [
        | inl more ↦
            let low : (s.console_table c).current_start_addr + screen_size
                ≤ (s.console_table c).cursor =
              ground arith in
            let down = scroll_screen_down c s v low in
            let same = scroll_screen-Untouched c scr_dn s in
            let (t, e, d) =
              scroll_to_cursor_ends fuel c (scroll_screen c scr_dn s)
                (scroll_screen-IsPlaced c scr_dn s v)
                (omega (arith, down, same.original_same, same.limit_same)) in
            (t, rw more e, scroll_step (omega (arith, down)) d)
        | inr done ↦ (
          s,
          rw done,
          record {
            placed = v;
            visible = ground arith;
            untouched = Untouched-refl c s;
            not_back = omega arith;
          },
        )
      ]
