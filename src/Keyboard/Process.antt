-- ===== src/Keyboard/Process.antt =====
-- src/kernel/tty.c and src/kernel/keyboard.c: what a key does to its terminal, and how the modifier
-- keys are tracked.
use aneasyos.Base.{
  ℕ, ◌-◌, ◌%◌, ◌≡◌, refl, inl, inr, Option, some, Bool, true, false, not, ◌&&◌, arith, leb, ◌==◌,
  if◌then◌else◌, Bool-cases,
}
use aneasyos.Base.Flags.{has_flag}
use aneasyos.Console.{Screen, Direction, scr_up, scr_dn, scroll_screen, select_console}
use aneasyos.Console.Placed.{IsPlaced, scroll_screen-IsPlaced}
use aneasyos.Console.OutChar.{out_char_ends}
use aneasyos.Tty.{Tty, put_key}
use aneasyos.Tty.Queue.{IsRing, put_key-IsRing}
use aneasyos.Keyboard.{
  in_process, print_key, flag_ext, key_enter, key_backspace, key_up, key_down, key_f1, key_f12,
}

-- The terminal works: its buffer is well formed and its console is in its place.
pub record IsWorking (t : Tty) (s : Screen) : Type 0 where
  pub ring : IsRing t
  pub placed : IsPlaced (s.console_table t.p_console)

put_key-p_console : (t : Tty) (key : ℕ) → (put_key t key).p_console ≡ t.p_console
unfolding put_key
put_key-p_console t key = ground arith

-- A result is there, and with it the terminal works.
abbrev pub Works : Option (Tty × Screen) → Type 0
Works r = (t' : Tty) × (s' : Screen) × (r ≡ some (t', s')) × IsWorking t' s'

print_key-IsWorking :
    (t : Tty) (s : Screen) (key ch : ℕ) → IsWorking t s → Works (print_key t s key ch)
print_key-IsWorking t s key ch w =
    let (s', e, p, _, _) = out_char_ends t.p_console ch s w.placed in
    (
      put_key t key,
      s',
      rw e,
      record { ring = put_key-IsRing key w.ring; placed = rw (put_key-p_console t key) p },
    )

select_console-IsWorking :
    (t : Tty) (s : Screen) (nr : ℕ) → IsWorking t s → IsWorking t (select_console nr s)
unfolding select_console
select_console-IsWorking t s nr w = record { ring = w.ring; placed = ground (arith, w.placed) }

scrolled-IsWorking :
    (t : Tty) (s : Screen) (d : Direction) (b : Bool)
    → IsWorking t s
    → Works (some (t, if b then scroll_screen t.p_console d s else s))
scrolled-IsWorking t s d true w = (
  t,
  scroll_screen t.p_console d s,
  refl,
  record { ring = w.ring; placed = scroll_screen-IsPlaced t.p_console d s w.placed },
)
scrolled-IsWorking t s d false w = (t, s, refl, w)

selected-IsWorking :
    (t : Tty) (s : Screen) (nr : ℕ) (b : Bool)
    → IsWorking t s
    → Works (some (t, if b then select_console nr s else s))
selected-IsWorking t s nr true w = (t, select_console nr s, refl, select_console-IsWorking t s nr w)
selected-IsWorking t s nr false w = (t, s, refl, w)

-- Whatever key is pressed, `in_process` returns, and the terminal still works: its input buffer is
-- well formed and its console is in its place.
pub in_process_ends : (t : Tty) (s : Screen) (key : ℕ) → IsWorking t s → Works (in_process t s key)
unfolding in_process
in_process_ends t s key w = elim (Bool-cases (not (has_flag key flag_ext))) [
  | inl e ↦ rw e (print_key-IsWorking t s key (key % 0x100) w)
  | inr e ↦ rw e (elim (Bool-cases (key % 0x200 == key_enter)) [
    | inl e ↦ rw e (print_key-IsWorking t s b'\n' b'\n' w)
    | inr e ↦ rw e (elim (Bool-cases (key % 0x200 == key_backspace)) [
      | inl e ↦ rw e (print_key-IsWorking t s 8 8 w)
      | inr e ↦ rw e (elim (Bool-cases (key % 0x200 == key_up)) [
        | inl e ↦ rw e (scrolled-IsWorking t s scr_up _ w)
        | inr e ↦ rw e (elim (Bool-cases (key % 0x200 == key_down)) [
          | inl e ↦ rw e (scrolled-IsWorking t s scr_dn _ w)
          | inr e ↦
              rw e (elim (Bool-cases (leb key_f1 (key % 0x200) && leb (key % 0x200) key_f12)) [
                | inl e ↦ rw e (selected-IsWorking t s (key % 0x200 - key_f1) _ w)
                | inr e ↦ rw e (t, s, refl, w)
              ])
        ])
      ])
    ])
  ])
]
