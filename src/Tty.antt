-- ===== src/Tty.antt =====
-- src/kernel/tty.c and src/include/tty.h: the input buffer of a terminal, and the line reader over it.
-- A pointer into `in_buf` is its index. A key is a u32; a char is its low byte.
pub mod Queue
pub mod Line
mod Tests
use mathlib.Core.Option
use aneasyos.Base.{
  ℕ, ◌+◌, ◌-◌, ◌%◌, Option, none, some, List, [], ◌∷◌, ltb, ◌==◌, ◌&&◌, if◌then◌else◌, update,
}
use aneasyos.Ring.{next_slot}
use aneasyos.Fifo.{Event, put, get}

abbrev pub tty_in_bytes : ℕ
tty_in_bytes = 256

-- TTY; `p_console` is an index of `console_table`.
pub record Tty : Type 0 where
  pub in_buf : ℕ → ℕ
  pub inbuf_head : ℕ
  pub inbuf_tail : ℕ
  pub inbuf_count : ℕ
  pub p_console : ℕ

-- The buffer part of `init_tty`.
unfoldable pub reset_buffer : Tty → Tty
reset_buffer t = record t { inbuf_count = 0; inbuf_head = 0; inbuf_tail = 0 }

unfoldable pub put_key : Tty → ℕ → Tty
put_key t key =
    if ltb t.inbuf_count tty_in_bytes
    then record t {
      in_buf = update t.in_buf t.inbuf_head key;
      inbuf_head = next_slot tty_in_bytes t.inbuf_head;
      inbuf_count = t.inbuf_count + 1;
    }
    else t

-- The entry at the tail leaves the buffer.
advance_tail : Tty → Tty
advance_tail t = record t {
  inbuf_tail = next_slot tty_in_bytes t.inbuf_tail;
  inbuf_count = t.inbuf_count - 1;
}

-- `none`: the buffer is empty, and the loop `while(inbuf_count <= 0)` goes on waiting.
unfoldable pub get_char_form_tty : Tty → Option (ℕ × Tty)
unfolding advance_tail
get_char_form_tty t =
    if ltb 0 t.inbuf_count then some (t.in_buf t.inbuf_tail % 0x100, advance_tail t) else none

unfoldable pub tty_do_write : Tty → Tty
unfolding advance_tail
tty_do_write t = if ltb 0 t.inbuf_count then advance_tail t else t

-- The keyboard side and the reader take turns; a `get` of an empty buffer finds it still empty.
abbrev after_get : Tty → Option (ℕ × Tty) → Tty
after_get t none = t
after_get t (some (c, t')) = t'

unfoldable pub run : Tty → List Event → List (Option ℕ)
run t [] = []
run t (put key ∷ es) = run (put_key t key) es
run t (get ∷ es) =
    Option.map (λ r. r.0) (get_char_form_tty t) ∷ run (after_get t (get_char_form_tty t)) es

-- `do_read`, over the characters that its calls of `get_char_form_tty` return one after another:
-- the count, the buffer, and the characters not yet asked for. `none`: it is still waiting.
do_read_from : List ℕ → ℕ → (ℕ → ℕ) → Option (ℕ × (ℕ → ℕ) × List ℕ)
do_read_from [] cnt buf = none
do_read_from (ch ∷ cs) cnt buf =
    let erased = do_read_from cs (cnt - 1) buf in
    let stored = do_read_from cs (cnt + 1) (update buf cnt ch) in
    if ch == b'\n'
    then some (cnt, update buf cnt 0, cs)
    else if (ch == 8) && ltb 0 cnt
    then erased
    else stored

unfoldable pub do_read : List ℕ → (ℕ → ℕ) → Option (ℕ × (ℕ → ℕ) × List ℕ)
unfolding do_read_from
do_read chars buf = do_read_from chars 0 buf
