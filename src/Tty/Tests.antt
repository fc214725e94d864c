-- ===== src/Tty/Tests.antt =====
-- src/kernel/tty.c: runs of the input buffer and of the line reader, and the theorems at such inputs.
use aneasyos.Base.{◌%◌, ◌≡◌, refl, none, some, List, [], ◌∷◌, arith, update}
use aneasyos.Fifo.{Event, put, get}
use aneasyos.Fifo
use aneasyos.Tty.{Tty, tty_in_bytes, run, put_key, get_char_form_tty, do_read}
use aneasyos.Tty.Queue.{IsRing, run_refines}
use aneasyos.Tty.Line.{edit, Reads, do_read-edit}

-- Two keys wait, at the last place of the array and at the first.
abbrev wrapped : Tty
wrapped = record {
  in_buf = update (λ i. b'a') 255 b'z';
  inbuf_head = 1;
  inbuf_tail = 255;
  inbuf_count = 2;
  p_console = 0;
}

abbrev script : List Event
script = put 0x241 ∷ get ∷ get ∷ get ∷ get ∷ []

run-wrapped : run wrapped script ≡ some b'z' ∷ some b'a' ∷ some b'A' ∷ none ∷ []
unfolding run put_key get_char_form_tty
run-wrapped = refl

wrapped-IsRing : IsRing wrapped
wrapped-IsRing = omega arith

run_refines_example :
    run wrapped script ≡ Fifo.run (λ k. k % 0x100) tty_in_bytes (b'z' ∷ b'a' ∷ []) script
run_refines_example = run_refines script wrapped-IsRing

-- A backspace on the empty line stays in the line.
edit_backspaces : edit [] (8 ∷ b'l' ∷ b'x' ∷ 8 ∷ b's' ∷ []) ≡ b's' ∷ b'l' ∷ 8 ∷ []
unfolding edit
edit_backspaces = refl

do_read-edit_example :
    Reads
      (do_read (b'l' ∷ b'x' ∷ 8 ∷ b's' ∷ b'\n' ∷ b'q' ∷ []) (λ i. 7))
      (edit [] (b'l' ∷ b'x' ∷ 8 ∷ b's' ∷ []))
      (b'q' ∷ [])
      (λ i. 7)
      4
do_read-edit_example = do_read-edit (b'l' ∷ b'x' ∷ 8 ∷ b's' ∷ []) (b'q' ∷ []) (λ i. 7) (omega arith)
