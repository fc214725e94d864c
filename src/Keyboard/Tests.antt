-- ===== src/Keyboard/Tests.antt =====
-- src/kernel/keyboard.c and src/kernel/tty.c: the theorems at some inputs.
use aneasyos.Base.{◌≡◌, List, [], ◌∷◌, false, arith, update}
use aneasyos.Fifo.{Event, put, get}
use aneasyos.Fifo
use aneasyos.Console.{Screen, blank_console}
use aneasyos.Tty.{Tty}
use aneasyos.Keyboard.{KbInput, Modifiers, kb_in_bytes, in_process}
use aneasyos.Keyboard.Queue.{kb_run, kb_run_refines}
use aneasyos.Keyboard.Process.{Works, in_process_ends}
use aneasyos.Keyboard.Shift.{decoded, left_down, shift_tracked}

abbrev wrapped : KbInput
wrapped = record { buf = update (λ i. 0x1e) 31 0x2a; p_head = 1; p_tail = 31; count = 2 }

abbrev script : List Event
script = put 0xaa ∷ get ∷ get ∷ get ∷ get ∷ []

kb_run_refines_example :
    kb_run wrapped script ≡ Fifo.run (λ k. k) kb_in_bytes (0x2a ∷ 0x1e ∷ []) script
kb_run_refines_example = kb_run_refines script (omega arith)

abbrev terminal : Tty
terminal = record {
  in_buf = λ i. 0;
  inbuf_head = 0;
  inbuf_tail = 0;
  inbuf_count = 0;
  p_console = 1;
}

abbrev screen : Screen
screen = record {
  console_table = blank_console;
  nr_current_console = 1;
  vmem = λ i. 0;
  crtc = λ i. 0;
  disp_pos = 160;
}

in_process_ends_example : Works (in_process terminal screen b'A')
in_process_ends_example =
    in_process_ends terminal screen b'A' (record { ring = omega arith; placed = omega arith })

abbrev released : Modifiers
released = record {
  shift_l = false;
  shift_r = false;
  alt_l = false;
  alt_r = false;
  ctrl_l = false;
  ctrl_r = false;
}

shift_tracked_example :
    (decoded (0x2a ∷ 0x1e ∷ []) released).shift_l ≡ left_down (0x2a ∷ 0x1e ∷ []) false
shift_tracked_example = shift_tracked (0x2a ∷ 0x1e ∷ []) released (omega arith)
