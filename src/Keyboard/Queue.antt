-- ===== src/Keyboard/Queue.antt =====
-- src/kernel/keyboard.c: the input buffer is a queue of at most 32 scan codes.
use mathlib.Core.Option
use aneasyos.Base.{ℕ, ◌<◌, ◌≤◌, ◌≡◌, refl, none, some, Option, List, [], ◌∷◌, arith}
use aneasyos.Base.Lists.{length}
use aneasyos.Ring.{slot, window, length-window, window_of_pos, window-update}
use aneasyos.Fifo.{Fifo, Event, put, get}
use aneasyos.Fifo
use aneasyos.Keyboard.{KbInput, kb_in_bytes, keyboard_handler, get_byte_from_kbuf}

pub record IsKbRing (kb : KbInput) : Type 0 where
  pub tail_in : kb.p_tail < kb_in_bytes
  pub count_in : kb.count ≤ kb_in_bytes
  pub head_at : kb.p_head ≡ slot kb_in_bytes kb.p_tail kb.count

abbrev pub codes : KbInput → Fifo
codes kb = window kb_in_bytes kb.buf kb.p_tail kb.count

length-codes : (kb : KbInput) → length (codes kb) ≡ kb.count
length-codes kb = length-window kb_in_bytes kb.buf kb.p_tail kb.count

handler-IsKbRing : {kb : KbInput} (code : ℕ) → IsKbRing kb → IsKbRing (keyboard_handler kb code)
unfolding keyboard_handler
handler-IsKbRing code v = ground arith

handler_refines :
    {kb : KbInput} (code : ℕ)
    → IsKbRing kb
    → codes (keyboard_handler kb code) ≡ Fifo.offer kb_in_bytes (codes kb) code
unfolding keyboard_handler Fifo.offer
handler_refines {kb} code v =
    ground
      (arith, length-codes kb, window-update kb_in_bytes kb.buf code kb.count kb.p_tail kb.p_head)

abbrev left_over : KbInput → Option (ℕ × KbInput) → KbInput
left_over kb none = kb
left_over kb (some (b, kb')) = kb'

get_byte-IsKbRing : {kb : KbInput} → IsKbRing kb → IsKbRing (left_over kb (get_byte_from_kbuf kb))
unfolding get_byte_from_kbuf
get_byte-IsKbRing v = ground arith

get_byte_refines :
    {kb : KbInput}
    → IsKbRing kb
    → (Option.map (λ r. r.0) (get_byte_from_kbuf kb) ≡ Option.map (λ k. k) (Fifo.oldest (codes kb)))
      × (codes (left_over kb (get_byte_from_kbuf kb)) ≡ Fifo.rest (codes kb))
unfolding get_byte_from_kbuf Fifo.oldest Fifo.rest
get_byte_refines {kb} v = ground (arith, window_of_pos kb_in_bytes kb.buf kb.p_tail kb.count)

-- The interrupt handler and the reader of the buffer take turns.
unfoldable pub kb_run : KbInput → List Event → List (Option ℕ)
kb_run kb [] = []
kb_run kb (put code ∷ es) = kb_run (keyboard_handler kb code) es
kb_run kb (get ∷ es) =
    Option.map (λ r. r.0) (get_byte_from_kbuf kb) ∷ kb_run (left_over kb (get_byte_from_kbuf kb)) es

-- Whatever the order of the keyboard interrupts and the reads, a well-formed buffer answers as the
-- queue of its contents does, which holds 32 scan codes and drops those that come when it is full.
pub kb_run_refines :
    (es : List Event) {kb : KbInput}
    → IsKbRing kb
    → kb_run kb es ≡ Fifo.run (λ k. k) kb_in_bytes (codes kb) es
unfolding kb_run Fifo.run
kb_run_refines [] v = refl
kb_run_refines (put code ∷ es) v =
    ground (arith, kb_run_refines es (handler-IsKbRing code v), handler_refines code v)
kb_run_refines (get ∷ es) v =
    ground (arith, kb_run_refines es (get_byte-IsKbRing v), get_byte_refines v)
