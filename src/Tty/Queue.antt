-- ===== src/Tty/Queue.antt =====
-- src/kernel/tty.c: the input buffer is a queue of at most 256 keys.
use mathlib.Core.Option
use aneasyos.Base.{ℕ, ◌%◌, ◌<◌, ◌≤◌, ◌≡◌, refl, List, [], ◌∷◌, arith}
use aneasyos.Base.Lists.{length}
use aneasyos.Ring.{slot, window, length-window, window_of_pos, window-update}
use aneasyos.Fifo.{Fifo, Event, put, get}
use aneasyos.Fifo
use aneasyos.Tty.{Tty, tty_in_bytes, reset_buffer, put_key, get_char_form_tty, run, after_get}

-- The head is as far behind the tail as the count says, and both lie in the array.
pub record IsRing (t : Tty) : Type 0 where
  pub tail_in : t.inbuf_tail < tty_in_bytes
  pub count_in : t.inbuf_count ≤ tty_in_bytes
  pub head_at : t.inbuf_head ≡ slot tty_in_bytes t.inbuf_tail t.inbuf_count

abbrev pub contents : Tty → Fifo
contents t = window tty_in_bytes t.in_buf t.inbuf_tail t.inbuf_count

pub length-contents : (t : Tty) → length (contents t) ≡ t.inbuf_count
length-contents t = length-window tty_in_bytes t.in_buf t.inbuf_tail t.inbuf_count

pub reset_buffer-IsRing : (t : Tty) → IsRing (reset_buffer t) × (contents (reset_buffer t) ≡ [])
unfolding reset_buffer
reset_buffer-IsRing t = (omega arith, refl)

pub put_key-IsRing : {t : Tty} (key : ℕ) → IsRing t → IsRing (put_key t key)
unfolding put_key
put_key-IsRing key v = ground arith

-- A key goes to the end of the queue, and is dropped where 256 keys wait already.
pub put_key_refines :
    {t : Tty} (key : ℕ)
    → IsRing t
    → contents (put_key t key) ≡ Fifo.offer tty_in_bytes (contents t) key
unfolding put_key Fifo.offer
put_key_refines {t} key v = ground (
  arith,
  length-contents t,
  window-update tty_in_bytes t.in_buf key t.inbuf_count t.inbuf_tail t.inbuf_head,
)

pub get_char-IsRing : {t : Tty} → IsRing t → IsRing (after_get t (get_char_form_tty t))
unfolding get_char_form_tty
get_char-IsRing v = ground arith

pub get_char_refines :
    {t : Tty}
    → IsRing t
    → (Option.map (λ r. r.0) (get_char_form_tty t)
        ≡ Option.map (λ k. k % 0x100) (Fifo.oldest (contents t)))
      × (contents (after_get t (get_char_form_tty t)) ≡ Fifo.rest (contents t))
unfolding get_char_form_tty Fifo.oldest Fifo.rest
get_char_refines {t} v =
    ground (arith, window_of_pos tty_in_bytes t.in_buf t.inbuf_tail t.inbuf_count)

-- Whatever the order in which keys arrive and a reader asks for characters, a well-formed input
-- buffer answers as the bounded queue of its contents does, and each answer is the low byte of the
-- key.
pub run_refines :
    (es : List Event) {t : Tty}
    → IsRing t
    → run t es ≡ Fifo.run (λ k. k % 0x100) tty_in_bytes (contents t) es
unfolding run Fifo.run
run_refines [] v = refl
run_refines (put key ∷ es) v =
    ground (arith, run_refines es (put_key-IsRing key v), put_key_refines key v)
run_refines (get ∷ es) v = ground (arith, run_refines es (get_char-IsRing v), get_char_refines v)
