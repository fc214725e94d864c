-- ===== src/Fifo.antt =====
-- What an input buffer promises: a queue of at most `cap` entries, oldest first, that drops what
-- does not fit.
use mathlib.Core.Option
use aneasyos.Base.{ℕ, Option, none, some, List, [], ◌∷◌, ◌++◌, if◌then◌else◌, ltb}
use aneasyos.Base.Lists.{length}

abbrev pub Fifo : Type 0
Fifo = List ℕ

unfoldable pub offer : ℕ → Fifo → ℕ → Fifo
offer cap q x = if ltb (length q) cap then q ++ (x ∷ []) else q

unfoldable pub oldest : Fifo → Option ℕ
oldest [] = none
oldest (x ∷ q) = some x

unfoldable pub rest : Fifo → Fifo
rest [] = []
rest (x ∷ q) = q

-- A producer and a consumer of one buffer.
pub data Event : Type 0 where
  put : ℕ → Event
  get : Event

-- What the `get`s of a sequence of events return, each entry seen through `view`; `none` is a
-- buffer that was empty.
unfoldable pub run : (ℕ → ℕ) → ℕ → Fifo → List Event → List (Option ℕ)
unfolding offer oldest rest
run view cap q [] = []
run view cap q (put x ∷ es) = run view cap (offer cap q x) es
run view cap q (get ∷ es) = Option.map view (oldest q) ∷ run view cap (rest q) es
