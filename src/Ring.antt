-- ===== src/Ring.antt =====
-- The circular buffers of `TTY` and `KB_INPUT` have one shape: an array, the index of the next
-- free place, the index of the oldest entry, and a count. An index that reaches the end is reset.
-- Here are the entries that such a buffer holds, and what a write does to them.
use aneasyos.Base.{
  ℕ, zero, suc, ◌+◌, ◌-◌, ◌<◌, ◌≡◌, refl, ap, List, [], ◌∷◌, ◌++◌, arith, ltb, ◌==◌, if◌then◌else◌,
  update,
}
use aneasyos.Base.Lists.{length}

-- `p++; if (p == end) p = start;`
abbrev pub next_slot : ℕ → ℕ → ℕ
next_slot cap i = if i + 1 == cap then 0 else i + 1

-- The place `n` entries after `h`.
abbrev pub slot : ℕ → ℕ → ℕ → ℕ
slot cap h n = if ltb (h + n) cap then h + n else h + n - cap

-- The `n` entries from index `h` on.
abbrev pub window : ℕ → (ℕ → ℕ) → ℕ → ℕ → List ℕ
window cap buf h zero = []
window cap buf h (suc n) = buf h ∷ window cap buf (next_slot cap h) n

pub length-window : (cap : ℕ) (buf : ℕ → ℕ) (h n : ℕ) → length (window cap buf h n) ≡ n
length-window cap buf h zero = refl
length-window cap buf h (suc n) = ap suc (length-window cap buf (next_slot cap h) n)

pub window_of_pos :
    (cap : ℕ) (buf : ℕ → ℕ) (h n : ℕ)
    → 0 < n
    → window cap buf h n ≡ buf h ∷ window cap buf (next_slot cap h) (n - 1)
window_of_pos cap buf h zero p = absurd (omega arith)
window_of_pos cap buf h (suc n) p = ap (λ k. window cap buf h (suc k)) (omega arith)

-- A write to the place behind a window that is not full appends to it.
pub window-update :
    (cap : ℕ) (buf : ℕ → ℕ) (x n h i : ℕ)
    → h < cap
    → n < cap
    → i ≡ slot cap h n
    → window cap (update buf i x) h (suc n) ≡ window cap buf h n ++ (x ∷ [])
window-update cap buf x zero h i hh hn e = ground arith
window-update cap buf x (suc n) h i hh hn e =
    ground (arith, window-update cap buf x n (next_slot cap h) i)
