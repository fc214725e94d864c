-- ===== src/Text/Buffers.antt =====
-- src/lib/string.c: `memcpy` from a buffer that is an object of its own, as the buffers of the disk
-- driver are.
use aneasyos.Base.{
  ℕ, zero, suc, ◌+◌, ◌-◌, ◌<◌, ◌≤◌, ◌≡◌, fun_ext, ◌⊎◌, arith, ltb, leb, ◌&&◌, if◌then◌else◌, update,
}
use aneasyos.Text.{Memory}

-- The buffer is a function of the offset in it.
unfoldable pub copy_in : Memory → ℕ → (ℕ → ℕ) → ℕ → Memory
copy_in mem p_dst buf zero = mem
copy_in mem p_dst buf (suc size) =
    copy_in (update mem p_dst (buf 0)) (p_dst + 1) (λ i. buf (i + 1)) size

-- The memory with the first `size` bytes of the buffer at `p`.
unfoldable pub patch : Memory → ℕ → (ℕ → ℕ) → ℕ → Memory
patch mem p buf size a = if leb p a && ltb a (p + size) then buf (a - p) else mem a

copy_in_at :
    (mem : Memory) (p : ℕ) (buf : ℕ → ℕ) (size a : ℕ)
    → copy_in mem p buf size a ≡ patch mem p buf size a
unfolding copy_in patch
copy_in_at mem p buf zero a = ground arith
copy_in_at mem p buf (suc size) a =
    ground (arith, copy_in_at (update mem p (buf 0)) (p + 1) (λ i. buf (i + 1)) size a)

pub copy_in-patch :
    (mem : Memory) (p : ℕ) (buf : ℕ → ℕ) (size : ℕ) → copy_in mem p buf size ≡ patch mem p buf size
copy_in-patch mem p buf size = fun_ext (copy_in_at mem p buf size)

pub patch_none : (mem : Memory) (p : ℕ) (buf : ℕ → ℕ) → patch mem p buf 0 ≡ mem
unfolding patch
patch_none mem p buf = fun_ext (λ a. ground arith)

-- A block after a block is one block.
pub patch_join :
    (mem : Memory) (p : ℕ) (buf : ℕ → ℕ) (m n : ℕ)
    → patch (patch mem p buf m) (p + m) (λ i. buf (m + i)) n ≡ patch mem p buf (m + n)
unfolding patch
patch_join mem p buf m n = fun_ext (λ a. ground arith)

-- Only the bytes that are copied matter.
pub patch_same :
    (mem : Memory) (p : ℕ) (buf buf' : ℕ → ℕ) (size : ℕ)
    → ((i : ℕ) → i < size → buf i ≡ buf' i)
    → patch mem p buf size ≡ patch mem p buf' size
unfolding patch
patch_same mem p buf buf' size same = fun_ext (λ a. ground (arith, same (a - p)))

pub patch_inside :
    (mem : Memory) (p : ℕ) (buf : ℕ → ℕ) (size i : ℕ)
    → i < size
    → patch mem p buf size (p + i) ≡ buf i
unfolding patch
patch_inside mem p buf size i h = ground arith

pub patch_outside :
    (mem : Memory) (p : ℕ) (buf : ℕ → ℕ) (size a : ℕ)
    → (a < p) ⊎ (p + size ≤ a)
    → patch mem p buf size a ≡ mem a
unfolding patch
patch_outside mem p buf size a out = ground (arith, out)
