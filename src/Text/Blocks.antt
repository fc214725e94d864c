-- ===== src/Text/Blocks.antt =====
-- src/lib/string.c: copying and setting blocks of memory.
use aneasyos.Base.{
  ℕ, zero, suc, ◌+◌, ◌<◌, ◌≤◌, ◌≡◌, refl, fun_ext, ◌∙◌, ◌⊎◌, inl, arith, update, update_ne,
}
use aneasyos.Text.{Memory, memcpy, memset}

pub memcpy_outside :
    (mem : Memory) (p_dst p_src size a : ℕ)
    → (a < p_dst) ⊎ (p_dst + size ≤ a)
    → memcpy mem p_dst p_src size a ≡ mem a
unfolding memcpy
memcpy_outside mem p_dst p_src zero a out = refl
memcpy_outside mem p_dst p_src (suc size) a out =
    memcpy_outside (update mem p_dst (mem p_src)) (p_dst + 1) (p_src + 1) size a
      (ground (arith, out))
    ∙ update_ne mem p_dst (mem p_src) a (ground (arith, out))

pub memcpy_inside :
    (mem : Memory) (p_dst p_src size i : ℕ)
    → (p_dst + size ≤ p_src) ⊎ (p_src + size ≤ p_dst) ⊎ (p_dst < p_src)
    → i < size
    → memcpy mem p_dst p_src size (p_dst + i) ≡ mem (p_src + i)
unfolding memcpy
memcpy_inside mem p_dst p_src zero i apart h = absurd (omega arith)
memcpy_inside mem p_dst p_src (suc size) zero apart h =
    memcpy_outside (update mem p_dst (mem p_src)) (p_dst + 1) (p_src + 1) size (p_dst + 0)
      (inl (omega arith))
    ∙ ground arith
memcpy_inside mem p_dst p_src (suc size) (suc i) apart h =
    let mem1 = update mem p_dst (mem p_src) in
    let at : p_dst + suc i ≡ p_dst + 1 + i = omega arith in
    let from : p_src + suc i ≡ p_src + 1 + i = omega arith in
    rw (at, from)
      (memcpy_inside mem1 (p_dst + 1) (p_src + 1) size i (ground (arith, apart)) (omega arith)
        ∙ update_ne mem p_dst (mem p_src) (p_src + 1 + i) (λ e. ground (arith, apart, e)))

-- `memcpy` of a block to a place that does not overlap it, or that begins below it, copies each of
-- its bytes, and changes no byte outside of that place.
pub memcpy_block :
    (mem : Memory) (p_dst p_src size i a : ℕ)
    → (p_dst + size ≤ p_src) ⊎ (p_src + size ≤ p_dst) ⊎ (p_dst < p_src)
    → i < size
    → (a < p_dst) ⊎ (p_dst + size ≤ a)
    → (memcpy mem p_dst p_src size (p_dst + i) ≡ mem (p_src + i))
      × (memcpy mem p_dst p_src size a ≡ mem a)
memcpy_block mem p_dst p_src size i a apart h out =
    (memcpy_inside mem p_dst p_src size i apart h, memcpy_outside mem p_dst p_src size a out)

-- `memset` of one byte or more stores one byte, however large the block is.
pub memset_first :
    (mem : Memory) (p_dst ch size : ℕ) → memset mem p_dst ch (suc size) ≡ update mem p_dst ch
unfolding memset
memset_first mem p_dst ch zero = refl
memset_first mem p_dst ch (suc size) =
    memset_first (update mem p_dst ch) p_dst ch size ∙ fun_ext (λ a. ground arith)
