-- ===== src/Boot/Ram.antt =====
-- src/boot/setup_c.c: the size of the memory.
use aneasyos.Base.{
  ℕ, ◌≤◌, ◌≡◌, ◌⊎◌, inl, List, [], ◌∷◌, arith, ltb, ◌==◌, ◌&&◌, if◌then◌else◌, refl,
}
use aneasyos.Base.Lists.{All}
use aneasyos.Base.Word.{add32}
use aneasyos.Boot.{Range, max_mem_size}

abbrev pub range_end : Range → ℕ
range_end p = add32 p.base_low p.length_low

-- Some range of usable memory ends at `size`.
abbrev pub EndsAt : ℕ → List Range → Type 0
EndsAt size [] = ⊥
EndsAt size (p ∷ ps) = ((p.type ≡ 1) × (size ≡ range_end p)) ⊎ EndsAt size ps

max_from :
    (ps : List Range) (size : ℕ)
    → (size ≤ max_mem_size ps size)
      × All (λ p. p.type ≡ 1 → range_end p ≤ max_mem_size ps size) ps
      × ((max_mem_size ps size ≡ size) ⊎ EndsAt (max_mem_size ps size) ps)
unfolding max_mem_size
max_from [] size = (omega arith, tt, inl refl)
max_from (p ∷ ps) size =
    let size' = if (p.type == 1) && ltb size (range_end p) then range_end p else size in
    let (lower, all, from) = max_from ps size' in
    (ground (arith, lower), ((λ one. ground (arith, lower, one)), all), ground (arith, from))

-- The memory size that `DispMemInfo` finds is the largest end of a range of usable memory, with its low
-- 32 bits: no such range ends above it, and one of them ends there, or the size is 0.
pub max_mem_size-EndsAt :
    (ps : List Range)
    → All (λ p. p.type ≡ 1 → range_end p ≤ max_mem_size ps 0) ps
      × ((max_mem_size ps 0 ≡ 0) ⊎ EndsAt (max_mem_size ps 0) ps)
max_mem_size-EndsAt ps = let (lower, all, from) = max_from ps 0 in (all, from)
