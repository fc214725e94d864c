-- ===== src/Boot/Load.antt =====
-- src/boot/setup_c.c: `init_kernel` brings each segment of the kernel to its address.
use aneasyos.Base.{
  ℕ, zero, suc, ◌+◌, ◌*◌, ◌<◌, ◌≤◌, ◌≡◌, ◌≢◌, refl, sym, ap, subst, ◌∙◌, ◌⊎◌, arith, ℕ_discrete,
}
use aneasyos.Text.{Memory, memcpy}
use aneasyos.Text.Blocks.{memcpy_inside, memcpy_outside}
use aneasyos.Hd.{u16_at, u32_at}
use aneasyos.Boot.{load_segments, init_kernel}

-- The fields of the program header number `i`, as the file has them.
module _ (image phoff : ℕ) (mem : Memory) where
  abbrev pub vaddr : ℕ → ℕ
  vaddr i = u32_at mem (phoff + i * 32 + 8)

  abbrev pub offset : ℕ → ℕ
  offset i = u32_at mem (phoff + i * 32 + 4)

  abbrev pub filesz : ℕ → ℕ
  filesz i = u32_at mem (phoff + i * 32 + 16)

-- The file lies from `image` on with `size` bytes, its headers and segments in it. The segments go to
-- places apart from the file and from one another.
pub record Loadable (image phoff size phnum : ℕ) (mem : Memory) : Type 0 where
  pub headers : (image ≤ phoff) × (phoff + phnum * 32 ≤ image + size)
  pub within : (i : ℕ) → i < phnum → offset image phoff mem i + filesz image phoff mem i ≤ size
  pub clear :
      (i : ℕ)
      → i < phnum
      → (vaddr image phoff mem i + filesz image phoff mem i ≤ image)
        ⊎ (image + size ≤ vaddr image phoff mem i)
  pub apart :
      (i j : ℕ)
      → i < phnum
      → j < phnum
      → i ≢ j
      → (vaddr image phoff mem i + filesz image phoff mem i ≤ vaddr image phoff mem j)
        ⊎ (vaddr image phoff mem j + filesz image phoff mem j ≤ vaddr image phoff mem i)

module _ (image phoff size phnum : ℕ) (mem0 : Memory)
    (ok : Loadable image phoff size phnum mem0) where
  -- The file is still as it was.
  abbrev Intact : Memory → Type 0
  Intact mem = (a : ℕ) → image ≤ a → a < image + size → mem a ≡ mem0 a

  header_same :
      (mem : Memory) (i k : ℕ)
      → Intact mem
      → i < phnum
      → k + 4 ≤ 32
      → u32_at mem (phoff + i * 32 + k) ≡ u32_at mem0 (phoff + i * 32 + k)
  header_same mem i k intact h fits =
      let a = phoff + i * 32 + k in
      cc (
        intact a (omega (arith, ok.headers)) (omega (arith, ok.headers, h, fits)),
        intact (a + 1) (omega (arith, ok.headers)) (omega (arith, ok.headers, h, fits)),
        intact (a + 2) (omega (arith, ok.headers)) (omega (arith, ok.headers, h, fits)),
        intact (a + 2 + 1) (omega (arith, ok.headers)) (omega (arith, ok.headers, h, fits)),
      )

  abbrev Outside : ℕ → ℕ → Type 0
  Outside a j =
      (a < vaddr image phoff mem0 j) ⊎ (vaddr image phoff mem0 j + filesz image phoff mem0 j ≤ a)

  -- The segment stands at its address.
  abbrev Loaded : Memory → ℕ → Type 0
  Loaded mem j =
      (k : ℕ)
      → k < filesz image phoff mem0 j
      → mem (vaddr image phoff mem0 j + k) ≡ mem0 (image + offset image phoff mem0 j + k)

  -- One round of the loop, by the headers as they were.
  round : Memory → ℕ → Memory
  round mem i =
      memcpy mem (vaddr image phoff mem0 i) (image + offset image phoff mem0 i)
        (filesz image phoff mem0 i)

  load_round :
      (mem : Memory) (n i : ℕ)
      → Intact mem
      → i < phnum
      → load_segments image phoff (suc n) i mem ≡ load_segments image phoff n (suc i) (round mem i)
  unfolding load_segments round
  load_round mem n i intact h =
      rw
        (
          header_same mem i 8 intact h (omega arith),
          header_same mem i 4 intact h (omega arith),
          header_same mem i 16 intact h (omega arith),
        )
        refl

  round-Outside : (mem : Memory) (i a : ℕ) → Outside a i → round mem i a ≡ mem a
  unfolding round
  round-Outside mem i a out =
      memcpy_outside mem (vaddr image phoff mem0 i) (image + offset image phoff mem0 i)
        (filesz image phoff mem0 i) a out

  round-Intact : (mem : Memory) (i : ℕ) → Intact mem → i < phnum → Intact (round mem i)
  round-Intact mem i intact h a lo hi =
      round-Outside mem i a (ground (arith, ok.clear i h, lo, hi)) ∙ intact a lo hi

  round-Loaded : (mem : Memory) (i : ℕ) → Intact mem → i < phnum → Loaded (round mem i) i
  unfolding round
  round-Loaded mem i intact h k hk =
      memcpy_inside mem (vaddr image phoff mem0 i) (image + offset image phoff mem0 i)
        (filesz image phoff mem0 i) k (ground (arith, ok.clear i h, ok.within i h)) hk
      ∙ intact (image + offset image phoff mem0 i + k) (omega arith)
          (omega (arith, ok.within i h, hk))

  load_segments-all :
      (n i : ℕ) (mem : Memory)
      → i + n ≡ phnum
      → Intact mem
      → let mem' = load_segments image phoff n i mem in
        ((j : ℕ) → i ≤ j → j < phnum → Loaded mem' j)
        × ((a : ℕ) → ((j : ℕ) → i ≤ j → j < phnum → Outside a j) → mem' a ≡ mem a)
  load_segments-all zero i mem e intact =
      (λ j lo hi. absurd (omega (arith, lo, hi, e)), λ a out. unfold load_segments in refl)
  load_segments-all (suc n) i mem e intact =
      let h : i < phnum = omega (arith, e) in
      let mem1 = round mem i in
      let (loaded, same) =
        load_segments-all n (suc i) mem1 (omega (arith, e)) (round-Intact mem i intact h) in
      let step = load_round mem n i intact h in
      (
        λ j lo hi k hk.
            ap (λ (m : Memory). m (vaddr image phoff mem0 j + k)) step ∙ elim (ℕ_discrete j i) [
              | yes eq ↦
                  same (vaddr image phoff mem0 j + k) (λ j' lo' hi'.
                    ground (arith, ok.apart j j' hi hi' (λ d. omega (arith, d, eq, lo')), hk))
                  ∙ subst (λ (z : ℕ). Loaded mem1 z) (sym eq) (round-Loaded mem i intact h) k hk
              | no ne ↦ loaded j (omega (arith, lo, ne)) hi k hk
            ],
        λ a out.
            ap (λ (m : Memory). m a) step
            ∙ same a (λ j lo hi. out j (omega (arith, lo)) hi)
            ∙ round-Outside mem i a (out i (omega arith) h),
      )

-- `init_kernel` of a file that is apart from the places of its segments, which are apart from one
-- another: it enters the kernel at the entry point of the file header, in a memory in which the bytes
-- of each segment, as many as the file has, stand at its address, and which is as it was outside
-- of these places. The memory of a segment behind its bytes in the file is not cleared.
pub init_kernel-Loaded :
    (image size : ℕ) (mem : Memory)
    → let phoff = u32_at mem (image + 28) + image in
      let phnum = u16_at mem (image + 44) in
      Loadable image phoff size phnum mem
      → let mem' = (init_kernel image mem).0 in
        ((init_kernel image mem).1 ≡ u32_at mem (image + 24))
        × ((j k : ℕ)
            → j < phnum
            → k < filesz image phoff mem j
            → mem' (vaddr image phoff mem j + k) ≡ mem (image + offset image phoff mem j + k))
        × ((a : ℕ)
            → ((j : ℕ)
                → j < phnum
                → (a < vaddr image phoff mem j)
                  ⊎ (vaddr image phoff mem j + filesz image phoff mem j ≤ a))
            → mem' a ≡ mem a)
unfolding init_kernel
init_kernel-Loaded image size mem ok =
    let phoff = u32_at mem (image + 28) + image in
    let phnum = u16_at mem (image + 44) in
    let (loaded, same) =
      load_segments-all image phoff size phnum mem ok phnum 0 mem (omega arith) (λ a lo hi. refl) in
    (refl, (λ j k h hk. loaded j (omega arith) h k hk), λ a out. same a (λ j lo hi. out j hi))
