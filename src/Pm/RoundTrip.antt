-- ===== src/Pm/RoundTrip.antt =====
-- src/kernel/main.c: what `init_descriptor` packs into a descriptor is what the readers take out.
use Prim.Native.Nat.{bit_or}
use aneasyos.Base.{
  ℕ, ◌+◌, ◌*◌, ◌/◌, ◌%◌, ◌<◌, ◌≡◌, refl, Bool, true, ◌&&◌, if◌then◌else◌, update, ◌==◌, arith,
  holds_below, holds_at,
}
use aneasyos.Base.Word.{word}
use aneasyos.Pm.{
  Descriptor, init_descriptor, seg_linear, seg2phy, fork_base, text_limit, data_limit, seg_size,
  init_idt_desc, sel_kernel_cs,
}

-- For a 32-bit base and a 20-bit limit, the base that `ldt_seg_linear` and `do_fork` read from a
-- descriptor made by `init_descriptor` is the base given, both of the limits that `do_fork` reads
-- are the limit given, and so is the low byte of the attribute.
pub init_descriptor_fields :
    (base limit attribute : ℕ)
    → base < word
    → limit < 0x100000
    → let d = init_descriptor base limit attribute in
      (seg_linear d ≡ base)
      × (fork_base d ≡ base)
      × (text_limit d ≡ limit)
      × (data_limit d ≡ limit)
      × (d.attr1 ≡ attribute % 0x100)
unfolding init_descriptor seg_linear fork_base text_limit data_limit
init_descriptor_fields base limit attribute hb hl = ground arith

-- The size that `do_fork` computes for a segment of a 20-bit limit is `limit + 1` pages where the
-- attribute has the 4K granularity bit, and `limit + 1` bytes where it has not, modulo 2 ^ 32.
pub seg_size_granularity :
    (base limit attribute : ℕ)
    → limit < 0x100000
    → let d = init_descriptor base limit attribute in
      seg_size (text_limit d) d
      ≡ (if attribute / 0x8000 % 2 == 1 then (limit + 1) * 4096 % word else limit + 1)
unfolding init_descriptor text_limit seg_size
seg_size_granularity base limit attribute hl = ground arith

-- A selector whose table entry was written by `init_descriptor` is translated by `seg2phy` to the
-- 32-bit base given, whatever its low three bits are.
pub seg2phy-init_descriptor :
    (gdt : ℕ → Descriptor) (index low base limit attribute : ℕ)
    → low < 8
    → base < word
    → seg2phy (update gdt index (init_descriptor base limit attribute)) (index * 8 + low) ≡ base
unfolding seg2phy seg_linear init_descriptor
seg2phy-init_descriptor gdt index low base limit attribute hl hb = ground arith

abbrev attr_fields : ℕ → ℕ → Bool
attr_fields t p =
    let a = bit_or t (p * 0x20) % 0x100 in
    if t / 0x20 % 4 == 0
    then (a / 0x20 % 4 == p) && ((a % 0x20 == t % 0x20) && (a / 0x80 == t / 0x80))
    else true

attr_table : holds_below (λ t. holds_below (attr_fields t) 4) 256 ≡ true
unfolding holds_below
attr_table = refl

attr-fields : (t p : ℕ) → t < 256 → p < 4 → attr_fields t p ≡ true
attr-fields t p ht hp =
    holds_at (attr_fields t) hp (holds_at (λ t. holds_below (attr_fields t) 4) ht attr_table)

-- An interrupt gate made by `init_idt_desc` for a 32-bit handler address leads to that address in
-- the kernel's code segment, and has the type given in its low bits and the privilege in bits 5 and
-- 6, for a type with those bits clear and a privilege below 4.
pub init_idt_desc_fields :
    (desc_type handler privilege : ℕ)
    → desc_type < 0x100
    → desc_type / 0x20 % 4 ≡ 0
    → handler < word
    → privilege < 4
    → let g = init_idt_desc desc_type handler privilege in
      (g.offset_high * 0x10000 + g.offset_low ≡ handler)
      × (g.selector ≡ sel_kernel_cs)
      × (g.attr / 0x20 % 4 ≡ privilege)
      × (g.attr % 0x20 ≡ desc_type % 0x20)
      × (g.attr / 0x80 ≡ desc_type / 0x80)
unfolding init_idt_desc
init_idt_desc_fields desc_type handler privilege ht hz hh hp =
    ground (arith, attr-fields desc_type privilege ht hp)
