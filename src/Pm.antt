-- ===== src/Pm.antt =====
-- src/kernel/main.c, src/kernel/traps.c and src/include/pm.h: the descriptors of the segments and the gates.
-- The base and the limit are u32, the attribute is u16. Where the source joins bit fields that
-- overlap by `|` for no value of their types, the model adds them.
pub mod RoundTrip
mod Tests
use Prim.Native.Nat.{bit_or}
use aneasyos.Base.{ℕ, ◌+◌, ◌*◌, ◌/◌, ◌%◌, if◌then◌else◌}
use aneasyos.Base.Word.{word, add32, mul32}
use aneasyos.Base.Flags.{has_flag}

-- DESCRIPTOR
pub record Descriptor : Type 0 where
  pub limit_low : ℕ
  pub base_low : ℕ
  pub base_mid : ℕ
  pub attr1 : ℕ
  pub limit_high_attr2 : ℕ
  pub base_high : ℕ

-- GATE
pub record Gate : Type 0 where
  pub offset_low : ℕ
  pub selector : ℕ
  pub dcount : ℕ
  pub attr : ℕ
  pub offset_high : ℕ

abbrev pub sel_kernel_cs : ℕ
sel_kernel_cs = 0x08

abbrev pub sel_kernel_ds : ℕ
sel_kernel_ds = 0x10

abbrev pub sel_ldt_first : ℕ
sel_ldt_first = 0x28

abbrev pub ind_ldt_first : ℕ
ind_ldt_first = 5

abbrev pub gdt_size : ℕ
gdt_size = 128

unfoldable pub init_descriptor : ℕ → ℕ → ℕ → Descriptor
init_descriptor base limit attribute = record {
  limit_low = limit % 0x10000;
  base_low = base % 0x10000;
  base_mid = base / 0x10000 % 0x100;
  attr1 = attribute % 0x100;
  limit_high_attr2 = limit / 0x10000 % 0x10 + attribute / 0x100 / 0x10 % 0x10 * 0x10;
  base_high = base / 0x1000000 % 0x100;
}

-- `ldt_seg_linear`, and the body of `seg2phy`.
unfoldable pub seg_linear : Descriptor → ℕ
seg_linear d = (d.base_high * 0x1000000 + d.base_mid * 0x10000 + d.base_low) % word

unfoldable pub seg2phy : (ℕ → Descriptor) → ℕ → ℕ
unfolding seg_linear
seg2phy gdt seg = seg_linear (gdt (seg / 8))

-- `reassembly(high, high_shift, mid, mid_shift, low)`, with the shifts as powers of two.
abbrev pub reassembly : ℕ → ℕ → ℕ → ℕ → ℕ → ℕ
reassembly high high_unit mid mid_unit low = (high * high_unit + mid * mid_unit + low) % word

-- The base, the limit and the size in bytes as `do_fork` reads them from a descriptor.
unfoldable pub fork_base : Descriptor → ℕ
fork_base d = reassembly d.base_high 0x1000000 d.base_mid 0x10000 d.base_low

unfoldable pub text_limit : Descriptor → ℕ
text_limit d = reassembly 0 1 (d.limit_high_attr2 % 0x10) 0x10000 d.limit_low

unfoldable pub data_limit : Descriptor → ℕ
data_limit d = reassembly (d.limit_high_attr2 % 0x10) 0x10000 0 1 d.limit_low

-- The size is computed from a limit and the granularity bit of a descriptor.
unfoldable pub seg_size : ℕ → Descriptor → ℕ
seg_size limit d = mul32 (add32 limit 1) (if has_flag d.limit_high_attr2 0x80 then 4096 else 1)

-- `init_idt_desc`: the entry that it stores at `idt[vector]`. The handler is an address, the
-- privilege an unsigned char.
unfoldable pub init_idt_desc : ℕ → ℕ → ℕ → Gate
init_idt_desc desc_type handler privilege = record {
  offset_low = handler % 0x10000;
  selector = sel_kernel_cs;
  dcount = 0;
  attr = bit_or desc_type (privilege * 0x20) % 0x100;
  offset_high = handler / 0x10000 % 0x10000;
}
