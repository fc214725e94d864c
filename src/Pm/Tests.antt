-- ===== src/Pm/Tests.antt =====
-- src/kernel/main.c and src/kernel/traps.c: descriptors as `cstart` and `init_prot` make them, and the
-- theorems at such values.
use aneasyos.Base.{◌≡◌, refl, arith}
use aneasyos.Pm.{Descriptor, init_descriptor, seg_linear, fork_base, text_limit, data_limit}
use aneasyos.Pm.RoundTrip.{init_descriptor_fields}

-- gdt[1]: DA_32 | DA_CR | DA_LIMIT_4K
abbrev code32 : Descriptor
code32 = init_descriptor 0 0xfffff 0xc09a

code32_bytes : code32 ≡ record {
  limit_low = 0xffff;
  base_low = 0;
  base_mid = 0;
  attr1 = 0x9a;
  limit_high_attr2 = 0xcf;
  base_high = 0;
}
unfolding init_descriptor
code32_bytes = refl

init_descriptor_fields_example :
    let d = init_descriptor 0x00b8_1234 0xffff 0x60f2 in
    (seg_linear d ≡ 0x00b8_1234)
    × (fork_base d ≡ 0x00b8_1234)
    × (text_limit d ≡ 0xffff)
    × (data_limit d ≡ 0xffff)
    × (d.attr1 ≡ 0xf2)
init_descriptor_fields_example =
    init_descriptor_fields 0x00b8_1234 0xffff 0x60f2 (omega arith) (omega arith)
