-- ===== src/Mmu/Tests.antt =====
-- The theorems on the model of src/mmu.rs at concrete addresses.
use rpi_devenv.Base.{
  ◌-◌, ◌*◌, ◌^◌, ◌≡◌, refl, true, false, ◌&&◌, none, some, ltb, leb, if◌then◌else◌, arith,
}
use rpi_devenv.Mmu.Defs.{
  section, read_write, mmio_attributes, new, base_bits, apx_ap, tex_c_b, shareable, pack,
  translation_table,
}
use rpi_devenv.Mmu.Walk.{walk, walk-translation_table}

mmio_descriptor : new (section 0x200) read_write mmio_attributes ≡ 0x20010C16
unfolding new base_bits apx_ap tex_c_b shareable pack
mmio_descriptor = refl

walk-translation_table_example : walk translation_table 0xFFE00010 ≡ (
    if ltb 0xFFE00010 (511 * 2 ^ 20)
    then some (0xFFE00010, true)
    else if leb (512 * 2 ^ 20) 0xFFE00010 && ltb 0xFFE00010 (528 * 2 ^ 20)
    then some (0xFFE00010, false)
    else if leb (4094 * 2 ^ 20) 0xFFE00010 && ltb 0xFFE00010 (4095 * 2 ^ 20)
    then some (0xFFE00010 - 3584 * 2 ^ 20, true)
    else none)
walk-translation_table_example = walk-translation_table 0xFFE00010 (omega arith)
