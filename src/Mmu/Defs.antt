-- ===== src/Mmu/Defs.antt =====
-- src/mmu.rs: the types, `SectionDescriptor::new`, and the loops that fill the table.
use rpi_devenv.Base.{
  ℕ, zero, suc, ◌-◌, ◌%◌, ◌^◌, bit_or, ap, Bool, true, false, not, ◌==◌, if◌then◌else◌,
}
use rpi_devenv.Bits.{◌<<<◌}

-- A section's number is a `u16`, a supersection's a `u8`.
pub data SectionBaseAddress : Type 0 where
  section super_section : ℕ → SectionBaseAddress

pub data AccessPermissions : Type 0 where
  no_access read_only_user_none read_only : AccessPermissions
  read_write_user_none read_write_user_read_only read_write : AccessPermissions

pub data CachePolicy : Type 0 where
  non_cacheable write_through write_back write_allocate : CachePolicy

pub data MemoryType : Type 0 where
  normal : CachePolicy → CachePolicy → Bool → MemoryType
  device : Bool → MemoryType
  strongly_ordered : MemoryType

pub record MemoryAttributes : Type 0 where
  pub execute : Bool
  pub global : Bool
  pub memory_type : MemoryType

abbrev pub SectionDescriptor : Type 0
SectionDescriptor = ℕ

abbrev pub num : Bool → ℕ
num true = 1
num false = 0

unfoldable pub base_bits : SectionBaseAddress → ℕ
base_bits (section addr) = addr <<< 20 % 2 ^ 32
base_bits (super_section addr) = bit_or (addr <<< 24 % 2 ^ 32) (1 <<< 18)

unfoldable pub shareable : MemoryType → Bool
shareable (normal inner outer s) = s
shareable (device s) = s
shareable strongly_ordered = true

unfoldable pub apx_ap : AccessPermissions → ℕ × ℕ
apx_ap no_access = (0, 0b00)
apx_ap read_only_user_none = (1, 0b01)
apx_ap read_only = (1, 0b10)
apx_ap read_write_user_none = (0, 0b01)
apx_ap read_write_user_read_only = (0, 0b10)
apx_ap read_write = (0, 0b11)

unfoldable pub outer_tex : CachePolicy → ℕ
outer_tex non_cacheable = 0b100
outer_tex write_through = 0b110
outer_tex write_back = 0b111
outer_tex write_allocate = 0b101

unfoldable pub inner_c_b : CachePolicy → ℕ × ℕ
inner_c_b non_cacheable = (0, 0)
inner_c_b write_through = (1, 0)
inner_c_b write_back = (1, 1)
inner_c_b write_allocate = (0, 1)

unfoldable pub tex_c_b : MemoryType → ℕ × ℕ × ℕ
tex_c_b (normal inner outer s) = (outer_tex outer, (inner_c_b inner).0, (inner_c_b inner).1)
tex_c_b (device true) = (0b000, 0, 1)
tex_c_b (device false) = (0b010, 0, 0)
tex_c_b strongly_ordered = (0b000, 0, 0)

-- The `|=` of `SectionDescriptor::new`, one after the other.
unfoldable pub pack : ℕ → ℕ → ℕ → ℕ → ℕ → ℕ → ℕ → ℕ → ℕ → SectionDescriptor
pack base not_global share apx tex ap not_execute c b =
    let address = bit_or base (not_global <<< 17) in
    let address = bit_or address (share <<< 16) in
    let address = bit_or address (apx <<< 15) in
    let address = bit_or address (tex <<< 12) in
    let address = bit_or address (ap <<< 10) in
    let address = bit_or address (not_execute <<< 4) in
    let address = bit_or address (c <<< 3) in
    let address = bit_or address (b <<< 2) in bit_or address 0b10

unfoldable pub new : SectionBaseAddress → AccessPermissions → MemoryAttributes → SectionDescriptor
new base p m =
    pack (base_bits base) (num (not m.global)) (num (shareable m.memory_type)) (apx_ap p).0
      (tex_c_b m.memory_type).0 (apx_ap p).1 (num (not m.execute)) (tex_c_b m.memory_type).1
      (tex_c_b m.memory_type).2

unfoldable pub disabled : SectionDescriptor
disabled = 0

abbrev pub table_size : ℕ
table_size = 4096

abbrev pub stack_size : ℕ
stack_size = 1

abbrev pub mmio_start : ℕ
mmio_start = 512

abbrev pub mmio_len : ℕ
mmio_len = 16

-- The array of descriptors, by index.
abbrev pub TranslationTable : Type 0
TranslationTable = ℕ → SectionDescriptor

-- A `while index < ..` loop with `count` rounds from `index` on, which stores `entry index`.
unfoldable pub fill : (ℕ → SectionDescriptor) → ℕ → ℕ → TranslationTable → TranslationTable
fill entry index zero table = table
fill entry index (suc count) table =
    fill entry (suc index) count (λ i. if i == index then entry index else table i)

abbrev pub ram_attributes : MemoryAttributes
ram_attributes = record {
  execute = true;
  global = true;
  memory_type = normal write_back write_back true;
}

abbrev pub mmio_attributes : MemoryAttributes
mmio_attributes = record { execute = false; global = true; memory_type = device true }

-- The `u16` difference for the stack does not wrap.
unfoldable pub translation_table : TranslationTable
translation_table =
    let table =
      fill (λ i. new (section i) read_write ram_attributes) 0 (mmio_start - stack_size)
        (λ i. disabled) in
    let table = fill (λ i. new (section i) read_write mmio_attributes) mmio_start mmio_len table in
    fill (λ i. new (section (i - (table_size - mmio_start))) read_write ram_attributes)
      (table_size - stack_size - 1) stack_size table
