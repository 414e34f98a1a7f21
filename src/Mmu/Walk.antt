-- ===== src/Mmu/Walk.antt =====
-- The address space that the translation table of src/mmu.rs makes.
use rpi_devenv.Base.{
  ℕ, zero, suc, ◌+◌, ◌-◌, ◌*◌, ◌/◌, ◌%◌, ◌^◌, ◌<◌, ◌≡◌, refl, ap, ◌∙◌, Bool, true, false, not, ◌&&◌,
  Option, none, some, ◌==◌, ltb, leb, if◌then◌else◌, Bool-cases, inl, inr, arith,
}
use native.Mathlib.Decide.{dec_lt}
use rpi_devenv.Mmu.Defs.{
  section, read_write, MemoryAttributes, ram_attributes, mmio_attributes, num, new, disabled,
  SectionDescriptor, TranslationTable, fill, translation_table,
}
use rpi_devenv.Mmu.Fields.{field, new-IsSection}

-- The walk of a first-level section as the ARMv6 manual, B4.7, describes it: the physical address
-- of a virtual one and whether an instruction may be fetched from it; `none` is a fault.
abbrev pub walk_entry : SectionDescriptor → ℕ → Option (ℕ × Bool)
walk_entry d v =
    if field 0 2 d == 0b10
    then some (field 20 12 d * 2 ^ 20 + v % 2 ^ 20, field 4 1 d == 0)
    else none

abbrev pub walk : TranslationTable → ℕ → Option (ℕ × Bool)
walk table v = walk_entry (table (v / 2 ^ 20)) v

fill_lem :
    (entry : ℕ → SectionDescriptor) (first count : ℕ) (table : TranslationTable) (i : ℕ)
    → fill entry first count table i
      ≡ (if leb first i && ltb i (first + count) then entry i else table i)
unfolding fill
fill_lem entry first zero table i = ground arith
fill_lem entry first (suc count) table i = fill_lem entry (suc first) count _ i ∙ ground arith

-- What the table says of a whole megabyte.
entry_lem :
    (i : ℕ)
    → translation_table i ≡ (
        if leb 4094 i && ltb i 4095
        then new (section (i - 3584)) read_write ram_attributes
        else if leb 512 i && ltb i 528
        then new (section i) read_write mmio_attributes
        else if ltb i 511
        then new (section i) read_write ram_attributes
        else disabled)
unfolding translation_table
entry_lem i =
    let t0 : TranslationTable = λ _. disabled in
    let t1 = fill (λ i. new (section i) read_write ram_attributes) 0 511 t0 in
    let t2 = fill (λ i. new (section i) read_write mmio_attributes) 512 16 t1 in
    fill_lem (λ i. new (section (i - 3584)) read_write ram_attributes) 4094 1 t2 i
    ∙ rw
        (
          fill_lem (λ i. new (section i) read_write mmio_attributes) 512 16 t1 i,
          fill_lem (λ i. new (section i) read_write ram_attributes) 0 511 t0 i,
        )
        (ground arith)

walk-new :
    (addr v : ℕ) (m : MemoryAttributes)
    → addr < 4096
    → walk_entry (new (section addr) read_write m) v ≡ some (addr * 2 ^ 20 + v % 2 ^ 20, m.execute)
walk-new addr v m h =
    let d = new-IsSection addr read_write m h in
    let x : (num (not m.execute) == 0) ≡ m.execute = ground arith in
    rw (d.type_bits, d.base, d.execute_never, x) refl

walk-entry :
    (v d : ℕ) → translation_table (v / 2 ^ 20) ≡ d → walk translation_table v ≡ walk_entry d v
walk-entry v d e = ap (λ (t : ℕ). walk_entry t v) e

-- The translation table maps the first 511 MB and the 16 MB from 512 MB on, the peripherals, to
-- themselves, and the megabyte of the stack, at 4094 MB, to the one at 510 MB, which is mapped
-- to itself too; an access to any other address faults. Instructions are fetched from all of
-- these but the peripherals.
pub walk-translation_table :
    (v : ℕ)
    → v < 2 ^ 32
    → walk translation_table v ≡ (
        if ltb v (511 * 2 ^ 20)
        then some (v, true)
        else if leb (512 * 2 ^ 20) v && ltb v (528 * 2 ^ 20)
        then some (v, false)
        else if leb (4094 * 2 ^ 20) v && ltb v (4095 * 2 ^ 20)
        then some (v - 3584 * 2 ^ 20, true)
        else none)
walk-translation_table v h =
    let i = v / 2 ^ 20 in
    let whole : i * 2 ^ 20 + v % 2 ^ 20 ≡ v = omega arith in
    elim (dec_lt v (511 * 2 ^ 20)) [
      | yes a ↦
          walk-entry v (new (section i) read_write ram_attributes) (entry_lem i ∙ ground arith)
          ∙ walk-new i v ram_attributes (omega arith)
          ∙ rw whole (ground arith)
      | no a ↦ elim (Bool-cases (leb (512 * 2 ^ 20) v && ltb v (528 * 2 ^ 20))) [
        | inl b ↦
            walk-entry v (new (section i) read_write mmio_attributes) (entry_lem i ∙ ground arith)
            ∙ walk-new i v mmio_attributes (omega arith)
            ∙ rw whole (ground arith)
        | inr b ↦ elim (Bool-cases (leb (4094 * 2 ^ 20) v && ltb v (4095 * 2 ^ 20))) [
          | inl c ↦
              walk-entry v (new (section (i - 3584)) read_write ram_attributes)
                (entry_lem i ∙ ground arith)
              ∙ walk-new (i - 3584) v ram_attributes (omega arith)
              ∙ ground arith
          | inr c ↦
              walk-entry v disabled (entry_lem i ∙ ground arith) ∙ unfold disabled in ground arith
        ]
      ]
    ]
