-- ===== src/Mmu/Fields.antt =====
-- The fields of a section descriptor of src/mmu.rs.
use rpi_devenv.Base.{
  ℕ, ◌+◌, ◌*◌, ◌/◌, ◌%◌, ◌^◌, ◌<◌, bit_or, ◌≡◌, ap, ◌∙◌, Bool, true, false, not, arith,
}
use rpi_devenv.Bits.Join.{bit_or-shl}
use rpi_devenv.Mmu.Defs.{
  section, AccessPermissions, no_access, read_only_user_none, read_only, read_write_user_none,
  read_write_user_read_only, read_write, CachePolicy, non_cacheable, write_through, write_back,
  write_allocate, MemoryType, normal, device, strongly_ordered, MemoryAttributes, outer_tex,
  inner_c_b, num, shareable, apx_ap, tex_c_b, pack, new, base_bits,
}

join : (k hi acc lo : ℕ) → acc ≡ hi * 2 ^ k → lo < 2 ^ k → bit_or acc lo ≡ acc + lo
join k hi acc lo e h = rw e (bit_or-shl k hi lo h)

pub pack_lem :
    (a g s x t p e c b : ℕ)
    → a < 4096
    → g < 2
    → s < 2
    → x < 2
    → t < 8
    → p < 4
    → e < 2
    → c < 2
    → b < 2
    → pack (a * 2 ^ 20) g s x t p e c b
      ≡ a * 2 ^ 20
        + g * 2 ^ 17
        + s * 2 ^ 16
        + x * 2 ^ 15
        + t * 2 ^ 12
        + p * 2 ^ 10
        + e * 2 ^ 4
        + c * 2 ^ 3
        + b * 2 ^ 2
        + 2
unfolding pack
pack_lem a g s x t p e c b ha hg hs hx ht hp he hc hb =
    let h1 = join 20 a (a * 2 ^ 20) (g * 2 ^ 17) (omega arith) (omega arith) in
    let a1 = a * 8 + g in
    let h2 = join 17 a1 (a * 2 ^ 20 + g * 2 ^ 17) (s * 2 ^ 16) (omega arith) (omega arith) in
    let a2 = a1 * 2 + s in
    let h3 =
      join 16 a2 (a * 2 ^ 20 + g * 2 ^ 17 + s * 2 ^ 16) (x * 2 ^ 15) (omega arith) (omega arith) in
    let a3 = a2 * 2 + x in
    let s3 = a * 2 ^ 20 + g * 2 ^ 17 + s * 2 ^ 16 + x * 2 ^ 15 in
    let h4 = join 15 a3 s3 (t * 2 ^ 12) (omega arith) (omega arith) in
    let a4 = a3 * 8 + t in
    let h5 = join 12 a4 (s3 + t * 2 ^ 12) (p * 2 ^ 10) (omega arith) (omega arith) in
    let a5 = a4 * 4 + p in
    let s5 = s3 + t * 2 ^ 12 + p * 2 ^ 10 in
    let h6 = join 10 a5 s5 (e * 2 ^ 4) (omega arith) (omega arith) in
    let a6 = a5 * 64 + e in
    let h7 = join 4 a6 (s5 + e * 2 ^ 4) (c * 2 ^ 3) (omega arith) (omega arith) in
    let a7 = a6 * 2 + c in
    let h8 = join 3 a7 (s5 + e * 2 ^ 4 + c * 2 ^ 3) (b * 2 ^ 2) (omega arith) (omega arith) in
    let a8 = a7 * 2 + b in
    let h9 = join 2 a8 (s5 + e * 2 ^ 4 + c * 2 ^ 3 + b * 2 ^ 2) 2 (omega arith) (omega arith) in
    rw (h1, h2, h3, h4, h5, h6, h7, h8) h9

num-lt : (b : Bool) → num b < 2
num-lt true = omega arith
num-lt false = omega arith

apx_ap-lt : (p : AccessPermissions) → ((apx_ap p).0 < 2) × ((apx_ap p).1 < 4)
unfolding apx_ap
apx_ap-lt no_access = (omega arith, omega arith)
apx_ap-lt read_only_user_none = (omega arith, omega arith)
apx_ap-lt read_only = (omega arith, omega arith)
apx_ap-lt read_write_user_none = (omega arith, omega arith)
apx_ap-lt read_write_user_read_only = (omega arith, omega arith)
apx_ap-lt read_write = (omega arith, omega arith)

outer_tex-lt : (c : CachePolicy) → outer_tex c < 8
unfolding outer_tex
outer_tex-lt non_cacheable = omega arith
outer_tex-lt write_through = omega arith
outer_tex-lt write_back = omega arith
outer_tex-lt write_allocate = omega arith

inner_c_b-lt : (c : CachePolicy) → ((inner_c_b c).0 < 2) × ((inner_c_b c).1 < 2)
unfolding inner_c_b
inner_c_b-lt non_cacheable = (omega arith, omega arith)
inner_c_b-lt write_through = (omega arith, omega arith)
inner_c_b-lt write_back = (omega arith, omega arith)
inner_c_b-lt write_allocate = (omega arith, omega arith)

tex_c_b-lt : (m : MemoryType) → ((tex_c_b m).0 < 8) × ((tex_c_b m).1 < 2) × ((tex_c_b m).2 < 2)
unfolding tex_c_b
tex_c_b-lt (normal inner outer s) =
    (outer_tex-lt outer, (inner_c_b-lt inner).0, (inner_c_b-lt inner).1)
tex_c_b-lt (device true) = (omega arith, omega arith, omega arith)
tex_c_b-lt (device false) = (omega arith, omega arith, omega arith)
tex_c_b-lt strongly_ordered = (omega arith, omega arith, omega arith)

-- The `width` bits of `d` from bit `low` on.
abbrev pub field : ℕ → ℕ → ℕ → ℕ
field low width d = d / 2 ^ low % 2 ^ width

-- A section descriptor of the ARMv6 manual, B4.7.4, with the fields of a section at `addr` MB. Every
-- one of the 32 bits is in a field: `domain` takes the bit above the domain with it.
pub record IsSection (addr : ℕ) (p : AccessPermissions) (m : MemoryAttributes) (d : ℕ)
    : Type 0 where
  pub is_word : d < 2 ^ 32
  pub base : field 20 12 d ≡ addr
  pub not_secure : field 19 1 d ≡ 0
  pub not_super : field 18 1 d ≡ 0
  pub not_global : field 17 1 d ≡ num (not m.global)
  pub shared : field 16 1 d ≡ num (shareable m.memory_type)
  pub apx : field 15 1 d ≡ (apx_ap p).0
  pub tex : field 12 3 d ≡ (tex_c_b m.memory_type).0
  pub ap : field 10 2 d ≡ (apx_ap p).1
  pub domain : field 5 5 d ≡ 0
  pub execute_never : field 4 1 d ≡ num (not m.execute)
  pub c : field 3 1 d ≡ (tex_c_b m.memory_type).1
  pub b : field 2 1 d ≡ (tex_c_b m.memory_type).2
  pub type_bits : field 0 2 d ≡ 0b10

pub new-IsSection :
    (addr : ℕ) (p : AccessPermissions) (m : MemoryAttributes)
    → addr < 4096
    → IsSection addr p m (new (section addr) p m)
unfolding new base_bits
new-IsSection addr p m h =
    let g = num-lt (not m.global) in
    let s = num-lt (shareable m.memory_type) in
    let x = apx_ap-lt p in
    let t = tex_c_b-lt m.memory_type in
    let e = num-lt (not m.execute) in
    let wrap : addr * 2 ^ 20 % 2 ^ 32 ≡ addr * 2 ^ 20 = omega arith in
    let sum =
      ap
        (λ (base : ℕ).
          pack base (num (not m.global)) (num (shareable m.memory_type)) (apx_ap p).0
            (tex_c_b m.memory_type).0 (apx_ap p).1 (num (not m.execute)) (tex_c_b m.memory_type).1
            (tex_c_b m.memory_type).2)
        wrap
      ∙ pack_lem addr _ _ _ _ _ _ _ _ h g s x.0 t.0 x.1 e t.1 t.2 in
    record {
      is_word = omega (arith, sum);
      base = omega (arith, sum);
      not_secure = omega (arith, sum);
      not_super = omega (arith, sum);
      not_global = omega (arith, sum);
      shared = omega (arith, sum);
      apx = omega (arith, sum);
      tex = omega (arith, sum);
      ap = omega (arith, sum);
      domain = omega (arith, sum);
      execute_never = omega (arith, sum);
      c = omega (arith, sum);
      b = omega (arith, sum);
      type_bits = omega (arith, sum);
    }
