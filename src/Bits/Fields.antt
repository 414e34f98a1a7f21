-- ===== src/Bits/Fields.antt =====
-- Fields of a word: masks of several bits, values in their width.
use native.Mathlib.Nat.{
  pow-suc, pow-le-pow_right, one-le-pow, mod-lt, div-add-mod, mul-add-mod_self_left, mod-eq_of_lt,
}
use rpi_devenv.Base.{
  ℕ, zero, suc, ◌+◌, ◌-◌, ◌*◌, ◌/◌, ◌%◌, ◌^◌, ◌≤◌, ◌<◌, bit_and, bit_or, ◌≡◌, refl, ap, ◌∙◌, false,
  ◌&&◌, ◌||◌, ltb, leb, if◌then◌else◌, arith,
}
use rpi_devenv.Bits.{
  bit, has, bit_and_step, bit_and_zero, ◌<<<◌, not32, bit-zero, bit-or, bit-and, bit-not32, bit-shl,
}

-- A value below `2 ^ w` has no bit from `w` on.
pub bit-high : (w i x : ℕ) → x < 2 ^ w → w ≤ i → bit i x ≡ false
unfolding bit
bit-high zero i x h p = let z : x ≡ 0 = omega arith in rw z (bit-zero i)
bit-high (suc w) zero x h p = absurd (omega arith)
bit-high (suc w) (suc i) x h p = bit-high w i (x / 2) (omega (arith, pow-suc 2 w)) (omega arith)

mod_pow-suc : (w x : ℕ) → x % 2 ^ suc w ≡ x / 2 % 2 ^ w * 2 + x % 2
mod_pow-suc w x =
    let r : ℕ = x / 2 % 2 ^ w * 2 + x % 2 in
    let small : x / 2 % 2 ^ w < 2 ^ w = mod-lt (x / 2) (one-le-pow w 2 (omega arith)) in
    let fits : r < 2 ^ suc w = omega (arith, small, pow-suc 2 w) in
    let split : x ≡ 2 ^ suc w * (x / 2 / 2 ^ w) + r =
      omega
        (arith, div-add-mod (x / 2) (2 ^ w), ap (λ (t : ℕ). t * (x / 2 / 2 ^ w)) (pow-suc 2 w)) in
    ap (λ (t : ℕ). t % 2 ^ suc w) split
    ∙ mul-add-mod_self_left (2 ^ suc w) (x / 2 / 2 ^ w) r
    ∙ mod-eq_of_lt fits

-- A cast to `w` bits keeps the bits below `w`.
pub bit-mod : (w i x : ℕ) → i < w → bit i (x % 2 ^ w) ≡ bit i x
unfolding bit
bit-mod zero i x h = absurd (omega arith)
bit-mod (suc w) zero x h = ground (arith, mod_pow-suc w x)
bit-mod (suc w) (suc i) x h =
    ap (bit i) (omega (arith, mod_pow-suc w x)) ∙ bit-mod w i (x / 2) (omega arith)

bit-seven : (i : ℕ) → bit i 7 ≡ ltb i 3
unfolding bit
bit-seven zero = refl
bit-seven (suc zero) = refl
bit-seven (suc (suc zero)) = refl
bit-seven (suc (suc (suc i))) = bit-zero i ∙ ground arith

seven_shl-lt : (k : ℕ) → k ≤ 27 → 7 <<< k < 2 ^ 32
seven_shl-lt k h =
    omega (arith, pow-le-pow_right {n = 2} (omega arith) {i = k} {j = 27} (omega arith))

-- `(x & !(0b111 << k)) | (m << k)` writes `m` to the three bits at `k` and keeps the others.
pub bit-write_field :
    (x m k i : ℕ)
    → m < 8
    → k ≤ 27
    → i < 32
    → bit i (bit_or (bit_and x (not32 (7 <<< k))) (m <<< k))
      ≡ (if leb k i && ltb i (k + 3) then bit (i - k) m else bit i x)
bit-write_field x m k i hm hk hi = ground (
  arith,
  bit-or i (bit_and x (not32 (7 <<< k))) (m <<< k),
  bit-and i x (not32 (7 <<< k)),
  bit-not32 i (7 <<< k) hi (seven_shl-lt k hk),
  bit-shl i k 7,
  bit-shl i k m,
  bit-seven (i - k),
  bit-high 3 (i - k) m,
)

-- `x & 0b11 != 0`.
pub has-three : (x : ℕ) → has x 0b11 ≡ (bit 0 x || bit 1 x)
unfolding bit
has-three x = ground (arith, bit_and_step x 3, bit_and_step (x / 2) 1, bit_and_zero (x / 2 / 2))
