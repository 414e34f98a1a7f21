-- ===== src/Bits/Join.antt =====
-- Two words side by side: the `hi << 32 | lo` of src/system_time/driver.rs.
use rpi_devenv.Base.{ℕ, zero, suc, ◌+◌, ◌*◌, ◌/◌, ◌^◌, ◌≤◌, ◌<◌, bit_or, ◌≡◌, refl, ap, ◌∙◌, arith}
use rpi_devenv.Bits.{◌<<<◌}
use Prim.Native.Nat.{bit_or-bitwise}
use native.Mathlib.Nat.{pow-suc}
use rpi_devenv.Bits.Step.{bit_or_step}

bit_or_zero_below : (n a : ℕ) → a ≤ n → bit_or a 0 ≡ a
bit_or_zero_below n zero h = refl
bit_or_zero_below zero (suc a) h = absurd (omega arith)
bit_or_zero_below (suc n) (suc a) h =
    omega (arith, bit_or_step (suc a) 0, bit_or_zero_below n (suc a / 2) (omega arith))

-- If the low word fits its `k` bits, the disjunction is the sum.
pub bit_or-shl : (k hi lo : ℕ) → lo < 2 ^ k → bit_or (hi <<< k) lo ≡ hi * 2 ^ k + lo
bit_or-shl zero hi lo h =
    let e : lo ≡ 0 = omega arith in
    rw e (bit_or_zero_below (hi * 1) (hi * 1) (omega arith) ∙ omega arith)
bit_or-shl (suc k) hi lo h =
    let twice : hi * 2 ^ suc k ≡ hi * 2 ^ k * 2 =
      omega (arith, ap (λ (t : ℕ). hi * t) (pow-suc 2 k)) in
    let half : (hi * 2 ^ k * 2) / 2 ≡ hi * 2 ^ k = omega arith in
    let ih = bit_or-shl k hi (lo / 2) (omega (arith, pow-suc 2 k)) in
    rw twice (bit_or_step (hi * 2 ^ k * 2) lo ∙ rw (half, ih) (omega arith))

pub zero-bit_or : (a : ℕ) → bit_or 0 a ≡ a
zero-bit_or a = simp bit_or-bitwise

-- The low word first.
pub low-bit_or : (k hi lo : ℕ) → lo < 2 ^ k → bit_or lo (hi <<< k) ≡ hi * 2 ^ k + lo
low-bit_or zero hi lo h = let e : lo ≡ 0 = omega arith in rw e (zero-bit_or (hi * 1) ∙ omega arith)
low-bit_or (suc k) hi lo h =
    let twice : hi * 2 ^ suc k ≡ hi * 2 ^ k * 2 =
      omega (arith, ap (λ (t : ℕ). hi * t) (pow-suc 2 k)) in
    let half : (hi * 2 ^ k * 2) / 2 ≡ hi * 2 ^ k = omega arith in
    let ih = low-bit_or k hi (lo / 2) (omega (arith, pow-suc 2 k)) in
    rw twice (bit_or_step lo (hi * 2 ^ k * 2) ∙ rw (half, ih) (omega arith))

-- Two high parts above one low word.
pub high-bit_or :
    (k hi hi' lo : ℕ)
    → lo < 2 ^ k
    → bit_or (hi * 2 ^ k + lo) (hi' * 2 ^ k) ≡ bit_or hi hi' * 2 ^ k + lo
high-bit_or zero hi hi' lo h =
    let e : lo ≡ 0 = omega arith in
    let one : hi * 1 + 0 ≡ hi = omega arith in
    let one' : hi' * 1 ≡ hi' = omega arith in rw (e, one, one') (omega arith)
high-bit_or (suc k) hi hi' lo h =
    let p = pow-suc 2 k in
    let up : hi * 2 ^ suc k + lo ≡ hi * 2 ^ k * 2 + lo = omega (arith, ap (λ (t : ℕ). hi * t) p) in
    let up' : hi' * 2 ^ suc k ≡ hi' * 2 ^ k * 2 = omega (arith, ap (λ (t : ℕ). hi' * t) p) in
    let half : (hi * 2 ^ k * 2 + lo) / 2 ≡ hi * 2 ^ k + lo / 2 = omega arith in
    let half' : (hi' * 2 ^ k * 2) / 2 ≡ hi' * 2 ^ k = omega arith in
    let out = ap (λ (t : ℕ). bit_or hi hi' * t) p in
    let ih = high-bit_or k hi hi' (lo / 2) (omega (arith, p)) in
    rw (up, up')
      (bit_or_step (hi * 2 ^ k * 2 + lo) (hi' * 2 ^ k * 2)
        ∙ rw (half, half', ih) (omega (arith, out)))
