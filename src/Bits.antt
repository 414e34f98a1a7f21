-- ===== src/Bits.antt =====
-- Single bits of a word, and how `|`, `&`, `!`, `<<` and `>>` of the source act on them.
mod Step
pub mod Fields
pub mod Join
use Step.{bit_or_step}
pub use Step.{bit_and_step}
use Prim.Native.Nat.{bit_and-bitwise}
use native.Mathlib.Nat.{pow-suc, one-le-pow, mul_comm, div-div-eq-div-mul}
use native.Mathlib.Nat.{pow-le-pow_right}
use rpi_devenv.Base.{
  ℕ, zero, suc, ◌+◌, ◌-◌, ◌*◌, ◌/◌, ◌%◌, ◌^◌, ◌≤◌, ◌<◌, bit_and, bit_or, ◌≡◌, refl, ap, ◌∙◌, Bool,
  true, false, not, ◌&&◌, ◌||◌, ◌≢◌, arith, ◌==◌, ltb, if◌then◌else◌, Bool-cases, inl, inr,
}

-- Bit `i` of `x`.
unfoldable pub bit : ℕ → ℕ → Bool
bit zero x = (x % 2) == 1
bit (suc i) x = bit i (x / 2)

-- The shifts of a value that stays in its width, `!x` at 32 bits.
infixl 75 ◌<<<◌ ◌>>>◌
abbrev pub ◌<<<◌ : ℕ → ℕ → ℕ
x <<< k = x * 2 ^ k

abbrev pub ◌>>>◌ : ℕ → ℕ → ℕ
x >>> k = x / 2 ^ k

abbrev pub not32 : ℕ → ℕ
not32 x = 2 ^ 32 - 1 - x

not-not : (b : Bool) → not (not b) ≡ b
not-not true = refl
not-not false = refl

pub bit-or : (i a b : ℕ) → bit i (bit_or a b) ≡ (bit i a || bit i b)
unfolding bit
bit-or zero a b = ground (arith, bit_or_step a b)
bit-or (suc i) a b = ap (bit i) (omega (arith, bit_or_step a b)) ∙ bit-or i (a / 2) (b / 2)

pub bit-and : (i a b : ℕ) → bit i (bit_and a b) ≡ (bit i a && bit i b)
unfolding bit
bit-and zero a b = ground (arith, bit_and_step a b)
bit-and (suc i) a b = ap (bit i) (omega (arith, bit_and_step a b)) ∙ bit-and i (a / 2) (b / 2)

bit-complement : (i w x : ℕ) → i < w → x < 2 ^ w → bit i (2 ^ w - 1 - x) ≡ not (bit i x)
unfolding bit
bit-complement i zero x h k = absurd (omega arith)
bit-complement zero (suc w) x h k = ground (arith, pow-suc 2 w, one-le-pow w 2)
bit-complement (suc i) (suc w) x h k =
    ap (bit i) (omega (arith, pow-suc 2 w, one-le-pow w 2))
    ∙ bit-complement i w (x / 2) (omega arith) (omega (arith, pow-suc 2 w))

pub bit-not32 : (i x : ℕ) → i < 32 → x < 2 ^ 32 → bit i (not32 x) ≡ not (bit i x)
bit-not32 i x h k = bit-complement i 32 x h k

pub bit-zero : (i : ℕ) → bit i 0 ≡ false
unfolding bit
bit-zero zero = refl
bit-zero (suc i) = bit-zero i

shl-suc : (x k : ℕ) → x <<< suc k ≡ x <<< k * 2
shl-suc x k = omega (arith, ap (λ (t : ℕ). x * t) (pow-suc 2 k))

pub bit-shl : (i k x : ℕ) → bit i (x <<< k) ≡ (if ltb i k then false else bit (i - k) x)
unfolding bit
bit-shl i zero x = ground arith
bit-shl zero (suc k) x = ground (arith, shl-suc x k)
bit-shl (suc i) (suc k) x = ap (bit i) (omega (arith, shl-suc x k)) ∙ bit-shl i k x ∙ ground arith

shr-suc : (x k : ℕ) → x >>> suc k ≡ (x / 2) >>> k
shr-suc x k = rw (pow-suc 2 k, mul_comm (2 ^ k) 2, ← div-div-eq-div-mul x 2 (2 ^ k))

pub bit-shr : (i k x : ℕ) → bit i (x >>> k) ≡ bit (i + k) x
unfolding bit
bit-shr i zero x = ground arith
bit-shr i (suc k) x =
    let e : suc (i + k) ≡ i + suc k = omega arith in
    ap (bit i) (shr-suc x k) ∙ bit-shr i k (x / 2) ∙ ap (λ (j : ℕ). bit j x) e

-- A word is known by its bits.
pub eq_of_bits : (w x y : ℕ) → x < 2 ^ w → y < 2 ^ w → ((i : ℕ) → i < w → bit i x ≡ bit i y) → x ≡ y
unfolding bit
eq_of_bits zero x y hx hy h = omega arith
eq_of_bits (suc w) x y hx hy h =
    let low : (x % 2) == 1 ≡ ((y % 2) == 1) = h 0 (omega arith) in
    let half : x / 2 ≡ y / 2 =
      eq_of_bits w (x / 2) (y / 2) (omega (arith, pow-suc 2 w)) (omega (arith, pow-suc 2 w))
        (λ i p. h (suc i) (omega arith)) in
    ground arith

pub bit-pow : (i k : ℕ) → bit i (2 ^ k) ≡ (i == k)
unfolding bit
bit-pow zero zero = refl
bit-pow zero (suc k) = ground (arith, pow-suc 2 k)
bit-pow (suc i) zero = bit-zero i ∙ ground arith
bit-pow (suc i) (suc k) = ap (bit i) (omega (arith, pow-suc 2 k)) ∙ bit-pow i k ∙ ground arith

pub bit_or-lt : (w a b : ℕ) → a < 2 ^ w → b < 2 ^ w → bit_or a b < 2 ^ w
bit_or-lt zero a b ha hb =
    let p : a ≡ 0 = omega arith in let q : b ≡ 0 = omega arith in rw (p, q) (omega arith)
bit_or-lt (suc w) a b ha hb = omega (
  arith,
  pow-suc 2 w,
  bit_or_step a b,
  bit_or-lt w (a / 2) (b / 2) (omega (arith, pow-suc 2 w)) (omega (arith, pow-suc 2 w)),
)

bit_and-zero : (b : ℕ) → bit_and 0 b ≡ 0
bit_and-zero b = simp bit_and-bitwise

bit_and_zero_below : (n a : ℕ) → a ≤ n → bit_and a 0 ≡ 0
bit_and_zero_below n zero h = bit_and-zero 0
bit_and_zero_below zero (suc a) h = absurd (omega arith)
bit_and_zero_below (suc n) (suc a) h =
    omega (arith, bit_and_step (suc a) 0, bit_and_zero_below n (suc a / 2) (omega arith))

pub bit_and_zero : (a : ℕ) → bit_and a 0 ≡ 0
bit_and_zero a = bit_and_zero_below a a (omega arith)

pub bit_and-le : (w a b : ℕ) → a < 2 ^ w → bit_and a b ≤ a
bit_and-le zero a b ha = let p : a ≡ 0 = omega arith in rw p (omega (arith, bit_and-zero b))
bit_and-le (suc w) a b ha =
    omega (arith, bit_and_step a b, bit_and-le w (a / 2) (b / 2) (omega (arith, pow-suc 2 w)))

bit_and-pow : (x k : ℕ) → (bit_and x (2 ^ k) == 0) ≡ not (bit k x)
unfolding bit
bit_and-pow x zero = ground (arith, bit_and_step x 1, bit_and_zero (x / 2))
bit_and-pow x (suc k) =
    ground (arith, bit_and_step x (2 ^ suc k), pow-suc 2 k) ∙ bit_and-pow (x / 2) k

-- `x & mask != 0`.
abbrev pub has : ℕ → ℕ → Bool
has x mask = not (bit_and x mask == 0)

one_shl : (k : ℕ) → 1 <<< k ≡ 2 ^ k
one_shl k = omega arith

pub has-shl : (x k : ℕ) → has x (1 <<< k) ≡ bit k x
has-shl x k = rw (one_shl k, bit_and-pow x k) (not-not (bit k x))

pub bit-one_shl : (i k : ℕ) → bit i (1 <<< k) ≡ (i == k)
bit-one_shl i k = rw (one_shl k) (bit-pow i k)

pub shl-lt : (k : ℕ) → k < 32 → 1 <<< k < 2 ^ 32
shl-lt k h = omega (arith, pow-le-pow_right {n = 2} (omega arith) {i = k} {j = 31} (omega arith))

-- `x & !(1 << k)` clears bit `k` alone.
pub bit-clear :
    (i k x : ℕ) → i < 32 → k < 32 → bit i (bit_and x (not32 (1 <<< k))) ≡ (bit i x && not (i == k))
bit-clear i k x hi hk =
    rw (bit-and i x (not32 (1 <<< k)), bit-not32 i (1 <<< k) hi (shl-lt k hk), bit-one_shl i k)

-- `x | 1 << k` sets bit `k` alone.
pub bit-set : (i k x : ℕ) → bit i (bit_or x (1 <<< k)) ≡ (bit i x || (i == k))
bit-set i k x = rw (bit-or i x (1 <<< k), bit-one_shl i k)
