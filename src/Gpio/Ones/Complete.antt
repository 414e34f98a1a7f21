-- ===== src/Gpio/Ones/Complete.antt =====
-- The items of `IterOnes` of src/gpio.rs against the set positions of the word.
use rpi_devenv.Base.{
  ℕ, zero, suc, ◌+◌, ◌/◌, ◌^◌, ◌≤◌, ◌<◌, bit_and, ◌≡◌, refl, sym, ap, ◌∙◌, true, false, none, some,
  List, [], ◌∷◌, ◌==◌, if◌then◌else◌, Bool-cases, inl, inr, arith,
}
use native.Mathlib.Decide.{dec_lt}
use mathlib.Core.Bool.{false≢true}
use rpi_devenv.Bits.{bit, ◌<<<◌, not32, bit-zero, bit-clear, eq_of_bits, bit_and-le}
use rpi_devenv.Gpio.Ones.{trailing_zeros, next, collect, iter_ones}

-- The positions `i` with `j ≤ i < j + n` whose bit is set in `x`, lowest first.
unfoldable pub set_positions : ℕ → ℕ → ℕ → List ℕ
set_positions zero j x = []
set_positions (suc n) j x =
    let rest = set_positions n (suc j) x in if bit j x then j ∷ rest else rest

set_positions-congr :
    (n j x y : ℕ)
    → ((i : ℕ) → j ≤ i → i < j + n → bit i x ≡ bit i y)
    → set_positions n j x ≡ set_positions n j y
unfolding set_positions
set_positions-congr zero j x y h = refl
set_positions-congr (suc n) j x y h =
    ground
      (arith, h j, set_positions-congr n (suc j) x y (λ i p q. h i (omega arith) (omega arith)))

trailing_zeros-first :
    (j n x : ℕ)
    → j < n
    → bit j x ≡ true
    → ((i : ℕ) → i < j → bit i x ≡ false)
    → trailing_zeros n x ≡ j
unfolding trailing_zeros bit
trailing_zeros-first j zero x h b low = absurd (omega arith)
trailing_zeros-first zero (suc n) x h b low = ground arith
trailing_zeros-first (suc j) (suc n) x h b low = ground (
  arith,
  low 0,
  trailing_zeros-first j n (x / 2) (omega arith) b (λ i p. low (suc i) (omega arith)),
)

next-first :
    (j x : ℕ)
    → j < 32
    → bit j x ≡ true
    → ((i : ℕ) → i < j → bit i x ≡ false)
    → next x ≡ some (j, bit_and x (not32 (1 <<< j)))
unfolding next
next-first j x h b low = elim (Bool-cases (x == 0)) [
  | inl e ↦ let z : x ≡ 0 = ground arith in absurd (false≢true (sym (bit-zero j) ∙ rw z at b))
  | inr e ↦ rw (e, trailing_zeros-first j 32 x h b low)
]

eq_zero_of_bits : (x : ℕ) → x < 2 ^ 32 → ((i : ℕ) → i < 32 → bit i x ≡ false) → x ≡ 0
eq_zero_of_bits x h b = eq_of_bits 32 x 0 h (omega arith) (λ i p. b i p ∙ sym (bit-zero i))

collect-zero : (fuel : ℕ) → collect fuel 0 ≡ ([], 0)
unfolding collect next
collect-zero zero = refl
collect-zero (suc fuel) = refl

collect-next :
    (fuel x t r : ℕ)
    → next x ≡ some (t, r)
    → collect (suc fuel) x ≡ (t ∷ (collect fuel r).0, (collect fuel r).1)
unfolding collect
collect-next fuel x t r e = rw (e, collect)

low_suc :
    (j x i : ℕ)
    → ((i : ℕ) → i < j → bit i x ≡ false)
    → bit j x ≡ false
    → i < suc j
    → bit i x ≡ false
low_suc j x i low off h = elim (dec_lt i j) [
  | yes p ↦ low i p
  | no p ↦ let e : i ≡ j = omega arith in rw e off
]

module _ (j x : ℕ) (hj : j < 32) (hx : x < 2 ^ 32) where
  abbrev rest : ℕ
  rest = bit_and x (not32 (1 <<< j))

  rest-lt : rest < 2 ^ 32
  rest-lt = omega (arith, bit_and-le 32 x (not32 (1 <<< j)) hx)

  rest-low : ((i : ℕ) → i < j → bit i x ≡ false) → (i : ℕ) → i < suc j → bit i rest ≡ false
  rest-low low i p = ground (arith, bit-clear i j x, low i)

  rest-high : (i : ℕ) → suc j ≤ i → i < 32 → bit i rest ≡ bit i x
  rest-high i p q = ground (arith, bit-clear i j x)

collect-eq-set_positions :
    (n j fuel x : ℕ)
    → x < 2 ^ 32
    → j + n ≡ 32
    → n ≤ fuel
    → ((i : ℕ) → i < j → bit i x ≡ false)
    → collect fuel x ≡ (set_positions n j x, 0)
unfolding set_positions
collect-eq-set_positions zero j fuel x h e enough low =
    let z : x ≡ 0 = eq_zero_of_bits x h (λ i p. low i (omega arith)) in rw z (collect-zero fuel)
collect-eq-set_positions (suc n) j zero x h e enough low = absurd (omega arith)
collect-eq-set_positions (suc n) j (suc fuel) x h e enough low = elim (Bool-cases (bit j x)) [
  | inl on ↦
      let hj : j < 32 = omega arith in
      let ih =
        collect-eq-set_positions n (suc j) fuel (rest j x hj h) (rest-lt j x hj h) (omega arith)
          (omega arith) (rest-low j x hj h low) in
      let same =
        set_positions-congr n (suc j) (rest j x hj h) x
          (λ i p q. rest-high j x hj h i p (omega arith)) in
      rw (collect-next fuel x j (rest j x hj h) (next-first j x hj on low), on, ih, same)
  | inr off ↦ rw off (
      collect-eq-set_positions n (suc j) (suc fuel) x h (omega arith) (omega arith)
        (λ i p. low_suc j x i low off p))
]

next-zero : next 0 ≡ none
unfolding next
next-zero = refl

-- Over a `u32` the loop of `IterOnes` yields the positions of the set bits, each once and lowest
-- first, and within 32 rounds the iterator is exhausted.
pub iter_ones-eq-set_positions :
    (x : ℕ) → x < 2 ^ 32 → (iter_ones x ≡ set_positions 32 0 x) × (next (collect 32 x).1 ≡ none)
unfolding iter_ones
iter_ones-eq-set_positions x h =
    let all : collect 32 x ≡ (set_positions 32 0 x, 0) =
      collect-eq-set_positions 32 0 32 x h refl (omega arith) (λ i p. absurd (omega arith)) in
    (ap (λ p. p.0) all, rw all next-zero)
