-- ===== src/Bits/Step.antt =====
-- The native `bit_and` and `bit_or` by their lowest digit.
use Prim.Native.Nat.{digits, bit_and-bitwise, bit_or-bitwise}
use rpi_devenv.Base.{
  ℕ, zero, suc, ◌+◌, ◌-◌, ◌*◌, ◌/◌, ◌%◌, ◌≤◌, min, max, bit_and, bit_or, ◌≡◌, refl, arith, sym, ap,
  ◌∙◌,
}

module _ (rest_of : ℕ → ℕ) (op : ℕ → ℕ → ℕ) where
  abbrev rounds_of : ℕ → ℕ → ℕ → ℕ
  rounds_of = digits rest_of op

  at_zero : (r y : ℕ) → rounds_of r 0 y ≡ rest_of y
  at_zero zero y = refl
  at_zero (suc r) y = refl

  -- Rounds beyond the number itself change nothing.
  spare_rounds : (r x spare y : ℕ) → x ≤ r → rounds_of (r + spare) x y ≡ rounds_of r x y
  spare_rounds r zero spare y h = at_zero (r + spare) y ∙ sym (at_zero r y)
  spare_rounds zero (suc x) spare y h = absurd (omega arith)
  spare_rounds (suc r) (suc x) spare y h =
      let shift : suc r + spare ≡ suc (r + spare) = omega arith in
      ap (λ (k : ℕ). rounds_of k (suc x) y) shift
      ∙ ap (λ (t : ℕ). t * 2 + op (suc x % 2) (y % 2))
          (spare_rounds r (suc x / 2) spare (y / 2) (omega arith))

  -- The lowest digit apart, with as many rounds left as the half needs.
  lowest_apart :
      (x y half : ℕ)
      → half ≡ suc x / 2
      → rounds_of (suc x) (suc x) y ≡ rounds_of half half (y / 2) * 2 + op (suc x % 2) (y % 2)
  lowest_apart x y half e =
      let enough : half + (x - half) ≡ x = omega arith in
      let less = spare_rounds half half (x - half) (y / 2) (omega arith) in
      ap (λ (t : ℕ). t * 2 + op (suc x % 2) (y % 2)) (rw (← e) (rw enough at less))

-- Both operations, at the half of the first number and at the lowest digits.
pub bit_and_step : (x y : ℕ) → bit_and x y ≡ bit_and (x / 2) (y / 2) * 2 + min (x % 2) (y % 2)
bit_and_step (suc x) y = simp bit_and-bitwise (lowest_apart (λ _. zero) min x y (suc x / 2) refl)
bit_and_step zero y = simp bit_and-bitwise (omega arith)

pub bit_or_step : (x y : ℕ) → bit_or x y ≡ bit_or (x / 2) (y / 2) * 2 + max (x % 2) (y % 2)
bit_or_step (suc x) y = simp bit_or-bitwise (lowest_apart (λ t. t) max x y (suc x / 2) refl)
bit_or_step zero y = simp bit_or-bitwise (omega arith)
