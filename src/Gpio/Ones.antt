-- ===== src/Gpio/Ones.antt =====
-- `IterOnes` of src/gpio.rs: the positions of the set bits of a `u32`, lowest first.
pub mod Complete
use rpi_devenv.Base.{
  ℕ, zero, suc, ◌%◌, ◌/◌, bit_and, Bool, true, false, Option, none, some, List, [], ◌∷◌, ◌==◌,
  if◌then◌else◌,
}
use rpi_devenv.Bits.{◌<<<◌, not32}

-- `u32::trailing_zeros`, on the digits left: 32 for 0.
unfoldable pub trailing_zeros : ℕ → ℕ → ℕ
trailing_zeros zero x = 0
trailing_zeros (suc n) x = if (x % 2) == 1 then 0 else suc (trailing_zeros n (x / 2))

-- The item and the iterator's new value.
unfoldable pub next : ℕ → Option (ℕ × ℕ)
next value =
    if value == 0
    then none
    else let t = trailing_zeros 32 value in some (t, bit_and value (not32 (1 <<< t)))

-- What a `for` loop over the iterator sees, in at most `fuel` rounds, and the iterator after it.
unfoldable pub collect : ℕ → ℕ → List ℕ × ℕ
collect zero value = ([], value)
collect (suc fuel) value = elim (next value) [
  | none ↦ ([], value)
  | some (t, rest) ↦ (t ∷ (collect fuel rest).0, (collect fuel rest).1)
]

-- A `u32` has 32 bits, so the loop takes 32 rounds at most.
unfoldable pub iter_ones : ℕ → List ℕ
iter_ones value = (collect 32 value).0
