-- ===== src/Uart/Baud.antt =====
-- The baud-rate register of src/aux/uart.rs.
use rpi_devenv.Base.{ℕ, ◌+◌, ◌-◌, ◌*◌, ◌/◌, ◌^◌, ◌≤◌, ◌<◌, ◌≡◌, ◌↔◌, some, arith}
use native.Mathlib.Nat.{div-mul-le_self, lt-div-mul-add, le-div_iff_mul-le, div-lt_iff_lt-mul}
use native.Mathlib.Decide.{dec_lt}
use rpi_devenv.Uart.Defs.{BaudRate, new_baud_rate, register_value, clock_speed}

too_big : ¬ (250_000_000 / (8 * 476) - 1 < 2 ^ 16)
too_big = omega arith

module _ (b : ℕ) (lo : 476 ≤ b) (hi : b ≤ 31_250_000) where
  abbrev quotient : ℕ
  quotient = clock_speed / (8 * b)

  below : quotient * (8 * b) ≤ clock_speed
  below = div-mul-le_self clock_speed (8 * b)

  above : clock_speed < quotient * (8 * b) + 8 * b
  above = lt-div-mul-add {a = clock_speed} {b = 8 * b} (omega arith)

  quotient_pos : 1 ≤ quotient
  quotient_pos = (le-div_iff_mul-le {x = 1} {y = clock_speed} (omega arith)).1 (omega arith)

  quotient_small : 477 ≤ b → quotient ≤ 65536
  quotient_small h =
      let lt : quotient < 65537 =
        (div-lt_iff_lt-mul {k = 8 * b} {x = clock_speed} {y = 65537} (omega arith)).1
          (omega arith) in
      omega arith

  value : (8 * b * (quotient - 1 + 1) ≤ clock_speed) × (clock_speed < 8 * b * (quotient - 1 + 2))
  value =
      let one : quotient - 1 + 1 ≡ quotient = omega (arith, quotient_pos) in
      let two : quotient - 1 + 2 ≡ quotient + 1 = omega (arith, quotient_pos) in
      rw (one, two) (omega (arith, below), omega (arith, above))

  fits_iff : (quotient - 1 < 2 ^ 16) ↔ (477 ≤ b)
  fits_iff = (
    (λ small. elim (dec_lt b 477) [
      | yes p ↦ let e : b ≡ 476 = omega arith in absurd (too_big (rw e at small))
      | no p ↦ omega arith
    ]),
    λ h. omega (arith, quotient_small h),
  )

-- For every rate that `BaudRate::new` lets through, the register value is the largest divider with
-- a rate of the transmitter, clock / (8 * (value + 1)), that is not below the one asked for; and it
-- fits the 16 bits of the register exactly if the rate is at least 477.
pub register_value_lem :
    (b : ℕ) (c : BaudRate)
    → new_baud_rate b ≡ some c
    → (8 * b * (register_value c + 1) ≤ clock_speed)
      × (clock_speed < 8 * b * (register_value c + 2))
      × ((register_value c < 2 ^ 16) ↔ (477 ≤ b))
unfolding new_baud_rate register_value
register_value_lem b c h =
    let lo : 476 ≤ b = ground arith in
    let hi : b ≤ 31_250_000 = ground arith in
    let e : c.rate ≡ b = ground arith in let v = value b lo hi in rw e (v.0, v.1, fits_iff b lo hi)
