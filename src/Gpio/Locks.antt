-- ===== src/Gpio/Locks.antt =====
-- `GPIO_SET` of src/gpio.rs as a set of pins: what `lock`, `unlock`, `Pin::get` and drop do to it,
-- and the function-select field that `Pin::get` writes.
use rpi_devenv.Base.{
  ℕ, ◌+◌, ◌-◌, ◌*◌, ◌/◌, ◌%◌, ◌^◌, ◌<◌, bit_and, bit_or, ◌≡◌, refl, ◌∙◌, Bool, false, not, ◌&&◌,
  ◌||◌, some, List, ◌∷◌, ◌==◌, ltb, if◌then◌else◌, Bool-cases, inl, inr, arith,
}
use rpi_devenv.Bits.{bit, ◌<<<◌, not32, has-shl, bit-set, bit-clear}
use rpi_devenv.Bits.Fields.{bit-mod, bit-write_field}
use rpi_devenv.Machine.{Machine, Event, peek, barrier, entered, IsRegister, after_rmw, hw-rmw}
use rpi_devenv.Gpio.State.{
  PinType, mode_bits, input, output, alternate0, alternate1, alternate2, alternate3, alternate4,
  alternate5,
}
use rpi_devenv.Gpio.Defs.{lock, unlock, get, function_select_base}

-- Is the pin marked in `GPIO_SET`?
abbrev pub held : ℕ → Machine → Bool
held p s = if ltb p 32 then bit p s.gpio_set.lower else bit (p - 32) s.gpio_set.upper

-- `lock` returns whether the pin was marked before, marks it, and changes no other pin's mark.
pub lock_lem :
    (p q : ℕ) (s : Machine)
    → p < 64
    → q < 64
    → ((lock p s).0 ≡ held p s) × (held q (lock p s).1 ≡ (held q s || (p == q)))
unfolding lock
lock_lem p q s hp hq = (
  ground (arith, has-shl s.gpio_set.lower p, has-shl s.gpio_set.upper (p - 32)),
  ground (arith, bit-set q p s.gpio_set.lower, bit-set (q - 32) (p - 32) s.gpio_set.upper),
)

-- `unlock` returns whether the pin was marked before, clears its mark, and changes no other's.
pub unlock_lem :
    (p q : ℕ) (s : Machine)
    → p < 64
    → q < 64
    → ((unlock p s).0 ≡ held p s) × (held q (unlock p s).1 ≡ (held q s && not (p == q)))
unfolding unlock
unlock_lem p q s hp hq = (
  ground (arith, has-shl s.gpio_set.lower p, has-shl s.gpio_set.upper (p - 32)),
  ground (arith, bit-clear q p s.gpio_set.lower, bit-clear (q - 32) (p - 32) s.gpio_set.upper),
)

-- The function-select register of a pin, and bit `k` of the pin's field in it.
abbrev pub select_register : ℕ → ℕ
select_register p = function_select_base + 4 * (p / 10)

abbrev pub function_bit : ℕ → ℕ → Machine → Bool
function_bit p k s = bit (p % 10 * 3 + k) (peek (select_register p) s)

abbrev barrier_entered : List Event → List Event
barrier_entered l = entered ∷ barrier ∷ l

abbrev selected : ℕ → PinType → ℕ → ℕ
selected p t x = bit_or (bit_and x (not32 (0b111 <<< (p % 10 * 3)))) (mode_bits t <<< (p % 10 * 3))

pub get-log :
    (p : ℕ) (t : PinType) (s : Machine)
    → let a = select_register p in
      let x = s.hw (barrier_entered s.log) a % 2 ^ 32 in
      ((get p t s).1.hw ≡ s.hw)
      × ((get p t s).1.log ≡ after_rmw a x (selected p t x) (barrier ∷ s.log))
unfolding get
get-log p t s = ground arith

get-some :
    (p : ℕ) (t : PinType) (s : Machine) → (get p t s).0 ≡ some (record { number = p; mode = t })
unfolding get
get-some p t s = refl

held-get : (p : ℕ) (t : PinType) (s : Machine) (q : ℕ) → held q (get p t s).1 ≡ held q (lock p s).1
unfolding get
held-get p t s q = refl

mode_bits-lt : (t : PinType) → mode_bits t < 8
unfolding mode_bits
mode_bits-lt input = omega arith
mode_bits-lt output = omega arith
mode_bits-lt alternate0 = omega arith
mode_bits-lt alternate1 = omega arith
mode_bits-lt alternate2 = omega arith
mode_bits-lt alternate3 = omega arith
mode_bits-lt alternate4 = omega arith
mode_bits-lt alternate5 = omega arith

selected-bit :
    (p : ℕ) (t : PinType) (x q k : ℕ)
    → k < 3
    → p / 10 ≡ q / 10
    → bit (q % 10 * 3 + k) (selected p t x)
      ≡ (if p == q then bit k (mode_bits t) else bit (q % 10 * 3 + k) x)
selected-bit p t x q k hk e =
    bit-write_field x (mode_bits t) (p % 10 * 3) (q % 10 * 3 + k) (mode_bits-lt t) (omega arith)
      (omega arith)
    ∙ elim (Bool-cases (p == q)) [
      | inl same ↦
          let i : p ≡ q = ground arith in
          let j : q % 10 * 3 + k - q % 10 * 3 ≡ k = omega arith in rw (same, i, j) (ground arith)
      | inr other ↦ rw other (ground arith)
    ]

module _ (s : Machine) (regs : (q : ℕ) → q < 53 → IsRegister s.hw (select_register q)) where
  peek-get :
      (p : ℕ) (t : PinType) (q : ℕ)
      → p < 53
      → q < 53
      → peek (select_register q) (get p t s).1 ≡ (
          if select_register p == select_register q
          then selected p t (peek (select_register p) s) % 2 ^ 32
          else peek (select_register q) s)
  peek-get p t q hp hq =
      let r = regs q hq in
      let r' = regs p hp in
      rw
        (
          (get-log p t s).0,
          (get-log p t s).1,
          hw-rmw r (select_register p) _ _ _,
          r.keeps barrier s.log refl,
          r'.keeps entered (barrier ∷ s.log) refl,
          r'.keeps barrier s.log refl,
        )
        (elim (Bool-cases (select_register p == select_register q)) [ inl e ↦ rw e | inr e ↦ rw e ])

  -- Bit `k` of a pin's function after `Pin::get`.
  function_bit-get :
      (p : ℕ) (t : PinType) (q k : ℕ)
      → p < 53
      → q < 53
      → k < 3
      → function_bit q k (get p t s).1
        ≡ (if p == q then bit k (mode_bits t) else function_bit q k s)
  function_bit-get p t q k hp hq hk =
      rw (peek-get p t q hp hq) (elim (Bool-cases (select_register p == select_register q)) [
        | inl e ↦
            let d : p / 10 ≡ q / 10 = ground arith in
            rw (
              e,
              bit-mod 32 (q % 10 * 3 + k) (selected p t (peek (select_register p) s)) (omega arith),
              selected-bit p t (peek (select_register p) s) q k hk d,
              d,
            )
        | inr e ↦ let ne : (p == q) ≡ false = ground arith in rw (e, ne)
      ])

  -- `Pin::get` returns a pin in every state, held or not. It marks the pin and no other, and sets
  -- the pin's function to the mode, leaving the functions of the other pins as they were, where the
  -- function-select registers of the pins below 53 keep what is written.
  pub get_lem :
      (p : ℕ) (t : PinType) (q k : ℕ)
      → p < 53
      → q < 53
      → k < 3
      → ((get p t s).0 ≡ some (record { number = p; mode = t }))
        × (held q (get p t s).1 ≡ (held q s || (p == q)))
        × (function_bit q k (get p t s).1
            ≡ (if p == q then bit k (mode_bits t) else function_bit q k s))
  get_lem p t q k hp hq hk = (
    get-some p t s,
    held-get p t s q ∙ (lock_lem p q s (omega arith) (omega arith)).1,
    function_bit-get p t q k hp hq hk,
  )
