-- ===== src/Gpio/Defs.antt =====
-- The pins of src/gpio.rs: the lock set, `Pin::get` and drop, levels, pulls.
use rpi_devenv.Base.{
  ℕ, ◌+◌, ◌-◌, ◌*◌, ◌/◌, ◌%◌, bit_and, bit_or, Bool, not, Option, none, some, ltb, if◌then◌else◌,
}
use rpi_devenv.Bits.{◌<<<◌, not32, has}
use rpi_devenv.Machine.{
  M, ◌>>=◌, ◌>>◌, pure, read_volatile, write_volatile, data_memory_barrier, with_cs, spin_times,
}
use rpi_devenv.Gpio.State.{PinType, mode_bits, Pull, up, down}

abbrev pub function_select_base : ℕ
function_select_base = 0x20200000

abbrev pub set_base : ℕ
set_base = 0x2020001C

abbrev pub clear_base : ℕ
clear_base = 0x20200028

abbrev pub level_base : ℕ
level_base = 0x20200034

abbrev pub pull_control : ℕ
pull_control = 0x20200094

abbrev pub pull_set_base : ℕ
pull_set_base = 0x20200098

abbrev pub detect_status_base : ℕ
detect_status_base = 0x20200040

-- `fetch_or` and `fetch_and` on the two words of `GPIO_SET` return the old value.
update_lower : (ℕ → ℕ) → M ℕ
update_lower f s = (
  s.gpio_set.lower,
  record s { gpio_set = record { lower = f s.gpio_set.lower; upper = s.gpio_set.upper } },
)

update_upper : (ℕ → ℕ) → M ℕ
update_upper f s = (
  s.gpio_set.upper,
  record s { gpio_set = record { lower = s.gpio_set.lower; upper = f s.gpio_set.upper } },
)

unfoldable pub lock : ℕ → M Bool
unfolding update_lower update_upper
lock p =
    if ltb p 32
    then (do let mask = 1 <<< p; old ← update_lower (λ x. bit_or x mask); pure (has old mask))
    else do let mask = 1 <<< (p - 32); old ← update_upper (λ x. bit_or x mask); pure (has old mask)

unfoldable pub unlock : ℕ → M Bool
unfolding update_lower update_upper
unlock p =
    if ltb p 32
    then (do
      let mask = 1 <<< p
      old ← update_lower (λ x. bit_and x (not32 mask))
      pure (has old mask))
    else do
      let mask = 1 <<< (p - 32)
      old ← update_upper (λ x. bit_and x (not32 mask))
      pure (has old mask)

pub record Pin : Type 0 where
  pub number : ℕ
  pub mode : PinType

-- A pin number is below 53: the source asserts it at compile time.
unfoldable pub get : ℕ → PinType → M (Option Pin)
unfolding lock mode_bits
get p t = do
  lock p
  let address = function_select_base + 4 * (p / 10)
  let shift = p % 10 * 3
  data_memory_barrier
  with_cs (do
    func_sel ← read_volatile address
    write_volatile address
        (bit_or (bit_and func_sel (not32 (0b111 <<< shift))) (mode_bits t <<< shift)))
  pure (some (record { number = p; mode = t }))

unfoldable pub drop_pin : ℕ → M (Unit {0})
unfolding unlock
drop_pin p = do unlock p; pure tt

abbrev pub double_register_op : {A : Type 0} → ℕ → ℕ → (ℕ → ℕ → M A) → M A
double_register_op p base f = f (base + 4 * (p / 32)) (1 <<< (p % 32))

unfoldable pub set_high : ℕ → M (Unit {0})
set_high p = do data_memory_barrier; double_register_op p set_base write_volatile

unfoldable pub set_low : ℕ → M (Unit {0})
set_low p = do data_memory_barrier; double_register_op p clear_base write_volatile

-- For inputs and outputs, owned or borrowed.
unfoldable pub is_high : ℕ → M Bool
is_high p = do
  data_memory_barrier
  double_register_op p level_base
      (λ addr mask. do level ← read_volatile addr; pure (has level mask))

unfoldable pub is_low : ℕ → M Bool
unfolding is_high
is_low p = do high ← is_high p; pure (not high)

abbrev pub pull_bits : Option Pull → ℕ
pull_bits (some up) = 0b10
pull_bits (some down) = 0b01
pull_bits none = 0b00

unfoldable pub set_pull : ℕ → Option Pull → M (Unit {0})
set_pull p pull = do
  data_memory_barrier
  write_volatile pull_control (pull_bits pull)
  spin_times 150
  double_register_op p pull_set_base write_volatile
  spin_times 150
  write_volatile pull_control 0
