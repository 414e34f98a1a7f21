-- ===== src/Uart/Defs.antt =====
-- src/aux/uart.rs and src/aux/uart/registers.rs: registers, baud rates, configuration, and the
-- pair of a reader and a writer.
use rpi_devenv.Base.{
  ℕ, ◌-◌, ◌*◌, ◌/◌, bit_or, Bool, true, false, ◌&&◌, Option, none, some, leb, if◌then◌else◌,
}
use rpi_devenv.Bits.{has}
use rpi_devenv.Machine.{
  M, ◌>>=◌, ◌>>◌, pure, read_volatile, write_volatile, data_memory_barrier, with_cs,
}

abbrev pub io_reg : ℕ
io_reg = 0x20215040

abbrev pub interrupt_enable_reg : ℕ
interrupt_enable_reg = 0x20215044

abbrev pub interrupt_id_reg : ℕ
interrupt_id_reg = 0x20215048

abbrev pub line_control_reg : ℕ
line_control_reg = 0x2021504C

abbrev pub line_status_reg : ℕ
line_status_reg = 0x20215054

abbrev pub extra_control_reg : ℕ
extra_control_reg = 0x20215060

abbrev pub extra_status_reg : ℕ
extra_status_reg = 0x20215064

abbrev pub baudrate_reg : ℕ
baudrate_reg = 0x20215068

abbrev pub clock_speed : ℕ
clock_speed = 250_000_000

pub data BitMode : Type 0 where
  seven_bits eight_bits : BitMode

abbrev pub bit_mode_value : BitMode → ℕ
bit_mode_value seven_bits = 0
bit_mode_value eight_bits = 3

pub record BaudRate : Type 0 where
  pub rate : ℕ

-- `BaudRate::new`; `none` is its panic.
unfoldable pub new_baud_rate : ℕ → Option BaudRate
new_baud_rate b = if leb 476 b && leb b 31_250_000 then some (record { rate = b }) else none

-- No product or difference here leaves `u32` for a rate that `new_baud_rate` lets through.
unfoldable pub register_value : BaudRate → ℕ
register_value b = clock_speed / (8 * b.rate) - 1

pub record Config : Type 0 where
  pub baud_rate : BaudRate
  pub bit_mode : BitMode

unfoldable pub config_setup : Config → M (Unit {0})
config_setup c = do
  data_memory_barrier
  write_volatile line_control_reg (bit_mode_value c.bit_mode)
  write_volatile baudrate_reg (register_value c.baud_rate)

-- The critical section that `pair`, `Reader::get` and `Writer::get` begin with, for the bits that
-- they enable and the FIFOs that they clear.
unfoldable pub claim : ℕ → ℕ → M (Option (Unit {0}))
claim enables clears = with_cs (do
  control_reg ← read_volatile extra_control_reg
  if has control_reg 0b11 then pure none else (do
    write_volatile extra_control_reg (bit_or control_reg enables)
    write_volatile interrupt_id_reg clears
    pure (some tt)))

abbrev pub set_up_if : Config → Option (Unit {0}) → M Bool
set_up_if c none = pure false
set_up_if c (some _) = do config_setup c; pure true

-- `true` if both halves are returned. The handles hold only the pins.
unfoldable pub pair : Config → M Bool
pair c = do data_memory_barrier; r ← claim 0b11 0b110; set_up_if c r

-- `setup`, called before `main`.
unfoldable pub setup : M (Unit {0})
setup = do data_memory_barrier; write_volatile extra_control_reg 0
