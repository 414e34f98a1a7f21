-- ===== src/Kernel.antt =====
-- kernel/src/main.rs: the demonstration on the SPI master's registers, and the panic handler.
-- The formatted writes are `write_fmt` of the `embedded_io` crate, a parameter.
mod Tests
use rpi_devenv.Base.{
  ℕ, zero, suc, ◌+◌, ◌-◌, ◌*◌, ◌/◌, ◌%◌, ◌^◌, ◌≤◌, ◌<◌, bit_and, bit_or, ◌≡◌, ◌≢◌, ◌↔◌, ◌⊎◌, refl,
  sym, ap, ◌∙◌, Bool, true, false, not, ◌&&◌, ◌||◌, Option, none, some, List, [], ◌∷◌, ◌++◌, map,
  ◌==◌, ltb, leb, if◌then◌else◌, Bool-cases, Option-cases, inl, inr, arith,
}
use rpi_devenv.Bits.{◌<<<◌, ◌>>>◌, not32}
use rpi_devenv.Machine.{
  M, Machine, ◌>>=◌, ◌>>◌, pure, read_volatile, write_volatile, data_memory_barrier,
}
use rpi_devenv.Gpio.State.{alternate5}
use rpi_devenv.Gpio.Defs as GpioDefs
use rpi_devenv.Uart.Defs.{Config}
use rpi_devenv.Uart.Writer.{get_unchecked}

abbrev aux_enables : ℕ
aux_enables = 0x20215004

abbrev pub spi_cntl0 : ℕ
spi_cntl0 = 0x20215080

abbrev spi_stat : ℕ
spi_stat = 0x20215088

abbrev spi_io : ℕ
spi_io = 0x202150A0

-- What is printed.
pub data Message : Type 0 where
  spi_status tx_level spi_control rx_level : ℕ → Message

-- The word that configures the master.
unfoldable pub speed_and_mode : ℕ
speed_and_mode =
    bit_or (bit_or (bit_or (bit_or (4999 <<< 20 % 2 ^ 32) (1 <<< 17)) (0b11 <<< 14)) (1 <<< 11))
      0b100

-- `main` up to its last loop, which does nothing; `rate` is the 115200 baud of `BaudRate::new`.
unfoldable pub main : (Message → M (Unit {0})) → Config → M (Unit {0})
main print config = do
  GpioDefs.get 14 alternate5
  get_unchecked config
  enables ← read_volatile aux_enables
  write_volatile aux_enables (bit_or enables 0b10)
  write_volatile spi_cntl0 speed_and_mode
  write_volatile spi_io (8 <<< 24)
  status ← read_volatile spi_stat
  print (spi_status status)
  print (tx_level (status >>> 28))
  cntl0 ← read_volatile spi_cntl0
  print (spi_control cntl0)
  write_volatile spi_cntl0 (bit_or cntl0 (1 <<< 9))
  cntl0' ← read_volatile spi_cntl0
  print (spi_control cntl0')
  write_volatile spi_cntl0 (bit_or cntl0' (not32 (1 <<< 9)))
  status' ← read_volatile spi_stat
  print (spi_status status')
  print (rx_level (status' >>> 20))

abbrev gpfsel4 : ℕ
gpfsel4 = 0x20200010

abbrev pub gpset1 : ℕ
gpset1 = 0x20200020

abbrev pub gpclr1 : ℕ
gpclr1 = 0x2020002C

-- The panic handler before its loop.
unfoldable pub set_led_output : M (Unit {0})
set_led_output = do
  data_memory_barrier
  read_volatile gpfsel4
  let mask = 0b111 <<< 21
  let output = 0b001 <<< 21
  reg ← read_volatile gpfsel4
  write_volatile gpfsel4 (bit_or (bit_and reg (not32 mask)) output)

-- `rounds` rounds of its loop. The delays touch no state.
unfoldable pub blink : ℕ → M (Unit {0})
blink zero = pure tt
blink (suc rounds) = do
  write_volatile gpset1 (1 <<< 15)
  write_volatile gpclr1 (1 <<< 15)
  blink rounds

unfoldable pub panic : ℕ → M (Unit {0})
panic rounds = do set_led_output; blink rounds
