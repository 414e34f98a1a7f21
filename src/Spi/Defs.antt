-- ===== src/Spi/Defs.antt =====
-- src/aux/spi.rs and src/aux/spi/registers.rs: registers, configuration, `get` and drop, the FIFOs.
use rpi_devenv.Base.{ℕ, ◌+◌, ◌*◌, ◌%◌, ◌^◌, bit_and, bit_or, Bool, true, false, ◌==◌, if◌then◌else◌}
use rpi_devenv.Bits.{has, not32, ◌<<<◌, ◌>>>◌}
use rpi_devenv.Machine.{
  M, ◌>>=◌, ◌>>◌, pure, read_volatile, write_volatile, data_memory_barrier,
  data_synchronization_barrier, with_cs, spi_waker, wake,
}

-- `AUX_ENABLES` of src/aux.rs.
abbrev pub aux_enables_reg : ℕ
aux_enables_reg = 0x20215004

abbrev pub spi1 : ℕ
spi1 = 0x20215080

-- `SPI1.add(offset)` on a pointer to `u32`: the offset counts words.
abbrev pub spi_reg : ℕ → ℕ
spi_reg offset = spi1 + 4 * offset

abbrev pub control0 : ℕ
control0 = spi_reg 0x00

abbrev pub control1 : ℕ
control1 = spi_reg 0x04

abbrev pub status_reg : ℕ
status_reg = spi_reg 0x08

abbrev pub io : ℕ
io = spi_reg 0x20

abbrev pub txhold : ℕ
txhold = spi_reg 0x30

pub data DataOutHold : Type 0 where
  h0 h1 h4 h7 : DataOutHold

abbrev pub hold_value : DataOutHold → ℕ
hold_value h0 = 0
hold_value h1 = 1
hold_value h4 = 2
hold_value h7 = 3

pub data Polarity : Type 0 where
  idle_low idle_high : Polarity

-- `Speed` and `CsHighTime` are a `u32` and a `u8`.
pub record Config : Type 0 where
  pub speed : ℕ
  pub post_input : Bool
  pub data_out_hold : DataOutHold
  pub in_rising : Bool
  pub out_rising : Bool
  pub out_most_significant_first : Bool
  pub in_most_significant_first : Bool
  pub extra_cs_high_time : ℕ
  pub keep_input : Bool
  pub polarity : Polarity

abbrev pub as_u32 : Bool → ℕ
as_u32 true = 1
as_u32 false = 0

abbrev pub idle_is_high : Polarity → Bool
idle_is_high idle_low = false
idle_is_high idle_high = true

-- The word for the first control register; a shift drops the bits that leave the word.
unfoldable pub cntl0 : Config → ℕ
cntl0 c =
    let x = bit_or (c.speed <<< 20 % 2 ^ 32) (as_u32 c.post_input <<< 16) in
    let x = bit_or x (1 <<< 14) in
    let x = bit_or x (hold_value c.data_out_hold <<< 12) in
    let x = bit_or x (1 <<< 11) in
    let x = bit_or x (as_u32 c.in_rising <<< 10) in
    let x = bit_or x (as_u32 c.out_rising <<< 8) in
    let x = bit_or x (as_u32 (idle_is_high c.polarity) <<< 7) in
    bit_or x (as_u32 c.out_most_significant_first <<< 6)

unfoldable pub cntl1 : Config → ℕ
cntl1 c =
    bit_or (bit_or (c.extra_cs_high_time <<< 8) (as_u32 c.in_most_significant_first <<< 1))
      (as_u32 c.keep_input)

-- The critical section at the start of `get`.
unfoldable pub claim : M Bool
claim = with_cs (do
  aux_enables ← read_volatile aux_enables_reg
  if has aux_enables (0b1 <<< 1)
      then pure false
      else (do write_volatile aux_enables_reg (bit_or aux_enables (0b1 <<< 1)); pure true))

abbrev configure_if : Config → Bool → M Bool
configure_if c false = pure false
configure_if c true = do
  write_volatile control0 (cntl0 c)
  write_volatile control1 (cntl1 c)
  pure true

-- `true` if the peripheral is returned. The handle holds only the pins.
unfoldable pub get : Config → M Bool
get c = do data_memory_barrier; free ← claim; configure_if c free

unfoldable pub drop_spi : M (Unit {0})
drop_spi = do
  data_memory_barrier
  write_volatile control0 (1 <<< 11)
  with_cs (do
    aux_enables ← read_volatile aux_enables_reg
    write_volatile aux_enables_reg (bit_and aux_enables (not32 0b10)))

-- Bit `i` of a register.
unfoldable pub read_bit : ℕ → ℕ → M Bool
read_bit reg i = do x ← read_volatile reg; pure (bit_and (x >>> i) 1 == 1)

unfoldable pub busy : M Bool
busy = read_bit status_reg 6

-- The reads and writes here are not volatile in the source.
unfoldable pub clear_fifos : M (Unit {0})
clear_fifos = do
  data_memory_barrier
  reg ← read_volatile control0
  write_volatile control0 (bit_or reg (1 <<< 9))
  data_synchronization_barrier
  write_volatile control0 reg

unfoldable pub interrupt_handler : M (Unit {0})
interrupt_handler = do
  data_memory_barrier
  with_cs (do
    reg ← read_volatile control1
    write_volatile control1 (bit_and reg (not32 (0b11 <<< 6)))
    wake spi_waker)
