-- ===== src/Spi/Duplex.antt =====
-- The `hal_nb::spi::FullDuplex` of src/aux/spi.rs, for words of 8 and of 16 bits.
use rpi_devenv.Base.{ℕ, ◌%◌, ◌^◌, bit_or, if◌then◌else◌}
use rpi_devenv.Bits.{◌<<<◌}
use rpi_devenv.Machine.{
  M, ◌>>=◌, ◌>>◌, pure, read_volatile, write_volatile, data_memory_barrier, NbResult, done,
  would_block,
}
use rpi_devenv.Spi.Defs.{status_reg, io, read_bit}

pub data Infallible : Type 0 where

-- `read` of a word of `width` bits.
abbrev read_word : ℕ → M (NbResult Infallible ℕ)
read_word width = do
  data_memory_barrier
  empty ← read_bit status_reg 7
  if empty then pure would_block else (do x ← read_volatile io; pure (done (x % 2 ^ width)))

abbrev write_word : ℕ → ℕ → M (NbResult Infallible (Unit {0}))
write_word width word = do
  data_memory_barrier
  full ← read_bit status_reg 10
  if full
      then pure would_block
      else (do write_volatile io (bit_or word (width <<< 24)); pure (done tt))

unfoldable pub read_u8 : M (NbResult Infallible ℕ)
read_u8 = read_word 8

unfoldable pub write_u8 : ℕ → M (NbResult Infallible (Unit {0}))
write_u8 word = write_word 8 word

unfoldable pub read_u16 : M (NbResult Infallible ℕ)
read_u16 = read_word 16

unfoldable pub write_u16 : ℕ → M (NbResult Infallible (Unit {0}))
write_u16 word = write_word 16 word
