-- ===== src/Aux.antt =====
-- src/aux.rs: the set-up and the interrupts of the auxiliary peripherals.
use rpi_devenv.Base.{ℕ, bit_or, if◌then◌else◌}
use rpi_devenv.Bits.{has}
use rpi_devenv.Machine.{M, ◌>>=◌, ◌>>◌, pure, read_volatile, write_volatile, data_memory_barrier}
use rpi_devenv.Spi.Defs.{aux_enables_reg}
use rpi_devenv.Spi.Defs as SpiDefs
use rpi_devenv.Uart.Defs as UartDefs
use rpi_devenv.Uart.Handler as UartHandler

abbrev pub aux_interrupt_status : ℕ
aux_interrupt_status = 0x20215000

unfoldable pub setup : M (Unit {0})
setup = do
  data_memory_barrier
  enable_state ← read_volatile aux_enables_reg
  write_volatile aux_enables_reg (bit_or enable_state 1)
  UartDefs.setup

unfoldable pub interrupt_handler : M (Unit {0})
interrupt_handler = do
  data_memory_barrier
  aux_irq ← read_volatile aux_interrupt_status
  if has aux_irq 0b1 then UartHandler.interrupt_handler else pure tt
  if has aux_irq 0b10 then SpiDefs.interrupt_handler else pure tt
