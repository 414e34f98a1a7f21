-- ===== src/Uart/Handler.antt =====
-- The dispatch of `interrupt_handler` in src/aux/uart.rs.
use rpi_devenv.Base.{bit_and, if◌then◌else◌}
use rpi_devenv.Bits.{has, ◌>>>◌}
use rpi_devenv.Machine.{M, ◌>>=◌, ◌>>◌, pure, read_volatile, data_memory_barrier}
use rpi_devenv.Uart.Defs.{interrupt_id_reg}
use rpi_devenv.Uart.Reader
use rpi_devenv.Uart.Writer

unfoldable pub interrupt_handler : M (Unit {0})
interrupt_handler = do
  data_memory_barrier
  interrupt_id ← read_volatile interrupt_id_reg
  let interrupt_mask = bit_and (interrupt_id >>> 1) 0b11
  if has interrupt_mask 0b1 then Writer.interrupt_handler else pure tt
  if has interrupt_mask 0b10 then Reader.interrupt_handler else pure tt
