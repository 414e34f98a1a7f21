-- ===== src/Uart/Served.antt =====
-- The interrupt handlers of src/aux/uart.rs and its two halves together.
use rpi_devenv.Base.{ℕ, ◌%◌, ◌^◌, bit_and, ◌≡◌, refl, ◌∙◌, true, none, ◌∷◌, if◌then◌else◌, arith}
use rpi_devenv.Bits.{bit, has, ◌>>>◌, has-shl, bit-and, bit-shr}
use rpi_devenv.Machine.{Machine, loaded, barrier, reader_waker, writer_waker, wake, woken, push}
use rpi_devenv.Uart.Defs.{interrupt_id_reg}
use rpi_devenv.Uart.Reader
use rpi_devenv.Uart.Writer
use rpi_devenv.Uart.Handler.{interrupt_handler}

three-bits : (bit 0 0b11 ≡ true) × (bit 1 0b11 ≡ true)
unfolding bit
three-bits = (refl, refl)

mask-bits :
    (x : ℕ)
    → (has (bit_and (x >>> 1) 0b11) 0b1 ≡ bit 1 x) × (has (bit_and (x >>> 1) 0b11) 0b10 ≡ bit 2 x)
mask-bits x = (
  has-shl (bit_and (x >>> 1) 0b11) 0
      ∙ ground (arith, bit-and 0 (x >>> 1) 0b11, bit-shr 0 1 x, three-bits.0),
  has-shl (bit_and (x >>> 1) 0b11) 1
      ∙ ground (arith, bit-and 1 (x >>> 1) 0b11, bit-shr 1 1 x, three-bits.1),
)

reader_handler-waker :
    (s : Machine)
    → ((Reader.interrupt_handler s).1.waker reader_waker ≡ none)
      × ((Reader.interrupt_handler s).1.waker writer_waker ≡ s.waker writer_waker)
      × (woken (Reader.interrupt_handler s).1.log ≡ push (s.waker reader_waker) (woken s.log))
unfolding Reader.interrupt_handler wake
reader_handler-waker s = ground arith

writer_handler-waker :
    (s : Machine)
    → ((Writer.interrupt_handler s).1.waker writer_waker ≡ none)
      × ((Writer.interrupt_handler s).1.waker reader_waker ≡ s.waker reader_waker)
      × (woken (Writer.interrupt_handler s).1.log ≡ push (s.waker writer_waker) (woken s.log))
unfolding Writer.interrupt_handler wake
writer_handler-waker s = ground arith

-- The interrupt handler of the Mini UART, for the interrupt register `x` that it reads: bit 1
-- empties the writer's slot and wakes the task found there, bit 2 the reader's; a half without
-- its bit keeps its waker, and no other task is woken.
pub interrupt_handler_lem :
    (s : Machine)
    → let x = s.hw (barrier ∷ s.log) interrupt_id_reg % 2 ^ 32 in
      let t = (interrupt_handler s).1 in
      (t.waker writer_waker ≡ (if bit 1 x then none else s.waker writer_waker))
      × (t.waker reader_waker ≡ (if bit 2 x then none else s.waker reader_waker))
      × (woken t.log
          ≡ push
              (if bit 2 x then s.waker reader_waker else none)
              (push (if bit 1 x then s.waker writer_waker else none) (woken s.log)))
unfolding interrupt_handler
interrupt_handler_lem s =
    let t0 : Machine = record s {
      log =
          loaded interrupt_id_reg (s.hw (barrier ∷ s.log) interrupt_id_reg % 2 ^ 32)
          ∷ barrier
          ∷ s.log;
    } in
    let x = s.hw (barrier ∷ s.log) interrupt_id_reg % 2 ^ 32 in
    ground (
      arith,
      mask-bits x,
      writer_handler-waker t0,
      reader_handler-waker t0,
      reader_handler-waker (Writer.interrupt_handler t0).1,
    )
