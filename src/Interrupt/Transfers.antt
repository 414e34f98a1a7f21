-- ===== src/Interrupt/Transfers.antt =====
-- The calls of src/aux/spi.rs that wait, woken through the dispatch of src/interrupt.rs.
use rpi_devenv.Base.{ℕ, ◌≡◌, refl, true, false, none, arith}
use rpi_devenv.Bits.{bit, has-shl}
use rpi_devenv.Machine.{Machine, M, spi_waker, woken, push, wake}
use rpi_devenv.Timer.Defs.{returned}
use rpi_devenv.Gpio.Detect.Rounds.{member}
use rpi_devenv.Spi.Defs as SpiDefs
use rpi_devenv.Spi.Waits.{Waits, Waits-armed}
use rpi_devenv.Aux
use rpi_devenv.Interrupt.Defs.{irq_pending_1, interrupt_handler}
use rpi_devenv.Interrupt.Dispatch.{IsAuxOnly, entered_handler, interrupt_handler-aux}
use rpi_devenv.Interrupt.Wakes.{aux_irq, entered_uart, member-push_self}

aux_handler-spi :
    (s : Machine)
    → bit 0 (aux_irq s) ≡ false
    → bit 1 (aux_irq s) ≡ true
    → (Aux.interrupt_handler s).1 ≡ (SpiDefs.interrupt_handler (entered_uart s)).1
unfolding Aux.interrupt_handler
aux_handler-spi s off on = ground (arith, has-shl (aux_irq s) 0, has-shl (aux_irq s) 1)

spi_handler-waker :
    (s : Machine)
    → ((SpiDefs.interrupt_handler s).1.waker spi_waker ≡ none)
      × (woken (SpiDefs.interrupt_handler s).1.log ≡ push (s.waker spi_waker) (woken s.log))
unfolding SpiDefs.interrupt_handler wake
spi_handler-waker s = ground arith

-- A task that waits for the SPI is woken through the dispatch: when the last poll of a flush, of a
-- write or of a transfer, in whatever part of the call, was pending, and the processor is then
-- interrupted with only the auxiliary interrupt pending, in which only the SPI asks, then the
-- interrupt returns, has woken the task and has emptied the slot.
pub interrupt_handler-wakes :
    (call : ℕ → ℕ → M (Unit {0})) (rounds fuel w : ℕ) (s : Machine)
    → Waits w s
    → IsAuxOnly s
    → bit 0 (aux_irq (entered_handler irq_pending_1 s)) ≡ false
    → bit 1 (aux_irq (entered_handler irq_pending_1 s)) ≡ true
    → let b = interrupt_handler call rounds fuel s in
      (b.0 ≡ returned tt) × (member w (woken b.1.log) ≡ true) × (b.1.waker spi_waker ≡ none)
interrupt_handler-wakes call rounds fuel w s waits only off on =
    let t = entered_handler irq_pending_1 s in
    let served = spi_handler-waker (entered_uart t) in
    let armed = Waits-armed w s waits in
    let woke_up : member w (woken (SpiDefs.interrupt_handler (entered_uart t)).1.log) ≡ true =
      rw served.1 (rw armed (member-push_self w _)) in
    rw (interrupt_handler-aux call rounds fuel s only, aux_handler-spi t off on)
      (refl, woke_up, served.0)
