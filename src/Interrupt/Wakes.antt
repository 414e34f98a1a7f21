-- ===== src/Interrupt/Wakes.antt =====
-- Tasks that wait for a driver, woken through the dispatch of src/interrupt.rs.
use rpi_devenv.Base.{
  ℕ, ◌+◌, ◌%◌, ◌^◌, ◌<◌, ◌≡◌, refl, ◌∙◌, true, false, none, some, List, ◌∷◌, ◌==◌, arith,
}
use rpi_devenv.Bits.{bit, has-shl}
use rpi_devenv.Machine.{
  Machine, M, loaded, barrier, Poll, ready, pending, Result, ok, err, reader_waker, IsRegister,
  woken, push,
}
use rpi_devenv.Timer.Defs.{returned}
use rpi_devenv.Gpio.State.{Flag, register_of, DetectState}
use rpi_devenv.Gpio.Defs.{detect_status_base}
use rpi_devenv.Gpio.Detect.{detect, poll, interrupt_handler1}
use rpi_devenv.Gpio.Detect.Rounds.{member}
use rpi_devenv.Gpio.Detect.Lifecycle.{poll-armed, poll_lem, interrupt_handler1-wakes}
use rpi_devenv.Uart.Defs.{interrupt_id_reg}
use rpi_devenv.Uart.Reader.{poll_read, Error}
use rpi_devenv.Uart.Reader.Bytes.{Reported, poll_read-Received}
use rpi_devenv.Uart.Handler as UartHandler
use rpi_devenv.Uart.Served.{interrupt_handler_lem}
use rpi_devenv.Aux
use rpi_devenv.Aux.{aux_interrupt_status}
use rpi_devenv.Interrupt.Defs.{irq_pending_1, irq_pending_2, interrupt_handler}
use rpi_devenv.Interrupt.Dispatch.{
  IsBank1Only, IsAuxOnly, entered_handler, closed, interrupt_handler-bank1, interrupt_handler-aux,
}

-- A wait on a pin of the first bank completes through the dispatch: the first poll with a state
-- that is not empty is pending; if the processor is then interrupted and only the first bank's
-- interrupt is pending, with the pin's bit in the bank's status, the interrupt returns and has
-- woken the task, and the next poll is ready. The detect registers keep what is written.
pub poll-interrupt_handler-ready :
    (call : ℕ → ℕ → M (Unit {0})) (rounds fuel p w w' : ℕ) (st : DetectState) (s : Machine)
    → p < 32
    → (st == 0) ≡ false
    → ((f : Flag) → IsRegister s.hw (register_of f + 0))
    → IsBank1Only (poll p w (detect st) s).1
    → let t = entered_handler irq_pending_2 (poll p w (detect st) s).1 in
      bit p (t.hw (barrier ∷ t.log) detect_status_base % 2 ^ 32) ≡ true
      → let a = poll p w (detect st) s in
        let b = interrupt_handler call rounds fuel a.1 in
        (a.0.0 ≡ pending)
        × (b.0 ≡ returned tt)
        × (member w (woken b.1.log) ≡ true)
        × ((poll p w' a.0.1 b.1).0.0 ≡ ready tt)
poll-interrupt_handler-ready call rounds fuel p w w' st s hp e regs only seen =
    let a = poll p w (detect st) s in
    let armed = poll-armed p w st s e in
    let t = entered_handler irq_pending_2 a.1 in
    let woke_up = interrupt_handler1-wakes p w t hp (λ f. rw armed.3 (regs f)) armed.2 seen in
    rw (interrupt_handler-bank1 call rounds fuel a.1 only) (
      armed.0,
      refl,
      woke_up.0,
      (poll_lem p w' a.0.1 (closed (interrupt_handler1 t).1)).0 ∙ ground (arith, armed, woke_up, e),
    )

-- What the handler of the auxiliary peripherals reads, and the state it hands on.
abbrev pub aux_irq : Machine → ℕ
aux_irq s = s.hw (barrier ∷ s.log) aux_interrupt_status % 2 ^ 32

abbrev pub entered_uart : Machine → Machine
entered_uart s = record s { log = loaded aux_interrupt_status (aux_irq s) ∷ barrier ∷ s.log }

aux_handler-uart :
    (s : Machine)
    → bit 0 (aux_irq s) ≡ true
    → bit 1 (aux_irq s) ≡ false
    → (Aux.interrupt_handler s).1 ≡ (UartHandler.interrupt_handler (entered_uart s)).1
unfolding Aux.interrupt_handler
aux_handler-uart s on off = ground (arith, has-shl (aux_irq s) 0, has-shl (aux_irq s) 1)

pending-waker :
    (w : ℕ) (t : Machine) (bs : List ℕ) (r : Poll (Result Error ℕ))
    → Reported w t 0 bs r
    → r ≡ pending
    → t.waker reader_waker ≡ some w
pending-waker w t bs pending h e = h.2
pending-waker w t bs (ready (ok n)) h e = cc
pending-waker w t bs (ready (err x)) h e = cc

pub member-push_self : (w : ℕ) (ws : List ℕ) → member w (push (some w) ws) ≡ true
unfolding member
member-push_self w ws = ground arith

-- A read that waits for a byte is woken through the dispatch: if the poll is pending, and the
-- processor is then interrupted with only the auxiliary interrupt pending, in which only the Mini
-- UART asks, for the receiver, then the interrupt returns, has woken the task and has emptied the
-- reader's slot.
pub poll_read-interrupt_handler-wakes :
    (call : ℕ → ℕ → M (Unit {0})) (rounds fuel w : ℕ) (buf : List ℕ) (s : Machine)
    → (poll_read w buf s).0.0 ≡ pending
    → IsAuxOnly (poll_read w buf s).1
    → let t = entered_handler irq_pending_1 (poll_read w buf s).1 in
      bit 0 (aux_irq t) ≡ true
      → let t = entered_handler irq_pending_1 (poll_read w buf s).1 in
        bit 1 (aux_irq t) ≡ false
        → let u = entered_uart (entered_handler irq_pending_1 (poll_read w buf s).1) in
          bit 2 (u.hw (barrier ∷ u.log) interrupt_id_reg % 2 ^ 32) ≡ true
          → let b = interrupt_handler call rounds fuel (poll_read w buf s).1 in
            (b.0 ≡ returned tt)
            × (member w (woken b.1.log) ≡ true)
            × (b.1.waker reader_waker ≡ none)
poll_read-interrupt_handler-wakes call rounds fuel w buf s waits only on off rx =
    let a = poll_read w buf s in
    let t = entered_handler irq_pending_1 a.1 in
    let u = entered_uart t in
    let got = poll_read-Received w buf s in
    let armed = pending-waker w a.1 got.0 a.0.0 got.2 waits in
    let served = interrupt_handler_lem u in
    let woke_up : member w (woken (UartHandler.interrupt_handler u).1.log) ≡ true =
      rw served.2 (rw (rx, armed) (member-push_self w _)) in
    rw (interrupt_handler-aux call rounds fuel a.1 only, aux_handler-uart t on off)
      (refl, woke_up, served.1 ∙ rw rx)
