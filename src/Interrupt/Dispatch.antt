-- ===== src/Interrupt/Dispatch.antt =====
-- One interrupt of one source through the dispatch of src/interrupt.rs.
use rpi_devenv.Base.{ℕ, ◌%◌, ◌^◌, ◌≡◌, true, false, List, ◌∷◌, arith}
use rpi_devenv.Bits.{bit, has-shl}
use rpi_devenv.Machine.{Machine, M, Event, loaded, barrier}
use rpi_devenv.Timer.Defs.{returned}
use rpi_devenv.Aux
use rpi_devenv.Gpio.Detect.{interrupt_handler1}
use rpi_devenv.Interrupt.Defs.{
  irq_basic_pending, irq_pending_1, irq_pending_2, handle_pending, dispatch, run_handler,
  interrupt_handler,
}

-- What the dispatch reads first, and what it reads next from the pending register `reg`.
abbrev pub basic_of : Machine → ℕ
basic_of s = s.hw (barrier ∷ s.log) irq_basic_pending % 2 ^ 32

abbrev basic_log : Machine → List Event
basic_log s = loaded irq_basic_pending (basic_of s) ∷ barrier ∷ s.log

abbrev pub pending_of : ℕ → Machine → ℕ
pending_of reg s = s.hw (basic_log s) reg % 2 ^ 32

-- The state in which the first handler is called.
abbrev pub entered_handler : ℕ → Machine → Machine
entered_handler reg s = record s { log = loaded reg (pending_of reg s) ∷ basic_log s }

-- The last barrier of the dispatch.
abbrev pub closed : Machine → Machine
closed s = record s { log = barrier ∷ s.log }

-- Only the auxiliary peripherals' interrupt is pending, of those that have a handler.
pub record IsAuxOnly (s : Machine) : Type 0 where
  pub first : bit 8 (basic_of s) ≡ true
  pub second : bit 9 (basic_of s) ≡ false
  pub c1 : bit 1 (pending_of irq_pending_1 s) ≡ false
  pub c3 : bit 3 (pending_of irq_pending_1 s) ≡ false
  pub aux_bit : bit 29 (pending_of irq_pending_1 s) ≡ true

-- Only the interrupt of the first bank of pins is pending.
pub record IsBank1Only (s : Machine) : Type 0 where
  pub first : bit 8 (basic_of s) ≡ false
  pub second : bit 9 (basic_of s) ≡ true
  pub bank1 : bit 17 (pending_of irq_pending_2 s) ≡ true
  pub bank2 : bit 18 (pending_of irq_pending_2 s) ≡ false

module _ (call : ℕ → ℕ → M (Unit {0})) (rounds fuel : ℕ) (s : Machine) where
  pub interrupt_handler-aux :
      IsAuxOnly s
      → interrupt_handler call rounds fuel s
        ≡ (returned tt, closed (Aux.interrupt_handler (entered_handler irq_pending_1 s)).1)
  unfolding interrupt_handler dispatch handle_pending run_handler
  interrupt_handler-aux h =
      let x = basic_of s in
      let y = pending_of irq_pending_1 s in
      ground (arith, has-shl x 8, has-shl x 9, has-shl y 1, has-shl y 3, has-shl y 29, h)

  pub interrupt_handler-bank1 :
      IsBank1Only s
      → interrupt_handler call rounds fuel s
        ≡ (returned tt, closed (interrupt_handler1 (entered_handler irq_pending_2 s)).1)
  unfolding interrupt_handler dispatch handle_pending run_handler
  interrupt_handler-bank1 h =
      let x = basic_of s in
      let y = pending_of irq_pending_2 s in
      ground (arith, has-shl x 8, has-shl x 9, has-shl y 17, has-shl y 18, h)
