-- ===== src/Interrupt/Defs.antt =====
-- The interrupt controller of src/interrupt.rs, and `first_stage` of src/lib.rs.
use rpi_devenv.Base.{ℕ, ◌-◌, bit_or, List, [], ◌∷◌, if◌then◌else◌}
use rpi_devenv.Bits.{has, ◌<<<◌}
use rpi_devenv.Machine.{M, Machine, read_volatile, write_volatile, data_memory_barrier}
use rpi_devenv.Machine
use rpi_devenv.Timer.Defs.{T, ◌>>=◌, ◌>>◌, pure, lift, handler_c1, handler_c3}
use rpi_devenv.Gpio.Detect.{interrupt_handler1, interrupt_handler2}
use rpi_devenv.Aux

abbrev pub irq_basic_pending : ℕ
irq_basic_pending = 0x2000B200

abbrev pub irq_pending_1 : ℕ
irq_pending_1 = 0x2000B204

abbrev pub irq_pending_2 : ℕ
irq_pending_2 = 0x2000B208

abbrev pub enable_irqs_1 : ℕ
enable_irqs_1 = 0x2000B210

abbrev pub enable_irqs_2 : ℕ
enable_irqs_2 = 0x2000B214

-- The handlers that the tables name.
pub data Handler : Type 0 where
  timer_c1 timer_c3 aux gpio_bank1 gpio_bank2 : Handler

pub record InterruptDescriptor : Type 0 where
  pub number : ℕ
  pub handler : Handler

abbrev pub interrupt_sources1 : List InterruptDescriptor
interrupt_sources1 =
    record { number = 1; handler = timer_c1 }
    ∷ record { number = 3; handler = timer_c3 }
    ∷ record { number = 29; handler = aux }
    ∷ []

abbrev pub interrupt_sources2 : List InterruptDescriptor
interrupt_sources2 =
    record { number = 49; handler = gpio_bank1 } ∷ record { number = 50; handler = gpio_bank2 } ∷ []

-- The loop that gathers the mask of a table whose first number is `first`.
unfoldable pub gather : ℕ → ℕ → List InterruptDescriptor → ℕ
gather first mask [] = mask
gather first mask (d ∷ ds) = gather first (bit_or mask (1 <<< (d.number - first))) ds

unfoldable pub setup : M (Unit {0})
setup = Machine.◌>>◌ data_memory_barrier (
    Machine.◌>>◌ (write_volatile enable_irqs_1 (gather 0 0 interrupt_sources1))
      (write_volatile enable_irqs_2 (gather 32 0 interrupt_sources2)))

-- The loop over a table: each handler whose bit is pending, in the table's order.
unfoldable pub handle_pending :
    (Handler → T (Unit {0})) → ℕ → ℕ → List InterruptDescriptor → T (Unit {0})
handle_pending run first irqs [] = pure tt
handle_pending run first irqs (d ∷ ds) = do
  if has irqs (1 <<< (d.number - first)) then run d.handler else pure tt
  handle_pending run first irqs ds

-- The dispatch, with the handlers as a parameter.
unfoldable pub dispatch : (Handler → T (Unit {0})) → T (Unit {0})
dispatch run = do
  lift data_memory_barrier
  basic_pending ← lift (read_volatile irq_basic_pending)
  if has basic_pending (1 <<< 8)
      then (do
        pending_irqs ← lift (read_volatile irq_pending_1)
        handle_pending run 0 pending_irqs interrupt_sources1)
      else pure tt
  if has basic_pending (1 <<< 9)
      then (do
        pending_irqs ← lift (read_volatile irq_pending_2)
        handle_pending run 32 pending_irqs interrupt_sources2)
      else pure tt
  lift data_memory_barrier

-- The handlers of the tables; `call` runs an alarm's callback, and the alarms' loops run on fuel.
unfoldable pub run_handler : (ℕ → ℕ → M (Unit {0})) → ℕ → ℕ → Handler → T (Unit {0})
run_handler call rounds fuel timer_c1 = handler_c1 call rounds fuel
run_handler call rounds fuel timer_c3 = handler_c3 call rounds fuel
run_handler call rounds fuel aux = lift Aux.interrupt_handler
run_handler call rounds fuel gpio_bank1 = lift interrupt_handler1
run_handler call rounds fuel gpio_bank2 = lift interrupt_handler2

unfoldable pub interrupt_handler : (ℕ → ℕ → M (Unit {0})) → ℕ → ℕ → T (Unit {0})
interrupt_handler call rounds fuel = dispatch (run_handler call rounds fuel)

-- The call of `main` is a parameter: it never returns, so nothing follows it.
unfoldable pub first_stage : {A : Type 0} → M A → M A
first_stage main = Machine.◌>>◌ (Machine.with_cs Aux.setup) (Machine.◌>>◌ setup main)
