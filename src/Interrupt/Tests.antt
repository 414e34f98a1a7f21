-- ===== src/Interrupt/Tests.antt =====
-- Runs of the interrupt controller's model on concrete machines, and the theorems on them.
use rpi_devenv.Base.{
  ℕ, ◌+◌, ◌%◌, ◌^◌, ◌≡◌, refl, true, false, none, List, [], ◌∷◌, ◌==◌, if◌then◌else◌, arith,
}
use rpi_devenv.Bits.{bit}
use rpi_devenv.Machine.{
  Machine, barrier, ready, pending, ram, ram-IsRegister, woken, pure, M, reader_waker, for_each,
  set_waker,
}
use rpi_devenv.Timer.Defs.{returned}
use rpi_devenv.Gpio.State.{register_of, registers, iter_names, keep_contained, flag_bits}
use rpi_devenv.Gpio.Defs.{detect_status_base}
use rpi_devenv.Gpio.Detect.{detect, poll, enable_detection, setup_detection}
use rpi_devenv.Gpio.Detect.Rounds.{member}
use rpi_devenv.Uart.Defs.{Config, eight_bits, interrupt_id_reg, extra_control_reg}
use rpi_devenv.Uart.Locks.{lock_of, get_pair, do_ops}
use rpi_devenv.Uart.Reader.{poll_read, poll_from, look, await_data}
use rpi_devenv.Aux.{aux_interrupt_status}
use rpi_devenv.Spi.Defs.{aux_enables_reg}
use rpi_devenv.Spi.Lock.{is_enabled}
use rpi_devenv.Interrupt.Defs.{irq_basic_pending, irq_pending_1, irq_pending_2, interrupt_handler}
use rpi_devenv.Interrupt.Enabled.{enabled}
use rpi_devenv.Interrupt.Dispatch.{IsBank1Only, IsAuxOnly, entered_handler}
use rpi_devenv.Base.{Bool, some, ◌-◌, ◌/◌, length, min}
use rpi_devenv.Machine.{Poll, spi_waker, Event, AlarmState, woke, left}
use rpi_devenv.Spi.Defs.{status_reg, busy, read_bit, clear_fifos}
use rpi_devenv.Spi.Entry.{chunks, as_chunks}
use rpi_devenv.Spi.Async.{
  poll_flush, poll_transfer, start_transfer, rx_loop, tx_loop, send_or_wait, await_interrupt,
}
use rpi_devenv.Spi.Calls.{
  TransferCall, start_transfer_in_place, poll_transferring, poll_transfer_call,
}
use rpi_devenv.Spi.Waits.{Waits, in_transfer}
use rpi_devenv.Timer.Defs.{Outcome, set_alarm, now, system_time_chi, system_time_clo}
use rpi_devenv.Timer.Clock.{Clock}
use rpi_devenv.Timer.Ring.{Rang}
use rpi_devenv.Interrupt.Dispatch.{closed}
use rpi_devenv.Interrupt.Transfers.{interrupt_handler-wakes}
use rpi_devenv.Interrupt.Alarms.{IsAlarmOnly, set_alarm-interrupt_handler-rings}
use rpi_devenv.Interrupt.Wakes.{
  poll-interrupt_handler-ready, poll_read-interrupt_handler-wakes, aux_irq, entered_uart,
}
use rpi_devenv.Interrupt.Boot.{at_main, first_stage-ready}

abbrev over : (ℕ → ℕ) → Machine
over reset = record {
  hw = ram reset;
  log = [];
  waker = λ _. none;
  gpio_set = record { lower = 0; upper = 0 };
  driver = record { c1 = none; c3 = none };
}

abbrev no_call : ℕ → ℕ → M (Unit {0})
no_call f ctx = pure tt

-- Pin 5 has an event, and the first bank of pins interrupts.
abbrev bank1 : ℕ → ℕ
bank1 a =
    if a == irq_basic_pending
    then 0x200
    else if a == irq_pending_2
    then 0x20000
    else if a == detect_status_base
    then 0b100000
    else 0

bank1-only : IsBank1Only (poll 5 7 (detect 1) (over bank1)).1
unfolding poll detect setup_detection for_each registers enable_detection bit ram iter_names
    keep_contained flag_bits register_of
bank1-only = record { first = refl; second = refl; bank1 = refl; bank2 = refl }

bank1-seen :
    let t = entered_handler irq_pending_2 (poll 5 7 (detect 1) (over bank1)).1 in
    bit 5 (t.hw (barrier ∷ t.log) detect_status_base % 2 ^ 32) ≡ true
unfolding poll detect setup_detection for_each registers enable_detection bit ram iter_names
    keep_contained flag_bits register_of
bank1-seen = refl

poll-interrupt_handler-ready_example :
    let a = poll 5 7 (detect 1) (over bank1) in
    let b = interrupt_handler no_call 1 1 a.1 in
    (a.0.0 ≡ pending)
    × (b.0 ≡ returned tt)
    × (member 7 (woken b.1.log) ≡ true)
    × ((poll 5 8 a.0.1 b.1).0.0 ≡ ready tt)
poll-interrupt_handler-ready_example =
    poll-interrupt_handler-ready no_call 1 1 5 7 8 1 (over bank1) (omega arith) refl
      (λ f. ram-IsRegister bank1 (register_of f + 0)) bank1-only bank1-seen

-- The Mini UART has no data yet; then its receiver interrupts.
abbrev receiver : ℕ → ℕ
receiver a =
    if a == irq_basic_pending
    then 0x100
    else if a == irq_pending_1
    then 0x20000000
    else if a == aux_interrupt_status
    then 1
    else if a == interrupt_id_reg
    then 0b100
    else 0

abbrev buffer : List ℕ
buffer = 0 ∷ 0 ∷ []

receiver-pending : (poll_read 7 buffer (over receiver)).0.0 ≡ pending
unfolding poll_read poll_from look await_data ram
receiver-pending = refl

receiver-only : IsAuxOnly (poll_read 7 buffer (over receiver)).1
unfolding poll_read poll_from look await_data ram bit set_waker
receiver-only = record { first = refl; second = refl; c1 = refl; c3 = refl; aux_bit = refl }

receiver-irq :
    let t = entered_handler irq_pending_1 (poll_read 7 buffer (over receiver)).1 in
    let u = entered_uart t in
    (bit 0 (aux_irq t) ≡ true)
    × (bit 1 (aux_irq t) ≡ false)
    × (bit 2 (u.hw (barrier ∷ u.log) interrupt_id_reg % 2 ^ 32) ≡ true)
unfolding poll_read poll_from look await_data ram bit set_waker
receiver-irq = (refl, refl, refl)

poll_read-interrupt_handler-wakes_example :
    let b = interrupt_handler no_call 1 1 (poll_read 7 buffer (over receiver)).1 in
    (b.0 ≡ returned tt) × (member 7 (woken b.1.log) ≡ true) × (b.1.waker reader_waker ≡ none)
poll_read-interrupt_handler-wakes_example =
    poll_read-interrupt_handler-wakes no_call 1 1 7 buffer (over receiver) receiver-pending
      receiver-only receiver-irq.0 receiver-irq.1 receiver-irq.2

abbrev settings : Config
settings = record { baud_rate = record { rate = 115_200 }; bit_mode = eight_bits }

first_stage-ready_example :
    let s = at_main (over (λ a. 0)) in
    (is_enabled 0 s ≡ true)
    × (lock_of s ≡ record { rx = false; tx = false })
    × (enabled 29 s.log ≡ true)
    × ((do_ops settings (get_pair ∷ []) s).0 ≡ true ∷ [])
first_stage-ready_example =
    first_stage-ready settings 29 (over (λ a. 0)) (omega arith)
      (ram-IsRegister (λ a. 0) aux_enables_reg) (ram-IsRegister (λ a. 0) extra_control_reg)

-- Nothing has arrived for the SPI yet; then its interrupt is pending.
abbrev spi_asks : ℕ → ℕ
spi_asks a =
    if a == irq_basic_pending
    then 0x100
    else if a == irq_pending_1
    then 0x20000000
    else if a == aux_interrupt_status
    then 2
    else if a == status_reg
    then 0x80
    else 0

abbrev in_flight : (Poll (Unit {0}) × TransferCall) × Machine
in_flight = poll_transfer_call 7 (start_transfer_in_place (1 ∷ 2 ∷ [])) (over spi_asks)

in_flight-Waits : Waits 7 in_flight.1
unfolding poll_transfer_call poll_transferring start_transfer_in_place poll_flush busy read_bit
    clear_fifos poll_transfer start_transfer as_chunks rx_loop send_or_wait ram chunks
in_flight-Waits = in_transfer (start_transfer_in_place (1 ∷ 2 ∷ [])) (over spi_asks) refl

in_flight-only : IsAuxOnly in_flight.1
unfolding poll_transfer_call poll_transferring start_transfer_in_place poll_flush busy read_bit
    clear_fifos poll_transfer start_transfer as_chunks rx_loop send_or_wait ram chunks tx_loop
    await_interrupt set_waker bit
in_flight-only = record { first = refl; second = refl; c1 = refl; c3 = refl; aux_bit = refl }

in_flight-irq :
    let t = entered_handler irq_pending_1 in_flight.1 in
    (bit 0 (aux_irq t) ≡ false) × (bit 1 (aux_irq t) ≡ true)
unfolding poll_transfer_call poll_transferring start_transfer_in_place poll_flush busy read_bit
    clear_fifos poll_transfer start_transfer as_chunks rx_loop send_or_wait ram chunks tx_loop
    await_interrupt set_waker bit
in_flight-irq = (refl, refl)

interrupt_handler-wakes_example :
    let b = interrupt_handler no_call 1 1 in_flight.1 in
    (b.0 ≡ returned tt) × (member 7 (woken b.1.log) ≡ true) × (b.1.waker spi_waker ≡ none)
interrupt_handler-wakes_example =
    interrupt_handler-wakes no_call 1 1 7 in_flight.1 in_flight-Waits in_flight-only in_flight-irq.0
      in_flight-irq.1

-- A clock that ticks once with each event, with the first alarm's interrupt pending.
abbrev ticks : List Event → ℕ
ticks l = min (length l) (2 ^ 64 - 1)

abbrev ticking : List Event → ℕ → ℕ
ticking l a =
    if a == irq_basic_pending
    then 0x100
    else if a == irq_pending_1
    then 2
    else if a == system_time_chi
    then ticks l / 2 ^ 32
    else if a == system_time_clo
    then ticks l % 2 ^ 32
    else 0

abbrev clock : Clock ticking
clock = record {
  time = ticks;
  high = λ l. refl;
  low = λ l. refl;
  fits = λ l. omega arith;
  grows = λ e l. omega arith;
  slow = λ e l. omega arith;
}

abbrev alarm1 : AlarmState
alarm1 = record { timestamp = 0; callback = 1; ctx = 9 }

abbrev timer : Machine
timer = record {
  hw = ticking;
  log = [];
  waker = λ _. none;
  gpio_set = record { lower = 0; upper = 0 };
  driver = record { c1 = some alarm1; c3 = none };
}

abbrev was_set : Outcome Bool × Machine
was_set = set_alarm 2 0 40 timer

-- Later, the alarm's interrupt is pending.
abbrev later : Machine
later = record timer { log = woke 5 ∷ was_set.1.log; driver = was_set.1.driver }

timer-set : was_set ≡ (returned true, was_set.1)
unfolding set_alarm now
timer-set = refl

later-only : IsAlarmOnly 0 later
unfolding set_alarm now bit
later-only = record { first = refl; second = refl; c1 = refl; c3 = refl; aux_bit = refl }

set_alarm-interrupt_handler-rings_example :
    Rang
      (λ m. closed (record m { log = left ∷ m.log }))
      no_call
      0
      (record alarm1 { timestamp = 40 })
      (entered_handler irq_pending_1 later)
      clock
      (interrupt_handler no_call 2 2 later)
set_alarm-interrupt_handler-rings_example =
    set_alarm-interrupt_handler-rings no_call 2 2 0 40 alarm1 timer was_set.1 clock
      (woke 5 ∷ was_set.1.log) (omega arith) (omega arith) (omega arith) refl timer-set later-only
