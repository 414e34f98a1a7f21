-- ===== src/Gpio/Tests.antt =====
-- Runs of the model of src/gpio.rs on concrete machines, and the theorems on them.
use rpi_devenv.Base.{
  ℕ, ◌+◌, ◌%◌, ◌^◌, ◌≡◌, refl, true, false, ◌||◌, none, some, [], ◌∷◌, ◌==◌, if◌then◌else◌, arith,
}
use rpi_devenv.Bits.{bit}
use rpi_devenv.Machine.{
  Machine, barrier, ram, ram-IsRegister, ready, pending, IsRegister, for_each, pin_waker,
}
use rpi_devenv.Machine.{woken}
use rpi_devenv.Gpio.State.{
  register_of, registers, iter_names, keep_contained, up, output, mode_bits, flag_bits,
}
use rpi_devenv.Gpio.Defs.{get, detect_status_base}
use rpi_devenv.Gpio.Ones.{trailing_zeros, iter_ones, next, collect}
use rpi_devenv.Gpio.Ones.Complete.{set_positions, iter_ones-eq-set_positions}
use rpi_devenv.Gpio.Detect.{detect, poll, enable_detection, setup_detection, interrupt_handler1}
use rpi_devenv.Bits.{◌<<<◌}
use rpi_devenv.Gpio.State.{rising_edge}
use rpi_devenv.Gpio.Detect.{block, wait_cleared}
use rpi_devenv.Gpio.Detect.Blocks.{word_of, status_of, handler_of, block-interrupted}
use rpi_devenv.Gpio.Detect.Rounds.{member}
use rpi_devenv.Gpio.Detect.Service.{Serviced, interrupt_handler1_lem}
use rpi_devenv.Gpio.Detect.Lifecycle.{
  poll-interrupt_handler1-ready, handlers, poll-second_bank-pending,
}
use rpi_devenv.Gpio.Locks.{held, function_bit, select_register, get_lem}
use rpi_devenv.Base.{List}
use rpi_devenv.Gpio.State.{alternate5}
use rpi_devenv.Gpio.Ownership.{Op, get_pin, raise, pull_to, drop_it, do_ops, do_ops-pins}

-- Pin 5 has an event in the first bank, pin 33 in the second.
abbrev reset : ℕ → ℕ
reset a =
    if a == detect_status_base then 0b100000 else if a == detect_status_base + 4 then 0b10 else 0

abbrev start : Machine
start = record {
  hw = ram reset;
  log = [];
  waker = λ _. none;
  gpio_set = record { lower = 0b1000; upper = 0 };
  driver = record { c1 = none; c3 = none };
}

abbrev no_hazard : (a : ℕ) → IsRegister start.hw a
no_hazard a = ram-IsRegister reset a

next_44 : next 0b101100 ≡ some (2, 0b101000)
unfolding next trailing_zeros
next_44 = refl

after_poll : (poll 5 7 (detect 1) start).1.waker (pin_waker 5) ≡ some 7
unfolding poll detect setup_detection for_each registers enable_detection
after_poll = refl

start-seen :
    let a = poll 5 7 (detect 1) start in
    bit 5 (a.1.hw (barrier ∷ a.1.log) detect_status_base % 2 ^ 32) ≡ true
unfolding poll detect setup_detection for_each registers enable_detection bit ram iter_names
    keep_contained flag_bits register_of
start-seen = refl

poll-interrupt_handler1-ready_example :
    let a = poll 5 7 (detect 1) start in
    let b = interrupt_handler1 a.1 in
    (a.0.0 ≡ pending) × (member 7 (woken b.1.log) ≡ true) × ((poll 5 8 a.0.1 b.1).0.0 ≡ ready tt)
poll-interrupt_handler1-ready_example =
    poll-interrupt_handler1-ready 5 7 8 1 start (omega arith) refl
      (λ f. no_hazard (register_of f + 0)) start-seen

poll-second_bank-pending_example :
    let a = poll 33 7 (detect 1) start in
    (poll 33 8 a.0.1 (handlers (false ∷ true ∷ false ∷ []) a.1).1).0.0 ≡ pending
poll-second_bank-pending_example =
    poll-second_bank-pending 33 7 8 1 (false ∷ true ∷ false ∷ []) start (omega arith) refl

interrupt_handler1_lem_example :
    Serviced 0
      (start.hw (barrier ∷ []) detect_status_base % 2 ^ 32)
      start
      (interrupt_handler1 start).1
interrupt_handler1_lem_example = interrupt_handler1_lem start (λ f. no_hazard (register_of f + 0))

iter_ones-eq-set_positions_example :
    (iter_ones 0b101100 ≡ set_positions 32 0 0b101100) × (next (collect 32 0b101100).1 ≡ none)
iter_ones-eq-set_positions_example = iter_ones-eq-set_positions 0b101100 (omega arith)

get_lem_example :
    ((get 17 output start).0 ≡ some (record { number = 17; mode = output }))
    × (held 17 (get 17 output start).1 ≡ (held 17 start || (17 == 17)))
    × (function_bit 17 0 (get 17 output start).1
        ≡ (if 17 == 17 then bit 0 (mode_bits output) else function_bit 17 0 start))
get_lem_example =
    get_lem start (λ q h. no_hazard (select_register q)) 17 output 17 0 (omega arith) (omega arith)
      (omega arith)

-- Two pins are taken, one of them is driven and dropped, and a third is pulled.
abbrev calls : List Op
calls = get_pin 5 output ∷ raise 5 ∷ get_pin 6 alternate5 ∷ pull_to 33 (some up) ∷ drop_it 5 ∷ []

do_ops-pins_example :
    (held 5 (do_ops calls start).1 ≡ false)
    × (function_bit 5 0 (do_ops calls start).1 ≡ bit 0 (mode_bits output))
unfolding bit
do_ops-pins_example =
    do_ops-pins calls start 5 0 (λ p h. no_hazard (select_register p))
      (omega arith, (omega arith, (omega arith, (omega arith, (omega arith, tt))))) (omega arith)
      (omega arith)

names_1 : iter_names 1 ≡ rising_edge ∷ []
unfolding iter_names keep_contained flag_bits
names_1 = refl

-- Three rounds of the loop of `block` on pin 33, before its interrupt.
abbrev blocked : Machine
blocked = (block 3 33 (detect 1) start).1

blocked-seen : bit (33 % 32) (status_of 33 blocked) ≡ true
unfolding block wait_cleared detect setup_detection for_each registers enable_detection bit ram
blocked-seen = refl

block-interrupted_example :
    ((block 3 33 (detect 1) start).0.0 ≡ none)
    × ((wait_cleared 1 (word_of rising_edge 33) (1 <<< (33 % 32)) (handler_of 33 blocked).1).0
        ≡ some tt)
block-interrupted_example =
    block-interrupted 3 0 33 1 rising_edge [] start (omega arith) names_1
      (λ g. no_hazard (word_of g 33)) blocked-seen
