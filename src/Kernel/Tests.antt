-- ===== src/Kernel/Tests.antt =====
-- The panic handler of kernel/src/main.rs against the library's output pin 47.
use rpi_devenv.Base.{ℕ, ◌≡◌, refl, none, List, [], ◌∷◌}
use rpi_devenv.Machine.{Machine, Event, stored, ram}
use rpi_devenv.Gpio.State.{output, mode_bits}
use rpi_devenv.Gpio.Defs.{get, lock, set_high, set_low}
use rpi_devenv.Kernel.{panic, set_led_output, blink}

abbrev start : Machine
start = record {
  hw = ram (λ a. 0x3FFFFFFF);
  log = [];
  waker = λ _. none;
  gpio_set = record { lower = 0; upper = 0 };
  driver = record { c1 = none; c3 = none };
}

-- The words stored, newest first.
abbrev stores : List Event → List (ℕ × ℕ)
stores [] = []
stores (stored a v ∷ l) = (a, v) ∷ stores l
stores (_ ∷ l) = stores l

abbrev library : Machine
library = (set_low 47 (set_high 47 (get 47 output start).1).1).1

panic-library : stores (panic 1 start).1.log ≡ stores library.log
unfolding panic set_led_output blink get lock set_high set_low ram mode_bits
panic-library = refl
