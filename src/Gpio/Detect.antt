-- ===== src/Gpio/Detect.antt =====
-- Waiting for a pin in src/gpio.rs: `Detector` as a future, `block`, `MapFuture`, and the two
-- interrupt handlers.
pub mod Setup
pub mod Lifecycle
pub mod Service
pub mod Blocks
pub mod Handlers
pub mod Rounds
use rpi_devenv.Base.{
  ℕ, zero, suc, ◌+◌, ◌*◌, ◌/◌, ◌%◌, bit_and, bit_or, Bool, true, false, Option, none, some, List,
  [], ◌∷◌, ◌==◌, if◌then◌else◌,
}
use rpi_devenv.Bits.{◌<<<◌, not32, has}
use rpi_devenv.Machine.{
  M, Machine, ◌>>=◌, ◌>>◌, pure, emit, hinted, read_volatile, write_volatile, data_memory_barrier,
  with_cs, for_each, Poll, ready, pending, Result, ok, pin_waker, take_slot, set_slot, wake_opt,
}
use rpi_devenv.Gpio.State.{
  DetectState, registers, all, flag_bits, high, low, rising_edge, falling_edge,
}
use rpi_devenv.Gpio.Defs.{double_register_op, detect_status_base}
use rpi_devenv.Gpio.Ones.{iter_ones}

pub record Detector : Type 0 where
  pub state : DetectState
  pub setup : Bool

unfoldable pub detect : DetectState → Detector
detect s = record { state = s; setup = false }

-- Sets the pin's bit in one detect register.
unfoldable pub enable_detection : ℕ → ℕ → M (Unit {0})
enable_detection p register =
    double_register_op p register
      (λ reg mask. with_cs (do bits ← read_volatile reg; write_volatile reg (bit_or bits mask)))

unfoldable pub setup_detection : ℕ → Detector → M Detector
setup_detection p d = do
  data_memory_barrier
  for_each (enable_detection p) (registers d.state)
  pure (record d { setup = true })

-- The spin loop of `block`; `none` if the fuel ran out.
unfoldable pub wait_cleared : ℕ → ℕ → ℕ → M (Option (Unit {0}))
wait_cleared zero reg mask = pure none
wait_cleared (suc fuel) reg mask = do
  bits ← read_volatile reg
  let rest = emit hinted >> wait_cleared fuel reg mask
  if has bits mask then rest else pure (some tt)

abbrev wait_first : ℕ → ℕ → List ℕ → M (Option (Unit {0}))
wait_first fuel p [] = pure (some tt)
wait_first fuel p (first_reg ∷ _) = double_register_op p first_reg (wait_cleared fuel)

unfoldable pub block : ℕ → ℕ → Detector → M (Option (Unit {0}) × Detector)
unfolding setup_detection wait_cleared
block fuel p d = do
  data_memory_barrier
  d' ← setup_detection p d
  r ← wait_first fuel p (registers d'.state)
  pure (r, d')

-- The second poll on: the waker is still there, or the interrupt took it.
abbrev poll_again : ℕ → ℕ → M (Poll (Unit {0}))
poll_again p waker = with_cs (do
  old ← take_slot (pin_waker p)
  elim old [
    | some old_waker ↦ do set_slot (pin_waker p) (some waker); pure pending
    | none ↦ do set_slot (pin_waker p) none; pure (ready tt)
  ])

unfoldable pub poll : ℕ → ℕ → Detector → M (Poll (Unit {0}) × Detector)
poll p waker d =
    if d.state == 0
    then pure (ready tt, d)
    else (if d.setup then (do r ← poll_again p waker; pure (r, d)) else do
      with_cs (set_slot (pin_waker p) (some waker))
      d' ← setup_detection p d
      pure (pending, d'))

-- `MapFuture` on the result of the inner poll.
unfoldable pub map_poll : {A B : Type 0} → (A → B) → Poll A → Poll B
map_poll f (ready a) = ready (f a)
map_poll f pending = pending

-- The detectors behind the waits of `embedded_hal_async`.
unfoldable pub wait_for_high : Detector
wait_for_high = detect (flag_bits high)

unfoldable pub wait_for_low : Detector
wait_for_low = detect (flag_bits low)

unfoldable pub wait_for_rising_edge : Detector
wait_for_rising_edge = detect (flag_bits rising_edge)

unfoldable pub wait_for_falling_edge : Detector
wait_for_falling_edge = detect (flag_bits falling_edge)

unfoldable pub wait_for_any_edge : Detector
wait_for_any_edge = detect (bit_or (flag_bits rising_edge) (flag_bits falling_edge))

-- One poll of a wait's future: the detector's, with `|()| Ok(())` on its result.
unfoldable pub poll_wait :
    {E : Type 0} → ℕ → ℕ → Detector → M (Poll (Result E (Unit {0})) × Detector)
poll_wait p waker d = do (r, d') ← poll p waker d; pure (map_poll ok r, d')

-- Clears bit `i` of one detect register.
unfoldable pub disable_detection : ℕ → ℕ → M (Unit {0})
disable_detection i register = do
  bits ← read_volatile register
  write_volatile register (bit_and bits (not32 (1 <<< i)))

unfoldable pub handle_bit1 : ℕ → M (Unit {0})
handle_bit1 i = do
  waker ← take_slot (pin_waker i)
  for_each (disable_detection i) (registers all)
  write_volatile detect_status_base (1 <<< i)
  wake_opt waker

unfoldable pub interrupt_handler1 : M (Unit {0})
interrupt_handler1 = do
  data_memory_barrier
  status ← read_volatile detect_status_base
  with_cs (for_each handle_bit1 (iter_ones status))

-- The second bank: each register is the next word.
unfoldable pub handle_bit2 : ℕ → M (Unit {0})
handle_bit2 i = do
  waker ← take_slot (pin_waker i)
  for_each (λ register. disable_detection i (register + 4)) (registers all)
  write_volatile (detect_status_base + 4) (1 <<< i)
  wake_opt waker

unfoldable pub interrupt_handler2 : M (Unit {0})
interrupt_handler2 = do
  data_memory_barrier
  status ← read_volatile (detect_status_base + 4)
  with_cs (for_each handle_bit2 (iter_ones status))
