-- ===== src/Gpio/Detect/Service.antt =====
-- The two interrupt handlers of src/gpio.rs over every pending bit of their bank.
use rpi_devenv.Base.{
  ℕ, ◌+◌, ◌%◌, ◌^◌, ◌≤◌, ◌<◌, ◌≡◌, refl, ap, ◌∙◌, true, false, not, ◌&&◌, none, List, ◌∷◌, map,
  ◌==◌, ltb, if◌then◌else◌, arith,
}
use native.Mathlib.Decide.{dec_lt}
use rpi_devenv.Bits.{bit}
use rpi_devenv.Bits.Fields.{bit-high}
use rpi_devenv.Machine.{
  Machine, M, emit, pin_waker, barrier, entered, left, loaded, peek, for_each, IsRegister,
}
use rpi_devenv.Gpio.State.{
  Flag, rising_edge, falling_edge, high, low, async_rising_edge, async_falling_edge, register_of,
  registers, all,
}
use rpi_devenv.Gpio.Defs.{detect_status_base}
use rpi_devenv.Gpio.Ones.{iter_ones}
use rpi_devenv.Gpio.Ones.Complete.{set_positions, iter_ones-eq-set_positions}
use rpi_devenv.Gpio.Detect.{handle_bit1, handle_bit2, interrupt_handler1, interrupt_handler2}
use rpi_devenv.Machine.{woken}
use rpi_devenv.Gpio.Detect.Rounds.{member, Handled}
use rpi_devenv.Gpio.Detect.Handlers.{
  wakers_at, Ran, run-Ran, round-Handled, handle_bit1-round, handle_bit2-round,
}

-- The result of a whole handler: `x` is the status it read.
pub record Serviced (bank x : ℕ) (s s' : Machine) : Type 0 where
  pub slots :
      (i : ℕ)
      → s'.waker (pin_waker i) ≡ (if ltb i 32 && bit i x then none else s.waker (pin_waker i))
  pub wakes : woken s'.log ≡ wakers_at s.waker (set_positions 32 0 x) (woken s.log)
  pub clears :
      (f : Flag) (k : ℕ)
      → bit k (peek (register_of f + bank) s')
        ≡ (bit k (peek (register_of f + bank) s) && not (bit k x))

module _ (rs : List ℕ) (status bank x : ℕ) (s : Machine) (body : ℕ → M (Unit {0}))
    (fits : x < 2 ^ 32) (found : (f : Flag) → member (register_of f + bank) rs ≡ true)
    (apart : (f : Flag) → (status == register_of f + bank) ≡ false)
    (each : (i : ℕ) (t : Machine) → i < 32 → Handled rs status i t (body i t).1) where
  abbrev entry : Machine
  entry = record s { log = entered ∷ loaded status x ∷ barrier ∷ s.log }

  abbrev exit : Machine
  exit = (emit left (for_each body (iter_ones x) entry).1).1

  ran : Ran rs status 32 0 x entry (for_each body (iter_ones x) entry).1
  ran =
      rw ((iter_ones-eq-set_positions x fits).0)
        (run-Ran body rs status x each 32 0 entry (omega arith))

  entry-keeps : (b : ℕ) → IsRegister s.hw b → peek b entry ≡ peek b s
  entry-keeps b r = rw (
    r.keeps entered (loaded status x ∷ barrier ∷ s.log) refl,
    r.keeps (loaded status x) (barrier ∷ s.log) refl,
    r.keeps barrier s.log refl,
  )

  exit-keeps :
      (b : ℕ) → IsRegister s.hw b → peek b exit ≡ peek b (for_each body (iter_ones x) entry).1
  exit-keeps b r =
      let r' : IsRegister (for_each body (iter_ones x) entry).1.hw b = rw ran.same_hw r in
      rw (r'.keeps left (for_each body (iter_ones x) entry).1.log refl)

  service_slots :
      (i : ℕ)
      → exit.waker (pin_waker i) ≡ (if ltb i 32 && bit i x then none else s.waker (pin_waker i))
  service_slots i = ran.slots i ∙ ground arith

  service : ((f : Flag) → IsRegister s.hw (register_of f + bank)) → Serviced bank x s exit
  service regs = record {
    slots = service_slots;
    wakes = ran.wakes;
    clears = λ f k. elim (dec_lt k 32) [
      | yes hk ↦
          let r = regs f in
          ap (bit k) (exit-keeps (register_of f + bank) r)
          ∙ ran.clears (register_of f + bank) k hk (apart f) r
          ∙ ground (arith, found f, entry-keeps (register_of f + bank) r)
      | no hk ↦ rw (
        bit-high 32 k (peek (register_of f + bank) exit) (omega arith) (omega arith),
        bit-high 32 k (peek (register_of f + bank) s) (omega arith) (omega arith),
      )
    ];
  }

member-registers : (f : Flag) → member (register_of f + 0) (registers all) ≡ true
unfolding member registers
member-registers rising_edge = refl
member-registers falling_edge = refl
member-registers high = refl
member-registers low = refl
member-registers async_rising_edge = refl
member-registers async_falling_edge = refl

apart0 : (f : Flag) → (detect_status_base == register_of f + 0) ≡ false
unfolding register_of
apart0 rising_edge = refl
apart0 falling_edge = refl
apart0 high = refl
apart0 low = refl
apart0 async_rising_edge = refl
apart0 async_falling_edge = refl

-- `interrupt_handler1`, for the status `x` that it reads: for each pin below 32 with its bit set
-- in `x` it empties the pin's slot, wakes the waker found there, each once and in the order of
-- the pins, and clears the pin's bit in all six detect registers of the first bank; every other
-- pin's slot and every other bit stays. The detect registers keep what is written.
pub interrupt_handler1_lem :
    (s : Machine)
    → ((f : Flag) → IsRegister s.hw (register_of f + 0))
    → Serviced 0 (s.hw (barrier ∷ s.log) detect_status_base % 2 ^ 32) s (interrupt_handler1 s).1
unfolding interrupt_handler1
interrupt_handler1_lem s regs =
    let x = s.hw (barrier ∷ s.log) detect_status_base % 2 ^ 32 in
    service (registers all) detect_status_base 0 x s handle_bit1 (omega arith) member-registers
      apart0
      (λ i s' h.
        rw (handle_bit1-round i s') (round-Handled (registers all) detect_status_base i s' h))
      regs

member-registers_next :
    (f : Flag) → member (register_of f + 4) (map (λ r. r + 4) (registers all)) ≡ true
unfolding member registers
member-registers_next rising_edge = refl
member-registers_next falling_edge = refl
member-registers_next high = refl
member-registers_next low = refl
member-registers_next async_rising_edge = refl
member-registers_next async_falling_edge = refl

apart4 : (f : Flag) → (detect_status_base + 4 == register_of f + 4) ≡ false
unfolding register_of
apart4 rising_edge = refl
apart4 falling_edge = refl
apart4 high = refl
apart4 low = refl
apart4 async_rising_edge = refl
apart4 async_falling_edge = refl

-- `interrupt_handler2`, for the status `x` that it reads from the second bank: it clears the bits
-- of `x` in all six detect registers of the second bank and no other bit of them; but the slots
-- that it empties and the wakers that it wakes are those of the pins with the numbers of the bits,
-- which are pins of the first bank. The detect registers keep what is written.
pub interrupt_handler2_lem :
    (s : Machine)
    → ((f : Flag) → IsRegister s.hw (register_of f + 4))
    → Serviced 4
        (s.hw (barrier ∷ s.log) (detect_status_base + 4) % 2 ^ 32)
        s
        (interrupt_handler2 s).1
unfolding interrupt_handler2
interrupt_handler2_lem s regs =
    let x = s.hw (barrier ∷ s.log) (detect_status_base + 4) % 2 ^ 32 in
    let rs = map (λ (r : ℕ). r + 4) (registers all) in
    service rs (detect_status_base + 4) 4 x s handle_bit2 (omega arith) member-registers_next apart4
      (λ i s' h. rw (handle_bit2-round i s') (round-Handled rs (detect_status_base + 4) i s' h))
      regs

-- No handler touches the slot of a pin of the second bank.
pub interrupt_handler1-second_bank :
    (s : Machine) (i : ℕ)
    → 32 ≤ i
    → (interrupt_handler1 s).1.waker (pin_waker i) ≡ s.waker (pin_waker i)
unfolding interrupt_handler1
interrupt_handler1-second_bank s i h =
    let x = s.hw (barrier ∷ s.log) detect_status_base % 2 ^ 32 in
    service_slots (registers all) detect_status_base 0 x s handle_bit1 (omega arith)
      member-registers apart0
      (λ i s' h.
        rw (handle_bit1-round i s') (round-Handled (registers all) detect_status_base i s' h))
      i
    ∙ ground arith

pub interrupt_handler2-second_bank :
    (s : Machine) (i : ℕ)
    → 32 ≤ i
    → (interrupt_handler2 s).1.waker (pin_waker i) ≡ s.waker (pin_waker i)
unfolding interrupt_handler2
interrupt_handler2-second_bank s i h =
    let x = s.hw (barrier ∷ s.log) (detect_status_base + 4) % 2 ^ 32 in
    let rs = map (λ (r : ℕ). r + 4) (registers all) in
    service_slots rs (detect_status_base + 4) 4 x s handle_bit2 (omega arith) member-registers_next
      apart4
      (λ i s' h. rw (handle_bit2-round i s') (round-Handled rs (detect_status_base + 4) i s' h)) i
    ∙ ground arith
