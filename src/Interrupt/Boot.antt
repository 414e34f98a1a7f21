-- ===== src/Interrupt/Boot.antt =====
-- The state in which `first_stage` of src/lib.rs calls `main`.
use rpi_devenv.Base.{
  ℕ, ◌%◌, ◌^◌, ◌<◌, bit_or, ◌≡◌, refl, ◌∙◌, true, false, ◌||◌, [], ◌∷◌, ◌==◌, arith,
}
use rpi_devenv.Bits.{bit, bit-or}
use rpi_devenv.Bits.Fields.{bit-mod}
use rpi_devenv.Machine.{Machine, stored, loaded, barrier, entered, left, peek, IsRegister}
use rpi_devenv.Spi.Defs.{aux_enables_reg}
use rpi_devenv.Spi.Lock.{is_enabled}
use rpi_devenv.Uart.Defs.{Config, extra_control_reg}
use rpi_devenv.Uart.Defs as UartDefs
use rpi_devenv.Uart.Locks.{lock_of, get_pair, do_ops, lock_step, lock_steps, do_ops-lock_steps}
use rpi_devenv.Aux
use rpi_devenv.Interrupt.Defs.{
  interrupt_sources1, interrupt_sources2, gather, setup, enable_irqs_1, enable_irqs_2, first_stage,
}
use rpi_devenv.Interrupt.Enabled.{listed, enabled, setup-enables_listed}

-- What `main` is called in.
abbrev pub at_main : Machine → Machine
at_main s = (first_stage (λ m. (m, m)) s).0

abbrev before_irqs : Machine → Machine
before_irqs s =
    let x = s.hw (barrier ∷ entered ∷ s.log) aux_enables_reg % 2 ^ 32 in
    record s {
      log =
          left
          ∷ stored extra_control_reg 0
          ∷ barrier
          ∷ stored aux_enables_reg (bit_or x 1)
          ∷ loaded aux_enables_reg x
          ∷ barrier
          ∷ entered
          ∷ s.log;
    }

at_main_lem : (s : Machine) → at_main s ≡ (setup (before_irqs s)).1
unfolding first_stage Aux.setup UartDefs.setup
at_main_lem s = refl

setup-keeps :
    (a : ℕ) (s : Machine)
    → IsRegister s.hw a
    → (enable_irqs_1 == a) ≡ false
    → (enable_irqs_2 == a) ≡ false
    → peek a (setup s).1 ≡ peek a s
unfolding setup
setup-keeps a s r h1 h2 = rw (
  r.keeps (stored enable_irqs_2 (gather 32 0 interrupt_sources2)) _ h2,
  r.keeps (stored enable_irqs_1 (gather 0 0 interrupt_sources1)) _ h1,
  r.keeps barrier s.log refl,
)

setup-hw : (s : Machine) → (setup s).1.hw ≡ s.hw
unfolding setup
setup-hw s = refl

before_irqs-enabled : (n : ℕ) (s : Machine) → enabled n (before_irqs s).log ≡ enabled n s.log
unfolding enabled
before_irqs-enabled n s = ground arith

-- `first_stage` calls `main` with the Mini UART enabled in the auxiliary peripherals, neither its
-- receiver nor its transmitter enabled, and, of the 64 interrupts of the two registers, exactly
-- those enabled that have a handler or were enabled before: storing a 0 there disables none. So the
-- first `uart::pair` of the program succeeds. `AUX_ENABLES` and the extra control register keep
-- what is written.
pub first_stage-ready :
    (c : Config) (n : ℕ) (s : Machine)
    → n < 64
    → IsRegister s.hw aux_enables_reg
    → IsRegister s.hw extra_control_reg
    → (is_enabled 0 (at_main s) ≡ true)
      × (lock_of (at_main s) ≡ record { rx = false; tx = false })
      × (enabled n (at_main s).log
          ≡ (listed n interrupt_sources1 || listed n interrupt_sources2 || enabled n s.log))
      × ((do_ops c (get_pair ∷ []) (at_main s)).0 ≡ true ∷ [])
first_stage-ready c n s hn ra rx =
    let b = before_irqs s in
    let x = s.hw (barrier ∷ entered ∷ s.log) aux_enables_reg % 2 ^ 32 in
    let l = loaded aux_enables_reg x ∷ barrier ∷ entered ∷ s.log in
    let l1 = stored aux_enables_reg (bit_or x 1) ∷ l in
    let l2 = stored extra_control_reg 0 ∷ barrier ∷ l1 in
    let on : peek aux_enables_reg b ≡ bit_or x 1 % 2 ^ 32 = rw (
      ra.keeps left l2 refl,
      ra.keeps (stored extra_control_reg 0) (barrier ∷ l1) refl,
      ra.keeps barrier l1 refl,
      ra.gets (bit_or x 1) l,
    ) in
    let off : peek extra_control_reg b ≡ 0 = rw (rx.keeps left l2 refl, rx.gets 0 (barrier ∷ l1)) in
    let free : lock_of (setup b).1 ≡ record { rx = false; tx = false } =
      unfold lock_of bit in rw (setup-keeps extra_control_reg b rx refl refl, off) refl in
    let on_kept : is_enabled 0 (setup b).1 ≡ true =
      rw (setup-keeps aux_enables_reg b ra refl refl, on)
        (bit-mod 32 0 (bit_or x 1) (omega arith) ∙ bit-or 0 x 1 ∙ unfold bit in ground arith) in
    let given = do_ops-lock_steps c (get_pair ∷ []) (setup b).1 (rw (setup-hw b) rx) in
    let asked : (do_ops c (get_pair ∷ []) (setup b).1).0 ≡ true ∷ [] =
      given.0 ∙ unfold lock_steps lock_step in rw free refl in
    let irqs : enabled n (setup b).1.log
        ≡ (listed n interrupt_sources1 || listed n interrupt_sources2 || enabled n s.log) =
      rw (setup-enables_listed n b hn, before_irqs-enabled n s) refl in
    rw at_main_lem (on_kept, free, irqs, asked)
