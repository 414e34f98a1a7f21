-- ===== src/Interrupt/Enabled.antt =====
-- Which interrupts `setup` of src/interrupt.rs enables, against the tables of handlers.
use rpi_devenv.Base.{
  ℕ, ◌-◌, ◌%◌, ◌<◌, bit_or, ◌≡◌, ap, Bool, false, ◌||◌, List, [], ◌∷◌, ◌==◌, ltb, if◌then◌else◌,
  arith,
}
use native.Mathlib.Decide.{dec_lt}
use rpi_devenv.Bits.{bit, ◌<<<◌, bit-set, bit-zero}
use rpi_devenv.Machine.{Machine, Event, stored}
use rpi_devenv.Interrupt.Defs.{
  InterruptDescriptor, interrupt_sources1, interrupt_sources2, gather, setup, enable_irqs_1,
  enable_irqs_2,
}

-- Is interrupt `n` in the table?
abbrev pub listed : ℕ → List InterruptDescriptor → Bool
listed n [] = false
listed n (d ∷ ds) = (d.number == n) || listed n ds

-- What one access of a bus does to interrupt `n`: a 1 stored to its bit of the enable register of
-- its half enables it, a 0 leaves it as it was.
abbrev after_event : ℕ → Event → Bool → Bool
after_event n (stored a v) b =
    if a == (if ltb n 32 then enable_irqs_1 else enable_irqs_2) then bit (n % 32) v || b else b
after_event n e b = b

-- Is interrupt `n` enabled by any of the stores so far?
unfoldable pub enabled : ℕ → List Event → Bool
enabled n [] = false
enabled n (e ∷ l) = after_event n e (enabled n l)

bit-gather :
    (i first mask : ℕ) (ds : List InterruptDescriptor)
    → bit i (gather first mask ds) ≡ (bit i mask || bit i (gather first 0 ds))
unfolding gather
bit-gather i first mask [] = ground (arith, bit-zero i)
bit-gather i first mask (d ∷ ds) = ground (
  arith,
  bit-gather i first (bit_or mask (1 <<< (d.number - first))) ds,
  bit-gather i first (bit_or 0 (1 <<< (d.number - first))) ds,
  bit-set i (d.number - first) mask,
  bit-set i (d.number - first) 0,
  bit-zero i,
)

abbrev shifted : ℕ → ℕ → List InterruptDescriptor → Bool
shifted first i [] = false
shifted first i (d ∷ ds) = (d.number - first == i) || shifted first i ds

bit-gather-shifted :
    (i first : ℕ) (ds : List InterruptDescriptor) → bit i (gather first 0 ds) ≡ shifted first i ds
unfolding gather
bit-gather-shifted i first [] = bit-zero i
bit-gather-shifted i first (d ∷ ds) = ground (
  arith,
  bit-gather i first (bit_or 0 (1 <<< (d.number - first))) ds,
  bit-zero i,
  bit-gather-shifted i first ds,
  bit-set i (d.number - first) 0,
)

-- `setup` enables, of the 64 interrupts of the two registers, exactly those that the tables have a
-- handler for, besides those that were enabled before.
pub setup-enables_listed :
    (n : ℕ) (s : Machine)
    → n < 64
    → enabled n (setup s).1.log
      ≡ (listed n interrupt_sources1 || listed n interrupt_sources2 || enabled n s.log)
unfolding setup enabled
setup-enables_listed n s h =
    let m1 = bit-gather-shifted n 0 interrupt_sources1 in
    let m2 = bit-gather-shifted (n - 32) 32 interrupt_sources2 in
    elim (dec_lt n 32) [
      | yes low ↦
          let i : n % 32 ≡ n = omega arith in
          ground (arith, m1, i, ap (λ (k : ℕ). bit k (gather 0 0 interrupt_sources1)) i)
      | no high ↦
          let i : n % 32 ≡ n - 32 = omega arith in
          ground (arith, m2, i, ap (λ (k : ℕ). bit k (gather 32 0 interrupt_sources2)) i)
    ]
