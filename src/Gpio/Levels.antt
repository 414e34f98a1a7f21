-- ===== src/Gpio/Levels.antt =====
-- Levels and pulls of src/gpio.rs: which pins a store or a read of a bank concerns.
use rpi_devenv.Base.{
  ℕ, zero, suc, ◌+◌, ◌*◌, ◌/◌, ◌%◌, ◌^◌, ◌<◌, ◌≡◌, refl, ap, ◌∙◌, Bool, false, not, ◌&&◌, Option,
  List, ◌∷◌, ◌==◌, arith,
}
use rpi_devenv.Bits.{bit, ◌<<<◌, has-shl, bit-one_shl}
use rpi_devenv.Machine.{Machine, Event, loaded, stored, barrier, hinted, spin_times}
use rpi_devenv.Gpio.State.{Pull}
use rpi_devenv.Gpio.Defs.{
  set_base, clear_base, level_base, pull_control, pull_set_base, set_high, set_low, is_high, is_low,
  set_pull, pull_bits,
}

-- Does the event store a one for pin `q` into the pair of registers at `base`?
pub strobes : ℕ → ℕ → Event → Bool
strobes base q (stored a v) = (a == base + 4 * (q / 32)) && bit (q % 32) v
strobes base q _ = false

strobes-mask :
    (base p q : ℕ) → strobes base q (stored (base + 4 * (p / 32)) (1 <<< (p % 32))) ≡ (p == q)
unfolding strobes
strobes-mask base p q = ground (arith, bit-one_shl (q % 32) (p % 32))

-- `set_high` and `set_low` make one store each, which strobes exactly the pin, in the set
-- registers or in the clear registers, and nothing in the other kind.
pub set_level_lem :
    (p q : ℕ) (s : Machine)
    → p < 54
    → q < 54
    → (hi lo : Event) × (set_high p s ≡ (tt, record s { log = hi ∷ barrier ∷ s.log }))
      × (set_low p s ≡ (tt, record s { log = lo ∷ barrier ∷ s.log }))
      × (strobes set_base q hi ≡ (p == q))
      × (strobes clear_base q hi ≡ false)
      × (strobes clear_base q lo ≡ (p == q))
      × (strobes set_base q lo ≡ false)
unfolding set_high set_low strobes
set_level_lem p q s hp hq = (
  stored (set_base + 4 * (p / 32)) (1 <<< (p % 32)),
  stored (clear_base + 4 * (p / 32)) (1 <<< (p % 32)),
  refl,
  refl,
  strobes-mask set_base p q,
  ground arith,
  strobes-mask clear_base p q,
  ground arith,
)

-- `is_high` is the pin's bit of its level register, read behind a barrier; `is_low` is its
-- negation, from one read as well. Neither stores anything.
pub level_lem :
    (p : ℕ) (s : Machine)
    → let a = level_base + 4 * (p / 32) in
      let x = s.hw (barrier ∷ s.log) a % 2 ^ 32 in
      let s' : Machine = record s { log = loaded a x ∷ barrier ∷ s.log } in
      (is_high p s ≡ (bit (p % 32) x, s')) × (is_low p s ≡ (not (bit (p % 32) x), s'))
unfolding is_high is_low
level_lem p s =
    let a = level_base + 4 * (p / 32) in
    let x = s.hw (barrier ∷ s.log) a % 2 ^ 32 in (rw (has-shl x (p % 32)), rw (has-shl x (p % 32)))

abbrev pub hints : ℕ → List Event → List Event
hints zero l = l
hints (suc n) l = hinted ∷ hints n l

hints-hinted : (n : ℕ) (l : List Event) → hints n (hinted ∷ l) ≡ hinted ∷ hints n l
hints-hinted zero l = refl
hints-hinted (suc n) l = ap (λ t. hinted ∷ t) (hints-hinted n l)

spin_times-hints : (n : ℕ) (s : Machine) → spin_times n s ≡ (tt, record s { log = hints n s.log })
unfolding spin_times
spin_times-hints zero s = refl
spin_times-hints (suc n) s =
    spin_times-hints n (record s { log = hinted ∷ s.log })
    ∙ ap (λ (l : List Event). let r : Unit {0} × Machine = (tt, record s { log = l }) in r)
        (hints-hinted n s.log)

abbrev pub pulled : ℕ → Option Pull → List Event → List Event
pulled p pull l =
    let clock = stored (pull_set_base + 4 * (p / 32)) (1 <<< (p % 32)) in
    stored pull_control 0
    ∷ hints 150 (clock ∷ hints 150 (stored pull_control (pull_bits pull) ∷ barrier ∷ l))

pub set_pull-log :
    (p : ℕ) (pull : Option Pull) (s : Machine)
    → set_pull p pull s ≡ (tt, record s { log = pulled p pull s.log })
unfolding set_pull
set_pull-log p pull s = simp spin_times-hints

-- `set_pull` stores the pull's code, lets 150 spins pass, strobes exactly the pin, lets 150 more
-- pass, and stores 0 to the control register.
pub set_pull_lem :
    (p q : ℕ) (pull : Option Pull) (s : Machine)
    → p < 54
    → q < 54
    → (clock : Event) × (set_pull p pull s ≡ (
      tt,
      record s {
        log =
            stored pull_control 0
            ∷ hints 150
                (clock ∷ hints 150 (stored pull_control (pull_bits pull) ∷ barrier ∷ s.log));
      },
    ))
      × (strobes pull_set_base q clock ≡ (p == q))
set_pull_lem p q pull s hp hq = (
  stored (pull_set_base + 4 * (p / 32)) (1 <<< (p % 32)),
  set_pull-log p pull s,
  strobes-mask pull_set_base p q,
)
