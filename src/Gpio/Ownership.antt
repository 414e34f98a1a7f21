-- ===== src/Gpio/Ownership.antt =====
-- Sequences of calls on the pins of src/gpio.rs against a set of pins and the modes last selected.
use rpi_devenv.Base.{
  ℕ, zero, suc, ◌+◌, ◌*◌, ◌/◌, ◌%◌, ◌≤◌, ◌<◌, ◌≡◌, refl, sym, ◌∙◌, Bool, false, not, ◌&&◌, ◌||◌,
  Option, none, some, List, [], ◌∷◌, ◌==◌, if◌then◌else◌, arith,
}
use rpi_devenv.Bits.{bit, ◌<<<◌}
use rpi_devenv.Machine.{Machine, M, Event, stored, barrier, hinted, stores, IsRegister, ◌>>◌, pure}
use rpi_devenv.Gpio.State.{PinType, mode_bits, Pull}
use rpi_devenv.Gpio.Defs.{
  get, drop_pin, set_high, set_low, set_pull, set_base, clear_base, pull_set_base, pull_control,
  pull_bits, unlock,
}
use rpi_devenv.Gpio.Locks.{held, select_register, function_bit, get-log, get_lem, unlock_lem}
use rpi_devenv.Gpio.Levels.{hints, set_pull-log}

-- The calls that a program makes on its pins.
pub data Op : Type 0 where
  get_pin : ℕ → PinType → Op
  drop_it raise lower : ℕ → Op
  pull_to : ℕ → Option Pull → Op

abbrev pub pin_of : Op → ℕ
pin_of (get_pin p t) = p
pin_of (drop_it p) = p
pin_of (raise p) = p
pin_of (lower p) = p
pin_of (pull_to p x) = p

-- A pin's number is below 53, as `Pin::get` asserts.
abbrev pub AreValid : List Op → Type 0
AreValid [] = Unit {0}
AreValid (o ∷ os) = (pin_of o < 53) × AreValid os

unfoldable pub do_op : Op → M (Unit {0})
do_op (get_pin p t) = do get p t; pure tt
do_op (drop_it p) = drop_pin p
do_op (raise p) = set_high p
do_op (lower p) = set_low p
do_op (pull_to p x) = set_pull p x

unfoldable pub do_ops : List Op → M (Unit {0})
do_ops [] = pure tt
do_ops (o ∷ os) = do do_op o; do_ops os

-- The specification, for the pin `q`: is it taken, and which mode was last selected?
abbrev pub taken_after : ℕ → List Op → Bool → Bool
taken_after q [] b = b
taken_after q (get_pin p t ∷ os) b = taken_after q os (b || (p == q))
taken_after q (drop_it p ∷ os) b = taken_after q os (b && not (p == q))
taken_after q (_ ∷ os) b = taken_after q os b

abbrev pub mode_after : ℕ → List Op → Option PinType → Option PinType
mode_after q [] m = m
mode_after q (get_pin p t ∷ os) m = mode_after q os (if p == q then some t else m)
mode_after q (_ ∷ os) m = mode_after q os m

-- Bit `k` of the function of a pin: of the mode selected, or as it was.
abbrev pub selected_bit : Option PinType → Bool → ℕ → Bool
selected_bit none old k = old
selected_bit (some t) old k = bit k (mode_bits t)

module _ (s : Machine) (regs : (q : ℕ) → q < 53 → IsRegister s.hw (select_register q)) (q k : ℕ)
    (hq : q < 53) where
  function_bit-other :
      (e : Event) (l : List Event)
      → stores (select_register q) e ≡ false
      → function_bit q k (record s { log = e ∷ l }) ≡ function_bit q k (record s { log = l })
  function_bit-other e l h = let r = regs q hq in rw (r.keeps e l h)

  function_bit-hints :
      (n : ℕ) (l : List Event)
      → function_bit q k (record s { log = hints n l }) ≡ function_bit q k (record s { log = l })
  function_bit-hints zero l = refl
  function_bit-hints (suc n) l = function_bit-other hinted (hints n l) refl ∙ function_bit-hints n l

  function_bit-set_level :
      (p base v : ℕ)
      → 0x2020001C ≤ base
      → function_bit q k (record s { log = stored (base + 4 * (p / 32)) v ∷ barrier ∷ s.log })
        ≡ function_bit q k s
  function_bit-set_level p base v h =
      function_bit-other (stored (base + 4 * (p / 32)) v) (barrier ∷ s.log) (ground arith)
      ∙ function_bit-other barrier s.log refl

  function_bit-set_pull :
      (p : ℕ) (x : Option Pull) → function_bit q k (set_pull p x s).1 ≡ function_bit q k s
  function_bit-set_pull p x =
      let l0 = stored pull_control (pull_bits x) ∷ barrier ∷ s.log in
      let e = stored (pull_set_base + 4 * (p / 32)) (1 <<< (p % 32)) in
      rw (set_pull-log p x s) (
        function_bit-other (stored pull_control 0) (hints 150 (e ∷ hints 150 l0)) (ground arith)
        ∙ function_bit-hints 150 (e ∷ hints 150 l0)
        ∙ function_bit-other e (hints 150 l0) (ground arith)
        ∙ function_bit-hints 150 l0
        ∙ function_bit-other (stored pull_control (pull_bits x)) (barrier ∷ s.log) (ground arith)
        ∙ function_bit-other barrier s.log refl)

  unlock_hw : (p : ℕ) → (unlock p s).1.hw ≡ s.hw
  unfolding unlock
  unlock_hw p = ground arith

  unlock_function : (p : ℕ) → function_bit q k (unlock p s).1 ≡ function_bit q k s
  unfolding unlock
  unlock_function p = ground arith

  -- What one call does to the pin `q`, besides which it leaves the hardware's rule alone.
  do_op-steps :
      (o : Op)
      → pin_of o < 53
      → k < 3
      → (held q (do_op o s).1 ≡ taken_after q (o ∷ []) (held q s))
        × ((do_op o s).1.hw ≡ s.hw)
        × (function_bit q k (do_op o s).1
            ≡ selected_bit (mode_after q (o ∷ []) none) (function_bit q k s) k)
  unfolding do_op drop_pin set_high set_low
  do_op-steps (get_pin p t) hp hk =
      let g = get_lem s regs p t q k hp hq hk in (g.1, (get-log p t s).0, g.2 ∙ ground arith)
  do_op-steps (drop_it p) hp hk =
      ((unlock_lem p q s (omega arith) (omega arith)).1, unlock_hw p, unlock_function p)
  do_op-steps (raise p) hp hk =
      (refl, refl, function_bit-set_level p set_base (1 <<< (p % 32)) (omega arith))
  do_op-steps (lower p) hp hk =
      (refl, refl, function_bit-set_level p clear_base (1 <<< (p % 32)) (omega arith))
  do_op-steps (pull_to p x) hp hk =
      (rw (set_pull-log p x s) refl, rw (set_pull-log p x s) refl, function_bit-set_pull p x)

taken_after-cons :
    (q : ℕ) (o : Op) (os : List Op) (b : Bool)
    → taken_after q (o ∷ os) b ≡ taken_after q os (taken_after q (o ∷ []) b)
taken_after-cons q (get_pin p t) os b = refl
taken_after-cons q (drop_it p) os b = refl
taken_after-cons q (raise p) os b = refl
taken_after-cons q (lower p) os b = refl
taken_after-cons q (pull_to p x) os b = refl

mode_after-cons :
    (q : ℕ) (o : Op) (os : List Op) (m : Option PinType)
    → mode_after q (o ∷ os) m ≡ mode_after q os (mode_after q (o ∷ []) m)
mode_after-cons q (get_pin p t) os m = refl
mode_after-cons q (drop_it p) os m = refl
mode_after-cons q (raise p) os m = refl
mode_after-cons q (lower p) os m = refl
mode_after-cons q (pull_to p x) os m = refl

selected_bit-after :
    (q k : ℕ) (o : Op) (m : Option PinType) (old : Bool)
    → selected_bit (mode_after q (o ∷ []) none) (selected_bit m old k) k
      ≡ selected_bit (mode_after q (o ∷ []) m) old k
selected_bit-after q k (get_pin p t) m old = ground arith
selected_bit-after q k (drop_it p) m old = refl
selected_bit-after q k (raise p) m old = refl
selected_bit-after q k (lower p) m old = refl
selected_bit-after q k (pull_to p x) m old = refl

do_ops-after :
    (os : List Op) (s : Machine) (q k : ℕ) (m : Option PinType) (old : Bool)
    → ((p : ℕ) → p < 53 → IsRegister s.hw (select_register p))
    → AreValid os
    → q < 53
    → k < 3
    → function_bit q k s ≡ selected_bit m old k
    → (held q (do_ops os s).1 ≡ taken_after q os (held q s))
      × (function_bit q k (do_ops os s).1 ≡ selected_bit (mode_after q os m) old k)
unfolding do_ops
do_ops-after [] s q k m old regs h hq hk e = (refl, e)
do_ops-after (o ∷ os) s q k m old regs h hq hk e =
    let one = do_op-steps s regs q k hq o h.0 hk in
    let t = (do_op o s).1 in
    let same = one.2 ∙ rw e (selected_bit-after q k o m old) in
    let ih = do_ops-after os t q k (mode_after q (o ∷ []) m) old (rw one.1 regs) h.1 hq hk same in
    (
      ih.0 ∙ rw one.0 (sym (taken_after-cons q o os (held q s))),
      ih.1 ∙ rw (mode_after-cons q o os m) refl,
    )

-- After any sequence of gets and drops of pins, with levels driven and pulls set between them, a
-- pin is marked exactly if it was marked or taken and not dropped since, and its function is the
-- mode of the last get of it, or what it was before; a drop does not reset it, and no call on
-- another pin changes it. The function-select registers of
-- the pins below 53 keep what is written, and pins are below 53.
pub do_ops-pins :
    (os : List Op) (s : Machine) (q k : ℕ)
    → ((p : ℕ) → p < 53 → IsRegister s.hw (select_register p))
    → AreValid os
    → q < 53
    → k < 3
    → (held q (do_ops os s).1 ≡ taken_after q os (held q s))
      × (function_bit q k (do_ops os s).1
          ≡ selected_bit (mode_after q os none) (function_bit q k s) k)
do_ops-pins os s q k regs h hq hk =
    do_ops-after os s q k none (function_bit q k s) regs h hq hk refl
